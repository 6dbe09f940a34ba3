-- ===== src/Prelude/Actions.antt =====
-- Actions on a state that may throw, with what holds after them.
use mathlib.Core.Path.{◌≡◌, refl}
use bumd.Prelude.Exceptions.{Except, returned, thrown}

abbrev pub Action : Type 0 → Type 0 → Type 0 → Type 0
Action S E A = S → Except E A × S

module _ {S E : Type 0} where
  -- What follows an action, by its result.
  abbrev pub continue : {A B : Type 0} → Except E A × S → (A → Action S E B) → Except E B × S
  continue (returned a, s) f = f a s
  continue (thrown e, s) f = (thrown e, s)

  infixl 5 ◌>>=◌ ◌>>◌
  abbrev pub ◌>>=◌ : {A B : Type 0} → Action S E A → (A → Action S E B) → Action S E B
  ◌>>=◌ m f s = continue (m s) f

  abbrev pub ◌>>◌ : {B : Type 0} → Action S E (Unit {0}) → Action S E B → Action S E B
  ◌>>◌ m k s = continue (m s) (λ _. k)

  abbrev pub pure : {A : Type 0} → A → Action S E A
  pure a s = (returned a, s)

  abbrev pub raise : {A : Type 0} → E → Action S E A
  raise e s = (thrown e, s)

  -- A value or what was thrown, with the state as it is.
  abbrev pub lift : {A : Type 0} → Except E A → Action S E A
  lift m s = (m, s)

  -- `P` holds of the value and the state where the action returned, `Q` of the error and the state
  -- where it threw.
  abbrev pub Post : {A : Type 0} → (A → S → Type 0) → (E → S → Type 0) → Except E A × S → Type 0
  Post P Q (returned a, s) = P a s
  Post P Q (thrown e, s) = Q e s

  pub Post-continue :
      {A B : Type 0} (P : A → S → Type 0) (P' : B → S → Type 0) (Q Q' : E → S → Type 0)
      (m : Except E A × S) (k : A → Action S E B)
      → Post P Q m
      → ((a : A) (s : S) → P a s → Post P' Q' (k a s))
      → ((e : E) (s : S) → Q e s → Q' e s)
      → Post P' Q' (continue m k)
  Post-continue P P' Q Q' (returned a, s) k h next weaker = next a s h
  Post-continue P P' Q Q' (thrown e, s) k h next weaker = weaker e s h

  pub Post-lift :
      {A : Type 0} (P : A → S → Type 0) (Q : E → S → Type 0) (m : Except E A) (s : S)
      → ((a : A) → m ≡ returned a → P a s)
      → ((e : E) → Q e s)
      → Post P Q (lift m s)
  Post-lift P Q (returned a) s p q = p a refl
  Post-lift P Q (thrown e) s p q = q e

  -- The action leaves the state related to what it was, also if it throws.
  abbrev pub Keeps : {A : Type 0} → (S → S → Type 0) → Action S E A → Type 0
  Keeps R m = (s : S) → Post (λ _. R s) (λ _. R s) (m s)

  pub Post-weaken :
      {A : Type 0} (P P' : A → S → Type 0) (Q Q' : E → S → Type 0) (m : Except E A × S)
      → Post P Q m
      → ((a : A) (s : S) → P a s → P' a s)
      → ((e : E) (s : S) → Q e s → Q' e s)
      → Post P' Q' m
  Post-weaken P P' Q Q' (returned a, s) h p q = p a s h
  Post-weaken P P' Q Q' (thrown e, s) h p q = q e s h

  pub Keeps->>= :
      {A B : Type 0} (R : S → S → Type 0) (m : Action S E A) (k : A → Action S E B)
      → ((s t u : S) → R s t → R t u → R s u)
      → Keeps R m
      → ((a : A) → Keeps R (k a))
      → Keeps R (m >>= k)
  Keeps->>= R m k trans first next s =
      Post-continue (λ _. R s) (λ _. R s) (λ _. R s) (λ _. R s) (m s) k (first s)
        (λ a t r.
          Post-weaken (λ _. R t) (λ _. R s) (λ _. R t) (λ _. R s) (k a t) (next a t)
            (λ b u. trans s t u r) (λ e u. trans s t u r))
        (λ e t r. r)

  pub Keeps-lift :
      {A : Type 0} (R : S → S → Type 0) (m : Except E A) → ((s : S) → R s s) → Keeps R (lift m)
  Keeps-lift R (returned a) r s = r s
  Keeps-lift R (thrown e) r s = r s

  -- What holds of the state alone holds after an action that leaves this state.
  pub Post-state :
      {A : Type 0} (R : S → Type 0) (m : Except E A) (s : S) → R s → Post (λ _. R) (λ _. R) (m, s)
  Post-state R (returned a) s r = r
  Post-state R (thrown e) s r = r
