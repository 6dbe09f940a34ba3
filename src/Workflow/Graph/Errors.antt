-- ===== src/Workflow/Graph/Errors.antt =====
-- The exceptions of the graph functions as values.
use bumd.Prelude.{String, ◌≡◌, refl, ◌⊎◌, inl, inr}

pub data GraphError : Type 0 where
  invalid_source : String → GraphError  -- WORKFLOW_INVALID: Edge source "…" does not exist
  invalid_target : String → GraphError  -- WORKFLOW_INVALID: Edge target "…" does not exist
  missing_source : String → GraphError  -- a source with no list of neighbours
  cycle : GraphError  -- WORKFLOW_CYCLE
  out_of_fuel : GraphError  -- the model's own

pub data Result {ℓ} (A : Type ℓ) : Type ℓ where
  ok : A → Result A
  err : GraphError → Result A

-- What follows a call that may throw.
abbrev pub ◌>>=◌ {ℓ κ} : {A : Type ℓ} {B : Type κ} → Result A → (A → Result B) → Result B
err thrown >>= next = err thrown
ok value >>= next = next value

abbrev pub ◌>>◌ {ℓ} : {B : Type ℓ} → Result (Unit {0}) → Result B → Result B
err thrown >> next = err thrown
ok done >> next = next

infixl 5 ◌>>=◌ ◌>>◌
pub ok-injective {ℓ} : {A : Type ℓ} {a b : A} → ok a ≡ ok b → a ≡ b
ok-injective h = cc

pub Result-cases {ℓ} :
    {A : Type ℓ} (r : Result A) → ((a : A) × (r ≡ ok a)) ⊎ ((e : GraphError) × (r ≡ err e))
Result-cases (ok a) = inl (a, refl)
Result-cases (err e) = inr (e, refl)

pub err-injective {ℓ} : (A : Type ℓ) {d e : GraphError} → ◌≡◌ {A = Result A} (err d) (err e) → d ≡ e
err-injective A h = cc
