-- ===== src/Prelude/Maps.antt =====
-- `Map` with texts as keys: the entries in insertion order, as the program iterates over them.
use Prim.Native.String.{String}
use mathlib.Core.Path.{◌≡◌, refl, ◌∙◌}
use mathlib.Core.Logic.{inl, inr}
use mathlib.Core.Bool.{◌||◌}
use mathlib.Core.Option.{Option, none, some}
use mathlib.Core.List.{List, [], ◌∷◌, map}
use native.Mathlib.Omega.{arith}
use text.Mathlib.Text.{◌==◌}
use text.Mathlib.TextEquality.{eq_iff}
use bumd.Prelude.Tests.{if◌then◌else◌, Bool-cases}
use bumd.Prelude.Names.{contains, Distinct}

abbrev pub Dict {ℓ} : Type ℓ → Type ℓ
Dict V = List (String × V)

module _ {ℓ} {V : Type ℓ} where
  -- `map.get(k)`
  abbrev pub lookup : String → Dict V → Option V
  lookup k [] = none
  lookup k ((j, v) ∷ d) = let rest = lookup k d in if j == k then some v else rest

  -- `map.set(k, v)`: a present key keeps its place, and a new one stands last.
  abbrev pub insert : String → V → Dict V → Dict V
  insert k v [] = (k, v) ∷ []
  insert k v ((j, w) ∷ d) = let rest = insert k v d in if j == k then (j, v) ∷ d else (j, w) ∷ rest

  -- `new Map(entries)`: a later entry of a key overwrites the value of an earlier one.
  abbrev pub from_entries : Dict V → Dict V → Dict V
  from_entries d [] = d
  from_entries d ((k, v) ∷ rest) = from_entries (insert k v d) rest

  abbrev pub keys : Dict V → List String
  keys d = map (λ entry. entry.0) d

  abbrev pub values : Dict V → List V
  values d = map (λ entry. entry.1) d

  pub lookup-insert :
      (k j : String) (v : V) (d : Dict V)
      → lookup j (insert k v d) ≡ (if k == j then some v else lookup j d)
  lookup-insert k j v [] = refl
  lookup-insert k j v ((i, w) ∷ d) =
      ground (arith, lookup-insert k j v d, eq_iff i k, eq_iff i j, eq_iff k j)

  pub contains-keys-insert :
      (k j : String) (v : V) (d : Dict V)
      → contains (keys (insert k v d)) j ≡ (k == j || contains (keys d) j)
  contains-keys-insert k j v [] = refl
  contains-keys-insert k j v ((i, w) ∷ d) =
      ground (arith, contains-keys-insert k j v d, eq_iff i k, eq_iff i j, eq_iff k j)

  pub Distinct-keys-insert :
      (k : String) (v : V) (d : Dict V) → Distinct (keys d) → Distinct (keys (insert k v d))
  Distinct-keys-insert k v [] h = (refl, tt)
  Distinct-keys-insert k v ((i, w) ∷ d) h =
      ground
        (arith, Distinct-keys-insert k v d, contains-keys-insert k i v d, eq_iff i k, eq_iff k i)

-- The second value where the first is missing.
abbrev pub or_earlier {ℓ} : {A : Type ℓ} → Option A → Option A → Option A
or_earlier none earlier = earlier
or_earlier (some v) earlier = some v

pub or_earlier_none {ℓ} : {A : Type ℓ} (o : Option A) → or_earlier o none ≡ o
or_earlier_none none = refl
or_earlier_none (some v) = refl

-- An entry that is set before later ones stands behind them.
pub or_earlier-lookup-insert {ℓ} :
    {A : Type ℓ} (name key : String) (v : A) (o : Option A) (d : Dict A)
    → or_earlier o (lookup name (insert key v d))
      ≡ or_earlier (or_earlier o (if key == name then some v else none)) (lookup name d)
or_earlier-lookup-insert name key v none d = elim (Bool-cases (key == name)) [
  | inl same ↦ lookup-insert key name v d ∙ simp same refl
  | inr other ↦ lookup-insert key name v d ∙ simp other refl
]
or_earlier-lookup-insert name key v (some w) d = refl
