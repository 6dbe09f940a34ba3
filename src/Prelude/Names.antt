-- ===== src/Prelude/Names.antt =====
-- Sets of texts as lists in insertion order, and how often a text stands in a list.
use Prim.Native.Nat.{ℕ, suc, ◌+◌, ◌≤◌}
use Prim.Native.String.{String}
use mathlib.Core.Path.{◌≡◌, refl}
use mathlib.Core.Bool.{Bool, true, false, ◌||◌}
use mathlib.Core.List.{List, [], ◌∷◌, ◌++◌}
use native.Mathlib.Omega.{arith}
use text.Mathlib.Text.{◌==◌}
use text.Mathlib.TextEquality.{eq_iff}
use bumd.Prelude.Tests.{if◌then◌else◌}
use bumd.Prelude.Lists.{length}

-- `set.has(a)`, `xs.includes(a)`
abbrev pub contains : List String → String → Bool
contains [] a = false
contains (x ∷ xs) a = x == a || contains xs a

-- `set.add(a)`: a member keeps its place, and a new one stands last.
abbrev pub add : List String → String → List String
add xs a = if contains xs a then xs else xs ++ a ∷ []

-- How often `a` stands in the list.
abbrev pub count : String → List String → ℕ
count name [] = 0
count name (first ∷ others) = (if first == name then 1 else 0) + count name others

-- No text stands twice.
abbrev pub Distinct : List String → Type 0
Distinct [] = Unit
Distinct (x ∷ xs) = (contains xs x ≡ false) × Distinct xs

-- Every member of the first list is one of the second.
abbrev pub Within : List String → List String → Type 0
Within xs ys = (a : String) → contains xs a ≡ true → contains ys a ≡ true

pub eq_self : (a : String) → (a == a) ≡ true
eq_self a = (eq_iff a a).1 refl

pub contains-append :
    (xs ys : List String) (a : String) → contains (xs ++ ys) a ≡ (contains xs a || contains ys a)
contains-append [] ys a = refl
contains-append (x ∷ xs) ys a = ground (arith, contains-append xs ys a)

pub contains-add :
    (xs : List String) (a b : String) → contains (add xs a) b ≡ (a == b || contains xs b)
contains-add xs a b = ground (arith, contains-append xs (a ∷ []) b, eq_iff a b)

pub Distinct-append :
    (xs ys : List String)
    → Distinct xs
    → Distinct ys
    → ((a : String) → contains xs a ≡ true → contains ys a ≡ false)
    → Distinct (xs ++ ys)
Distinct-append [] ys hx hy apart = hy
Distinct-append (x ∷ xs) ys hx hy apart = (
  ground (arith, contains-append xs ys x, apart x, eq_self x),
  Distinct-append xs ys hx.1 hy (λ a m. apart a (ground arith)),
)

-- What distinctness of a joined list says of its parts.
pub Distinct-parts :
    (xs ys : List String)
    → Distinct (xs ++ ys)
    → Distinct xs × Distinct ys × ((a : String) → contains xs a ≡ true → contains ys a ≡ false)
Distinct-parts [] ys h = (tt, h, λ a m. absurd (cc))
Distinct-parts (x ∷ xs) ys h =
    let (left, right, apart) = Distinct-parts xs ys h.1 in
    (
      (ground (arith, contains-append xs ys x, h.0), left),
      right,
      λ a m. ground (arith, apart a, contains-append xs ys x, h.0, eq_iff x a),
    )

-- The list without the first `a`.
abbrev remove : String → List String → List String
remove a [] = []
remove a (x ∷ xs) = let rest = remove a xs in if x == a then xs else x ∷ rest

length-remove :
    (a : String) (xs : List String) → contains xs a ≡ true → length xs ≡ suc (length (remove a xs))
length-remove a [] m = ground arith
length-remove a (x ∷ xs) m = ground (arith, length-remove a xs)

contains-remove :
    (a b : String) (xs : List String)
    → contains xs b ≡ true
    → (a == b) ≡ false
    → contains (remove a xs) b ≡ true
contains-remove a b [] m ne = m
contains-remove a b (x ∷ xs) m ne =
    ground (arith, contains-remove a b xs, eq_iff x a, eq_iff x b, eq_iff a b)

-- Distinct members of a list are at most as many as its entries.
pub length-le_of_Within : (xs ys : List String) → Distinct xs → Within xs ys → length xs ≤ length ys
length-le_of_Within [] ys d w = omega arith
length-le_of_Within (x ∷ xs) ys d w =
    let here : contains ys x ≡ true = w x (ground (arith, eq_self x)) in
    omega (
      arith,
      length-remove x ys here,
      length-le_of_Within xs (remove x ys) d.1 (λ a m.
          contains-remove x a ys (w a (ground (arith, eq_iff x a)))
            (ground (arith, eq_iff x a, d.0))),
    )
