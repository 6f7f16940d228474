-- ===== src/Prelude/Sets.antt =====
-- `HashSet<String>` and `BTreeSet<String>` as the list of their elements, in an order that the
-- theorems leave open.
pub mod Laws
use Prim.Native.String.{String}
use mathlib.Core.Path.{◌≡◌}
use mathlib.Core.Bool.{Bool, true, false, not, ◌||◌}
use mathlib.Core.List.{List, [], ◌∷◌}
use text.Mathlib.Text.{◌==◌}
use policies.Prelude.Tests.{if◌then◌else◌}

abbrev pub contains : List String → String → Bool
contains [] a = false
contains (x ∷ xs) a = a == x || contains xs a

infix 50 ◌∈◌
abbrev pub ◌∈◌ : String → List String → Type 0
a ∈ xs = contains xs a ≡ true

abbrev pub is_empty {ℓ} : {A : Type ℓ} → List A → Bool
is_empty [] = true
is_empty (x ∷ xs) = false

-- The elements of `xs` that pass the test, in their order.
unfoldable pub retain {ℓ} : {A : Type ℓ} → (A → Bool) → List A → List A
retain p [] = []
retain p (x ∷ xs) = let rest = retain p xs in if p x then x ∷ rest else rest

unfoldable pub intersection : List String → List String → List String
unfolding retain
intersection xs ys = retain (contains ys) xs

unfoldable pub difference : List String → List String → List String
unfolding retain
difference xs ys = retain (λ x. not (contains ys x)) xs

unfoldable pub is_disjoint : List String → List String → Bool
unfolding intersection
is_disjoint xs ys = is_empty (intersection xs ys)

unfoldable pub is_subset : List String → List String → Bool
unfolding difference
is_subset xs ys = is_empty (difference xs ys)

-- `HashSet::from_iter`.
unfoldable pub from_iter : List String → List String
from_iter [] = []
from_iter (x ∷ xs) = let rest = from_iter xs in if contains xs x then rest else x ∷ rest

-- `insert`, of a HashSet or a BTreeSet.
unfoldable pub insert : String → List String → List String
insert x xs = if contains xs x then xs else x ∷ xs
