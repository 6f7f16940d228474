-- ===== src/Prelude/Sets/Laws.antt =====
-- The set operations by membership.
use Prim.Native.String.{String}
use mathlib.Core.Path.{◌≡◌, refl}
use mathlib.Core.Logic.{◌↔◌}
use mathlib.Core.Bool.{Bool, true, false, not, ◌&&◌, ◌||◌}
use mathlib.Core.List.{List, [], ◌∷◌, ◌++◌}
use native.Mathlib.Omega.{arith}
use text.Mathlib.Text.{◌==◌}
use policies.Prelude.Tests.{Bool-cases}
use policies.Prelude.Lists.{All}
use mathlib.Core.Logic.{inl, inr}
use text.Mathlib.TextEquality.{eq_iff}
use policies.Prelude.Sets.{
  contains, ◌∈◌, is_empty, retain, intersection, difference, is_disjoint, is_subset, from_iter,
  insert,
}

pub contains-retain :
    (p : String → Bool) (xs : List String) (a : String)
    → contains (retain p xs) a ≡ (contains xs a && p a)
unfolding retain
contains-retain p [] a = refl
contains-retain p (x ∷ xs) a = ground (arith, eq_iff a x, contains-retain p xs a)

pub contains-intersection :
    (xs ys : List String) (a : String)
    → contains (intersection xs ys) a ≡ (contains xs a && contains ys a)
unfolding intersection
contains-intersection xs ys a = contains-retain (contains ys) xs a

pub contains-difference :
    (xs ys : List String) (a : String)
    → contains (difference xs ys) a ≡ (contains xs a && not (contains ys a))
unfolding difference
contains-difference xs ys a = contains-retain (λ x. not (contains ys x)) xs a

pub contains-append :
    (xs ys : List String) (a : String) → contains (xs ++ ys) a ≡ (contains xs a || contains ys a)
contains-append [] ys a = refl
contains-append (x ∷ xs) ys a = ground (arith, contains-append xs ys a)

pub self_mem : (x : String) (xs : List String) → x ∈ (x ∷ xs)
self_mem x xs = ground (arith, eq_iff x x)

-- A list with no members is empty.
pub is_empty_iff :
    (xs : List String) → (is_empty xs ≡ true) ↔ ((a : String) → contains xs a ≡ false)
is_empty_iff [] = (λ _ a. refl, λ _. refl)
is_empty_iff (x ∷ xs) = (λ h. cc, λ h. cc (h x, self_mem x xs))

pub is_disjoint_iff :
    (xs ys : List String)
    → (is_disjoint xs ys ≡ true) ↔ ((a : String) → a ∈ xs → contains ys a ≡ false)
unfolding is_disjoint
is_disjoint_iff xs ys = (
  λ h a m. ground (arith, contains-intersection xs ys a, (is_empty_iff (intersection xs ys)).0 h a),
  λ h.
      (is_empty_iff (intersection xs ys)).1
        (λ a. ground (arith, contains-intersection xs ys a, h a)),
)

pub is_subset_iff :
    (xs ys : List String) → (is_subset xs ys ≡ true) ↔ ((a : String) → a ∈ xs → a ∈ ys)
unfolding is_subset
is_subset_iff xs ys = (
  λ h a m. ground (arith, contains-difference xs ys a, (is_empty_iff (difference xs ys)).0 h a),
  λ h. (is_empty_iff (difference xs ys)).1 (λ a. ground (arith, contains-difference xs ys a, h a)),
)

pub not-is_empty : (xs : List String) (a : String) → a ∈ xs → is_empty xs ≡ false
not-is_empty [] a m = cc
not-is_empty (x ∷ xs) a m = refl

pub contains-from_iter : (xs : List String) (x : String) → contains (from_iter xs) x ≡ contains xs x
unfolding from_iter
contains-from_iter [] x = refl
contains-from_iter (y ∷ xs) x = ground (arith, eq_iff x y, contains-from_iter xs x)

pub contains-insert :
    (a : String) (xs : List String) (x : String)
    → contains (insert a xs) x ≡ (x == a || contains xs x)
unfolding insert
contains-insert a xs x = ground (arith, eq_iff x a)

pub insert-is_empty : (a : String) (xs : List String) → is_empty (insert a xs) ≡ false
unfolding insert
insert-is_empty a [] = refl
insert-is_empty a (x ∷ xs) = ground arith

module _ {ℓ} (P : String → Type ℓ) where
  pub All-∈ : (xs : List String) → All P xs → (a : String) → a ∈ xs → P a
  All-∈ [] h a m = absurd (cc m)
  All-∈ (x ∷ xs) (h, hs) a m = elim (Bool-cases (a == x)) [
    | inl same ↦ rw ((eq_iff a x).0 same) h
    | inr other ↦ All-∈ xs hs a (ground arith)
  ]

  pub ∈-All : (xs : List String) → ((a : String) → a ∈ xs → P a) → All P xs
  ∈-All [] h = tt
  ∈-All (x ∷ xs) h = (h x (self_mem x xs), ∈-All xs (λ a m. h a (ground arith)))
