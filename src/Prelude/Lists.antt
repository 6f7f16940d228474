-- ===== src/Prelude/Lists.antt =====
-- Lists measured by native numbers, and predicates over lists.
use Prim.Native.Nat.{ℕ, suc, ◌+◌, ◌≤◌}
use mathlib.Core.Path.{◌≡◌, refl}
use mathlib.Core.Bool.{Bool, true, false, not, ◌&&◌, ◌||◌}
use mathlib.Core.List.{List, [], ◌∷◌, ◌++◌}
use native.Mathlib.Omega.{arith}
use mathlib.Core.Logic.{◌↔◌, inl, inr}
use policies.Prelude.Tests.{Bool-cases, if◌then◌else◌}

module _ {ℓ} {A : Type ℓ} where
  abbrev pub length : List A → ℕ
  length [] = 0
  length (x ∷ xs) = suc (length xs)

  abbrev pub all : (A → Bool) → List A → Bool
  all p [] = true
  all p (x ∷ xs) = p x && all p xs

  abbrev pub any : (A → Bool) → List A → Bool
  any p [] = false
  any p (x ∷ xs) = p x || any p xs

  -- How many elements pass the test.
  unfoldable pub count : (A → Bool) → List A → ℕ
  count p [] = 0
  count p (x ∷ xs) = let rest = count p xs in if p x then suc rest else rest

  pub count-append : (p : A → Bool) (xs ys : List A) → count p (xs ++ ys) ≡ count p xs + count p ys
  unfolding count
  count-append p [] ys = omega arith
  count-append p (x ∷ xs) ys = ground (arith, count-append p xs ys)

  pub count_le_length : (p : A → Bool) (xs : List A) → count p xs ≤ length xs
  unfolding count
  count_le_length p [] = omega arith
  count_le_length p (x ∷ xs) = ground (arith, count_le_length p xs)

  pub count_split :
      (p q r : A → Bool)
      → ((x : A) → (p x ≡ (r x && q x)))
      → (xs : List A) → count p xs + count (λ x. r x && not (q x)) xs ≡ count r xs
  unfolding count
  count_split p q r same [] = omega arith
  count_split p q r same (x ∷ xs) = ground (arith, same x, count_split p q r same xs)

  pub length-append : (xs ys : List A) → length (xs ++ ys) ≡ length xs + length ys
  length-append [] ys = omega arith
  length-append (x ∷ xs) ys = omega (arith, length-append xs ys)

module _ {ℓ κ} {A : Type ℓ} (P : A → Type κ) where
  abbrev pub All : List A → Type κ
  All [] = Unit
  All (x ∷ xs) = P x × All xs

  -- Some element has the property; the element is part of the value.
  pub data Any : List A → Type (ℓ ⊔ κ) where
    here : {x : A} {xs : List A} → P x → Any (x ∷ xs)
    there : {x : A} {xs : List A} → Any xs → Any (x ∷ xs)

-- Two lists related element by element.
pub data Each {ℓ κ} {A : Type ℓ} (R : A → A → Type κ) : List A → List A → Type (ℓ ⊔ κ) where
  done : Each R [] []
  more : {a b : A} {xs ys : List A} → R a b → Each R xs ys → Each R (a ∷ xs) (b ∷ ys)

module _ {ℓ κ} {A : Type ℓ} {R : A → A → Type κ} where
  -- What an element of the first list becomes in the second.
  pub Each-middle :
      (pre : List A) (a : A) (post ys : List A) → Each R (pre ++ (a ∷ post)) ys → Any (R a) ys
  Each-middle [] a post ys (more r rs) = here r
  Each-middle (x ∷ pre) a post ys (more r rs) = there (Each-middle pre a post _ rs)

module _ {ℓ} {A : Type ℓ} (p : A → Bool) where
  pub any-Any : (xs : List A) → any p xs ≡ true → Any (λ x. p x ≡ true) xs
  any-Any [] h = cc
  any-Any (x ∷ xs) h = elim (Bool-cases (p x)) [
    | inl first ↦ here first
    | inr other ↦ there (any-Any xs (ground arith))
  ]

  pub Any-any : (xs : List A) → Any (λ x. p x ≡ true) xs → any p xs ≡ true
  Any-any [] h = elim h [ ]
  Any-any (x ∷ xs) (here first) = ground arith
  Any-any (x ∷ xs) (there later) = ground (arith, Any-any xs later)

  pub any_iff : (xs : List A) → (any p xs ≡ true) ↔ Any (λ x. p x ≡ true) xs
  any_iff xs = (any-Any xs, Any-any xs)

  pub none_iff : (xs : List A) → (any p xs ≡ false) ↔ (¬ Any (λ x. p x ≡ true) xs)
  none_iff xs = (
    λ h a. cc (h, Any-any xs a),
    λ h. elim (Bool-cases (any p xs)) [
      | inl some_ ↦ absurd (h (any-Any xs some_))
      | inr none_ ↦ none_
    ],
  )

module _ {ℓ} {A : Type ℓ} where
  pub ++-eq-nil_iff : (xs ys : List A) → (xs ++ ys ≡ []) ↔ ((xs ≡ []) × (ys ≡ []))
  ++-eq-nil_iff [] ys = (λ h. (refl, h), λ h. h.1)
  ++-eq-nil_iff (x ∷ xs) ys = (λ h. cc, λ h. cc (h.0))

-- `flat_map`.
unfoldable pub flat_map {ℓ κ} : {A : Type ℓ} {B : Type κ} → (A → List B) → List A → List B
flat_map f [] = []
flat_map f (x ∷ xs) = f x ++ flat_map f xs

module _ {κ μ} {B : Type κ} (P : B → Type μ) where
  pub All-append : (xs ys : List B) → All P (xs ++ ys) ↔ (All P xs × All P ys)
  All-append [] ys = (λ h. (tt, h), λ h. h.1)
  All-append (x ∷ xs) ys =
      let rest = All-append xs ys in
      (λ (h, hs). let (a, b) = rest.0 hs in ((h, a), b), λ ((h, a), b). (h, rest.1 (a, b)))

module _ {ℓ κ μ} {A : Type ℓ} {B : Type κ} (P : B → Type μ) where
  pub All-flat_map :
      (f : A → List B) (xs : List A) → All P (flat_map f xs) ↔ All (λ x. All P (f x)) xs
  unfolding flat_map
  All-flat_map f [] = (λ h. tt, λ h. tt)
  All-flat_map f (x ∷ xs) =
      let rest = All-flat_map f xs in
      let here_ = All-append P (f x) (flat_map f xs) in
      (λ h. let (a, b) = here_.0 h in (a, rest.0 b), λ (a, b). here_.1 (a, rest.1 b))

module _ {ℓ κ μ} {A : Type ℓ} {P : A → Type κ} {Q : A → Type μ} where
  -- Equivalent properties of all elements.
  pub All-iff : ((x : A) → P x ↔ Q x) → (xs : List A) → All P xs ↔ All Q xs
  All-iff same [] = (λ h. tt, λ h. tt)
  All-iff same (x ∷ xs) =
      let rest = All-iff same xs in
      (λ (h, hs). ((same x).0 h, rest.0 hs), λ (h, hs). ((same x).1 h, rest.1 hs))
