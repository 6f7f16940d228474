-- ===== src/Selinux/Settings/Levels.antt =====
-- When two levels count as equal.
use policies.Prelude.{
  from_iter, ◌≡◌, ◌↔◌, ◌⊎◌, inl, inr, refl, String, true, false, ◌&&◌, Option, none, some, List, [],
  ◌∷◌, ok, arith, is_subset, ◌∈◌, split, eq_iff, Bool-cases,
}
use policies.Selinux.Settings.{SeLinuxLevel, level_of_parts, new, level_eq}
use policies.Prelude.Sets.Laws.{contains-from_iter, is_subset_iff, self_mem}
use policies.Prelude.Text.Split.{split-cons}

-- The sensitivity and the categories of a level: it has both if it has exactly one colon.
abbrev halves : List String → Option (String × List String)
halves (sensitivity ∷ categories ∷ []) = some (sensitivity, split b',' categories)
halves parts = none

abbrev pub parsed : String → Option (String × List String)
parsed level = halves (split b':' level)

abbrev pub SameHalves : Option (String × List String) → Option (String × List String) → Type 0
SameHalves none none = Unit
SameHalves (some a) (some b) = (a.0 ≡ b.0) × ((x : String) → (x ∈ a.1) ↔ (x ∈ b.1))
SameHalves a b = ⊥

-- Equal texts, or equal halves: two levels without halves are the same.
abbrev pub SameLevel : String → String → Type 0
SameLevel a b = (a ≡ b) ⊎ SameHalves (parsed a) (parsed b)

abbrev level_of : String → Option (String × List String) → SeLinuxLevel
level_of level none = record {
  level = level;
  sensitivity = "";
  categories = [];
  categories_hashset = [];
}
level_of level (some (sensitivity, categories)) = record {
  level = level;
  sensitivity = sensitivity;
  categories = categories;
  categories_hashset = from_iter categories;
}

level_of_parts-halves :
    (level : String) (parts : List String)
    → level_of_parts level parts ≡ ok (level_of level (halves parts))
unfolding level_of_parts
level_of_parts-halves level [] = refl
level_of_parts-halves level (s ∷ []) = refl
level_of_parts-halves level (s ∷ c ∷ []) = refl
level_of_parts-halves level (s ∷ c ∷ x ∷ parts) = refl

new-level_of : (level : String) → new level ≡ ok (level_of level (parsed level))
unfolding new
new-level_of level = level_of_parts-halves level (split b':' level)

-- Halves have at least one category.
abbrev IsFull : Option (String × List String) → Type 0
IsFull none = Unit
IsFull (some h) = (x : String) × (x ∈ h.1)

halves-IsFull : (parts : List String) → IsFull (halves parts)
halves-IsFull [] = tt
halves-IsFull (s ∷ []) = tt
halves-IsFull (s ∷ c ∷ []) = let (x, xs, e) = split-cons b',' c in (x, rw e (self_mem x xs))
halves-IsFull (s ∷ c ∷ x ∷ parts) = tt

subset_from_iter_iff :
    (xs ys : List String)
    → (is_subset (from_iter xs) (from_iter ys) ≡ true) ↔ ((x : String) → x ∈ xs → x ∈ ys)
subset_from_iter_iff xs ys = (
  λ h x m. ground (
    arith,
    contains-from_iter xs x,
    contains-from_iter ys x,
    (is_subset_iff (from_iter xs) (from_iter ys)).0 h x,
  ),
  λ h.
      (is_subset_iff (from_iter xs) (from_iter ys)).1
        (λ x m. ground (arith, contains-from_iter xs x, contains-from_iter ys x, h x)),
)

sets_eq_iff :
    (xs ys : List String)
    → ((is_subset (from_iter xs) (from_iter ys) && is_subset (from_iter ys) (from_iter xs)) ≡ true)
      ↔ ((x : String) → (x ∈ xs) ↔ (x ∈ ys))
sets_eq_iff xs ys = (
  λ h x. (
    (subset_from_iter_iff xs ys).0 (ground arith) x,
    (subset_from_iter_iff ys xs).0 (ground arith) x,
  ),
  λ h.
      let there : is_subset (from_iter xs) (from_iter ys) ≡ true =
        (subset_from_iter_iff xs ys).1 (λ x m. (h x).0 m) in
      let back : is_subset (from_iter ys) (from_iter xs) ≡ true =
        (subset_from_iter_iff ys xs).1 (λ x m. (h x).1 m) in
      ground arith,
)

not-is_subset : (xs : List String) (x : String) → x ∈ xs → is_subset (from_iter xs) [] ≡ false
not-is_subset xs x m = elim (Bool-cases (is_subset (from_iter xs) [])) [
  | inl all ↦
      cc ((is_subset_iff (from_iter xs) []).0 all x (ground (arith, contains-from_iter xs x)))
  | inr other ↦ other
]

level_eq-level_of_iff :
    (a b : String) (o p : Option (String × List String))
    → IsFull o
    → IsFull p
    → (level_eq (level_of a o) (level_of b p) ≡ true) ↔ ((a ≡ b) ⊎ SameHalves o p)
unfolding level_eq
level_eq-level_of_iff a b none none full full' =
    (λ h. inr tt, λ h. ground (arith, is_subset_iff [] []))
level_eq-level_of_iff a b none (some (t, ds)) full (x, m) =
    ground (arith, eq_iff a b, not-is_subset ds x m)
level_eq-level_of_iff a b (some (s, cs)) none (x, m) full' =
    ground (arith, eq_iff a b, not-is_subset cs x m)
level_eq-level_of_iff a b (some (s, cs)) (some (t, ds)) full full' =
    ground (arith, eq_iff a b, eq_iff s t, sets_eq_iff cs ds)

-- Two levels count as equal exactly when their texts are equal, when both have one colon, the same
-- text before it and the same categories after it, or when neither has exactly one colon.
pub new-level_eq_iff :
    (a b : String) (la lb : SeLinuxLevel)
    → new a ≡ ok la
    → new b ≡ ok lb
    → (level_eq la lb ≡ true) ↔ SameLevel a b
new-level_eq_iff a b la lb ea eb = ground (
  arith,
  new-level_of a,
  new-level_of b,
  level_eq-level_of_iff a b (parsed a) (parsed b) (halves-IsFull (split b':' a))
      (halves-IsFull (split b':' b)),
)

level_of-level : (a : String) (o : Option (String × List String)) → (level_of a o).level ≡ a
level_of-level a none = refl
level_of-level a (some h) = refl

-- A level keeps its text.
pub new-level : (a : String) (l : SeLinuxLevel) → new a ≡ ok l → l.level ≡ a
new-level a l e = ground (arith, new-level_of a, level_of-level a (parsed a))

pub new-ok : (a : String) → (l : SeLinuxLevel) × (new a ≡ ok l)
new-ok a = (level_of a (parsed a), new-level_of a)
