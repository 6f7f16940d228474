-- ===== src/Criteria/Meaning.antt =====
-- What each criterion means, and that the operators decide it.
use policies.Prelude.{
  ◌≡◌, ◌↔◌, String, List, [], ◌∷◌, true, false, arith, ok, panic, ◌∈◌, is_empty, intersection,
  difference, is_disjoint, is_subset,
}
use policies.Prelude.Sets.Laws.{
  is_disjoint_iff, is_subset_iff, contains-intersection, contains-difference, self_mem,
  not-is_empty,
}
use policies.Criteria.Settings.{BaseSettings}
use policies.Criteria.Operators.{validate_values}

-- The comments of the enum BaseSettings, over the names that the resource has.
abbrev pub Meets : BaseSettings → List String → Type 0
Meets (BaseSettings.contains_any_of vs) input = (a : String) × (a ∈ vs) × (a ∈ input)
Meets (BaseSettings.does_not_contain_any_of vs) input = (a : String) → a ∈ vs → ¬ (a ∈ input)
Meets (BaseSettings.contains_all_of vs) input = (a : String) → a ∈ vs → a ∈ input
Meets (BaseSettings.does_not_contain_all_of vs) input = (a : String) × (a ∈ vs) × (¬ (a ∈ input))
Meets (BaseSettings.contains_other_than vs) input = (a : String) × (a ∈ input) × (¬ (a ∈ vs))
Meets (BaseSettings.does_not_contain_other_than vs) input = (a : String) → a ∈ input → a ∈ vs

find_member : (xs : List String) → is_empty xs ≡ false → (a : String) × (a ∈ xs)
find_member [] h = cc
find_member (x ∷ xs) h = (x, self_mem x xs)

common_member :
    (xs ys : List String)
    → is_empty (intersection xs ys) ≡ false
    → (a : String) × (a ∈ xs) × (a ∈ ys)
common_member xs ys h =
    let (a, m) = find_member (intersection xs ys) h in
    (
      a,
      ground (arith, contains-intersection xs ys a),
      ground (arith, contains-intersection xs ys a),
    )

odd_member :
    (xs ys : List String)
    → is_empty (difference xs ys) ≡ false
    → (a : String) × (a ∈ xs) × (¬ (a ∈ ys))
odd_member xs ys h =
    let (a, m) = find_member (difference xs ys) h in
    (
      a,
      ground (arith, contains-difference xs ys a),
      (λ n. ground (arith, contains-difference xs ys a)),
    )

validate_values_sound :
    (s : BaseSettings) (input : List String) → validate_values s input ≡ ok tt → Meets s input
unfolding validate_values is_disjoint is_subset
validate_values_sound (BaseSettings.contains_any_of vs) input h =
    common_member vs input (ground arith)
validate_values_sound (BaseSettings.does_not_contain_any_of vs) input h =
    λ a m n. ground (arith, (is_disjoint_iff vs input).0 (ground arith) a m)
validate_values_sound (BaseSettings.contains_all_of vs) input h =
    (is_subset_iff vs input).0 (ground arith)
validate_values_sound (BaseSettings.does_not_contain_all_of vs) input h =
    odd_member vs input (ground arith)
validate_values_sound (BaseSettings.contains_other_than vs) input h =
    odd_member input vs (ground arith)
validate_values_sound (BaseSettings.does_not_contain_other_than vs) input h =
    (is_subset_iff input vs).0 (ground arith)

validate_values_complete :
    (s : BaseSettings) (input : List String) → Meets s input → validate_values s input ≡ ok tt
unfolding validate_values is_disjoint is_subset
validate_values_complete (BaseSettings.contains_any_of vs) input (a, m, n) = ground (
  arith,
  not-is_empty (intersection vs input) a (ground (arith, contains-intersection vs input a)),
)
validate_values_complete (BaseSettings.does_not_contain_any_of vs) input h =
    let empty : is_empty (intersection vs input) ≡ true =
      (is_disjoint_iff vs input).1 (λ a m. ground (arith, h a m)) in
    ground arith
validate_values_complete (BaseSettings.contains_all_of vs) input h =
    let empty : is_empty (difference vs input) ≡ true = (is_subset_iff vs input).1 h in ground arith
validate_values_complete (BaseSettings.does_not_contain_all_of vs) input (a, m, n) =
    ground
      (arith, not-is_empty (difference vs input) a (ground (arith, contains-difference vs input a)))
validate_values_complete (BaseSettings.contains_other_than vs) input (a, m, n) =
    ground
      (arith, not-is_empty (difference input vs) a (ground (arith, contains-difference input vs a)))
validate_values_complete (BaseSettings.does_not_contain_other_than vs) input h =
    let empty : is_empty (difference input vs) ≡ true = (is_subset_iff input vs).1 h in ground arith

-- A resource passes exactly when it meets the criterion of the settings, for each of the six
-- criteria as the settings describe it.
pub validate_values_iff :
    (s : BaseSettings) (input : List String) → (validate_values s input ≡ ok tt) ↔ Meets s input
validate_values_iff s input = (validate_values_sound s input, validate_values_complete s input)

pub validate_values-ne-panic :
    (s : BaseSettings) (input : List String) → ¬ (validate_values s input ≡ panic)
unfolding validate_values
validate_values-ne-panic (BaseSettings.contains_any_of vs) input h = ground arith
validate_values-ne-panic (BaseSettings.does_not_contain_any_of vs) input h = ground arith
validate_values-ne-panic (BaseSettings.contains_all_of vs) input h = ground arith
validate_values-ne-panic (BaseSettings.does_not_contain_all_of vs) input h = ground arith
validate_values-ne-panic (BaseSettings.contains_other_than vs) input h = ground arith
validate_values-ne-panic (BaseSettings.does_not_contain_other_than vs) input h = ground arith
