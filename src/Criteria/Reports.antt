-- ===== src/Criteria/Reports.antt =====
-- The names that a rejection lists.
use policies.Prelude.{
  ◌≡◌, ◌↔◌, String, List, false, arith, err, contains, ◌∈◌, difference, is_disjoint, is_subset,
}
use policies.Prelude.Sets.Laws.{
  contains-intersection, contains-difference, is_empty_iff, is_subset_iff,
}
use policies.Criteria.Settings.{BaseSettings}
use policies.Criteria.Operators.{
  validate_values, CriteriaError, contains_any_of_error, does_not_contain_any_of_error,
  contains_all_of_error, does_not_contain_all_of_error, contains_other_than_error,
  does_not_contain_other_than_error,
}

abbrev pub listed : CriteriaError → List String
listed (contains_any_of_error names) = names
listed (does_not_contain_any_of_error names) = names
listed (contains_all_of_error names) = names
listed (does_not_contain_all_of_error names) = names
listed (contains_other_than_error names) = names
listed (does_not_contain_other_than_error names) = names

-- The names to blame for a rejection. For "contains other than" there are none: the resource is
-- rejected because it has no further name, and the message that lists "the following" is empty.
abbrev pub IsToBlame : BaseSettings → List String → String → Type 0
IsToBlame (BaseSettings.contains_any_of vs) input a = a ∈ vs
IsToBlame (BaseSettings.does_not_contain_any_of vs) input a = (a ∈ vs) × (a ∈ input)
IsToBlame (BaseSettings.contains_all_of vs) input a = (a ∈ vs) × (contains input a ≡ false)
IsToBlame (BaseSettings.does_not_contain_all_of vs) input a = (a ∈ vs) × (a ∈ input)
IsToBlame (BaseSettings.contains_other_than vs) input a = ⊥
IsToBlame (BaseSettings.does_not_contain_other_than vs) input a =
    (a ∈ input) × (contains vs a ≡ false)

-- A rejection lists a name exactly when the name is to blame for it.
pub listed-validate_values :
    (s : BaseSettings) (input : List String) (e : CriteriaError) (a : String)
    → validate_values s input ≡ err e
    → (a ∈ listed e) ↔ IsToBlame s input a
unfolding validate_values is_disjoint is_subset
listed-validate_values (BaseSettings.contains_any_of vs) input e a h = ground arith
listed-validate_values (BaseSettings.does_not_contain_any_of vs) input e a h =
    ground (arith, contains-intersection vs input a)
listed-validate_values (BaseSettings.contains_all_of vs) input e a h =
    ground (arith, contains-difference vs input a)
listed-validate_values (BaseSettings.does_not_contain_all_of vs) input e a h = ground (
  arith,
  is_subset_iff vs input,
  contains-difference vs input a,
  (is_empty_iff (difference vs input)).0 (ground arith) a,
)
listed-validate_values (BaseSettings.contains_other_than vs) input e a h =
    ground (arith, (is_empty_iff (difference input vs)).0 (ground arith) a)
listed-validate_values (BaseSettings.does_not_contain_other_than vs) input e a h =
    ground (arith, contains-difference input vs a)
