-- ===== src/Criteria/Operators.antt =====
-- policies/crates/criteria_policy_base/src/operators.rs and src/validate.rs. An error holds the
-- names that its message lists.
use policies.Prelude.{
  String, List, Outcome, ok, err, is_empty, intersection, difference, is_disjoint, is_subset,
  if◌then◌else◌,
}
use policies.Criteria.Settings.{BaseSettings}

pub data CriteriaError : Type 0 where
  contains_any_of_error does_not_contain_any_of_error : List String → CriteriaError
  contains_all_of_error does_not_contain_all_of_error : List String → CriteriaError
  contains_other_than_error does_not_contain_other_than_error : List String → CriteriaError

unfoldable pub contains_any_of : List String → List String → Outcome CriteriaError (Unit {0})
contains_any_of required resource =
    if is_disjoint required resource then err (contains_any_of_error required) else ok tt

unfoldable pub does_not_contain_any_of :
    List String → List String → Outcome CriteriaError (Unit {0})
does_not_contain_any_of denied resource =
    if is_empty (intersection denied resource)
    then ok tt
    else err (does_not_contain_any_of_error (intersection denied resource))

unfoldable pub contains_all_of : List String → List String → Outcome CriteriaError (Unit {0})
contains_all_of required resource =
    if is_empty (difference required resource)
    then ok tt
    else err (contains_all_of_error (difference required resource))

unfoldable pub does_not_contain_all_of :
    List String → List String → Outcome CriteriaError (Unit {0})
does_not_contain_all_of together resource =
    if is_subset together resource then err (does_not_contain_all_of_error together) else ok tt

unfoldable pub contains_other_than : List String → List String → Outcome CriteriaError (Unit {0})
contains_other_than listed resource =
    if is_subset resource listed
    then err (contains_other_than_error (difference resource listed))
    else ok tt

unfoldable pub does_not_contain_other_than :
    List String → List String → Outcome CriteriaError (Unit {0})
does_not_contain_other_than allowed resource =
    if is_subset resource allowed
    then ok tt
    else err (does_not_contain_other_than_error (difference resource allowed))

-- `input` is collected into a set first.
unfoldable pub validate_values : BaseSettings → List String → Outcome CriteriaError (Unit {0})
unfolding contains_any_of does_not_contain_any_of contains_all_of does_not_contain_all_of
    contains_other_than does_not_contain_other_than
validate_values (BaseSettings.contains_all_of values) input = contains_all_of values input
validate_values (BaseSettings.does_not_contain_all_of values) input =
    does_not_contain_all_of values input
validate_values (BaseSettings.contains_any_of values) input = contains_any_of values input
validate_values (BaseSettings.does_not_contain_any_of values) input =
    does_not_contain_any_of values input
validate_values (BaseSettings.contains_other_than values) input = contains_other_than values input
validate_values (BaseSettings.does_not_contain_other_than values) input =
    does_not_contain_other_than values input
