-- ===== src/Examples/CriteriaCases.antt =====
-- policies/crates/criteria_policy_base at concrete names.
use policies.Prelude.{◌≡◌, refl, ◌↔◌, [], ◌∷◌, ok, err, ◌∈◌, difference, is_subset}
use policies.Criteria.Settings.{BaseSettings}
use policies.Criteria.Operators.{validate_values, contains_all_of_error, contains_other_than_error}
use policies.Criteria.Meaning.{Meets, validate_values_iff}
use policies.Criteria.Reports.{IsToBlame, listed-validate_values}

all_of_test :
    validate_values (BaseSettings.contains_all_of ("a" ∷ "b" ∷ [])) ("b" ∷ "c" ∷ [])
    ≡ err (contains_all_of_error ("a" ∷ []))
unfolding validate_values difference
all_of_test = refl

-- The list of the message is empty.
other_than_test :
    validate_values (BaseSettings.contains_other_than ("a" ∷ "b" ∷ [])) ("b" ∷ [])
    ≡ err (contains_other_than_error [])
unfolding validate_values difference is_subset
other_than_test = refl

validate_values_iff_example :
    (validate_values (BaseSettings.contains_any_of ("a" ∷ [])) ("b" ∷ []) ≡ ok tt)
    ↔ Meets (BaseSettings.contains_any_of ("a" ∷ [])) ("b" ∷ [])
validate_values_iff_example =
    validate_values_iff (BaseSettings.contains_any_of ("a" ∷ [])) ("b" ∷ [])

listed-validate_values_example :
    ("a" ∈ ("a" ∷ []))
    ↔ IsToBlame (BaseSettings.contains_all_of ("a" ∷ "b" ∷ [])) ("b" ∷ "c" ∷ []) "a"
listed-validate_values_example =
    listed-validate_values (BaseSettings.contains_all_of ("a" ∷ "b" ∷ [])) ("b" ∷ "c" ∷ [])
      (contains_all_of_error ("a" ∷ [])) "a" all_of_test
