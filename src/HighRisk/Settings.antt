-- ===== src/HighRisk/Settings.antt =====
-- policies/high-risk-service-account-policy/src/settings.rs.
use policies.Prelude.{
  String, ◌||◌, Option, some, List, [], ◌∷◌, map, flat_map, Outcome, ok, err, ◌>>◌, is_empty,
  if◌then◌else◌,
}

pub data Verbs : Type 0 where
  all create delete get list proxy update watch patch delete_collection : Verbs

-- `Display`.
unfoldable pub print_verb : Verbs → String
print_verb create = "create"
print_verb update = "update"
print_verb delete = "delete"
print_verb get = "get"
print_verb list = "list"
print_verb watch = "watch"
print_verb proxy = "proxy"
print_verb all = "*"
print_verb patch = "patch"
print_verb delete_collection = "deletecollection"

pub record Rule : Type 0 where
  pub namespace : Option String
  pub api_groups : List String
  pub resources : List String
  pub verbs : List Verbs

pub record Settings : Type 0 where
  pub block_rules : List Rule

-- `ResourceAttributes` of the SDK, with the fields that are set.
pub record ResourceAttributes : Type 0 where
  pub namespace : Option String
  pub verb : String
  pub group : Option String
  pub resource : String

abbrev pub attributes : Rule → String → String → Verbs → ResourceAttributes
attributes rule api_group resource verb = record {
  namespace = rule.namespace;
  verb = print_verb verb;
  group = some api_group;
  resource = resource;
}

unfoldable pub resource_attributes : Rule → List ResourceAttributes
resource_attributes rule =
    flat_map
      (λ api_group.
        flat_map (λ resource. map (λ verb. attributes rule api_group resource verb) rule.verbs)
          rule.resources)
      rule.api_groups

pub data SettingsError : Type 0 where
  no_block_rules incomplete_rule : SettingsError

validate_rule : Rule → Outcome SettingsError (Unit {0})
validate_rule rule =
    if is_empty rule.api_groups || (is_empty rule.resources || is_empty rule.verbs)
    then err incomplete_rule
    else ok tt

validate_rules : List Rule → Outcome SettingsError (Unit {0})
unfolding validate_rule
validate_rules [] = ok tt
validate_rules (rule ∷ rules) = validate_rule rule >> validate_rules rules

unfoldable pub validate : Settings → Outcome SettingsError (Unit {0})
unfolding validate_rules
validate s = if is_empty s.block_rules then err no_block_rules else validate_rules s.block_rules
