-- ===== src/Criteria.antt =====
-- policies/crates/criteria_policy_base: the criteria that the policies on labels, annotations,
-- environment variables and CVE names share.
pub mod Settings
pub mod Operators
pub mod Meaning
pub mod Reports
