-- ===== src/HighRisk.antt =====
-- policies/high-risk-service-account-policy: workloads whose service account may do too much.
pub mod Settings
pub mod Validate
