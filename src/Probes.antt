-- ===== src/Probes.antt =====
-- policies/probes-policy: the times of liveness and readiness probes.
pub mod Settings
pub mod Validate
