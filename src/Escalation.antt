-- ===== src/Escalation.antt =====
-- policies/allow-privilege-escalation-psp-policy.
pub mod Validate
