-- ===== src/PriorityClass.antt =====
-- policies/priority-class-policy.
pub mod Validate
