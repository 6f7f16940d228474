-- ===== src/EnvVars.antt =====
-- policies/environment-variable-policy: the names of the environment variables of containers.
pub mod Validate
