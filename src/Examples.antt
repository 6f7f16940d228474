-- ===== src/Examples.antt =====
-- Tests of the definitions, and the theorems at concrete inputs.
mod UserGroups
mod CapabilitySets
mod FileGroups
mod ImageSignatures
mod KnownVulnerabilities
mod CriteriaCases
mod SeccompProfiles
mod SelinuxOptions
mod Repositories
mod ProbeTimes
mod Workloads
mod ServiceAccounts
mod Names
mod Projects
mod Reports
