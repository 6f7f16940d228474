-- ===== src/ProjectLabels.antt =====
-- policies/rancher-project-propagate-labels: the labels of a project that its namespaces get.
pub mod Validate
