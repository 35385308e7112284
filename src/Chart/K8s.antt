-- ===== src/Chart/K8s.antt =====
-- The types of cdk8s/imports/k8s that the chart builds.
pub mod Base
pub mod Meta
pub mod Container
pub mod Pod
pub mod Network
