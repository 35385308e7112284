-- ===== src/Imports.antt =====
-- The packages under cdk8s/imports that `cdk8s import` generated, one for the Kubernetes API and one
-- for each custom resource: their classes, with the calls of the jsii kernel that each method makes,
-- and what their init functions register.
pub mod Template
pub mod Initialize
pub mod Registry
pub mod Registered
pub mod K8s
pub mod Custom
pub mod Packages
pub mod Guards
pub mod Tests
