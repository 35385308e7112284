-- ===== src/Chart.antt =====
-- The chart program: the Go files of cdk8s.
pub mod K8s
pub mod Custom
pub mod Props
pub mod DbEnv
pub mod Workload
pub mod Exposure
pub mod DbResources
pub mod Schema
pub mod App
pub mod Providers
pub mod Agreement
pub mod Main
pub mod Bindings
pub mod Creation
pub mod Program
pub mod Tests
