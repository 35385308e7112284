-- ===== src/Chart/Custom.antt =====
-- The custom resources of cdk8s/imports that the chart builds.
pub mod Certificate
pub mod SqlClaim
pub mod ExternalSecret
pub mod Database
pub mod Table
