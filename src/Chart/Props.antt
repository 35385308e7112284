-- ===== src/Chart/Props.antt =====
-- The value types of cdk8s/app.go, which app.yaml and its variants fill.
use learning_crossplane_e2e.Prelude.{String, Bool, ◌||◌}
use learning_crossplane_e2e.Chart.K8s.Base.{Float64}

pub record Image : Type 0 where
  pub repository : String
  pub tag : String

pub record Ingress : Type 0 where
  pub host : String
  pub class_name : String

pub record Tls : Type 0 where
  pub enabled : Bool

pub record DbCrossplane : Type 0 where
  pub local : Bool
  pub google : Bool
  pub aws : Bool
  pub azure : Bool

pub record DbEnabled : Type 0 where
  pub helm : Bool
  pub crossplane : DbCrossplane

pub record Db : Type 0 where
  pub id : String
  pub insecure : Bool
  pub enabled : DbEnabled
  pub size : String

pub record SchemaHero : Type 0 where
  pub enabled : Bool

pub record Otel : Type 0 where
  pub enabled : Bool
  pub jaeger_addr : String

pub record Logging : Type 0 where
  pub enabled : Bool

pub record AppProps : Type 0 where
  pub name : String
  pub image : Image
  pub replicas : Float64
  pub ingress : Ingress
  pub tls : Tls
  pub db : Db
  pub schema_hero : SchemaHero
  pub otel : Otel
  pub logging : Logging

-- The four flags behind `appProps.Db.Enabled.Crossplane`, joined.
abbrev pub any_crossplane : AppProps → Bool
any_crossplane app =
    app.db.enabled.crossplane.local || app.db.enabled.crossplane.google
    || app.db.enabled.crossplane.aws || app.db.enabled.crossplane.azure
