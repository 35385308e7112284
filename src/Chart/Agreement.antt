-- ===== src/Chart/Agreement.antt =====
-- The environment of setDbEnv against the connection of getPostgresqlDatabase, both in cdk8s/db.go.
use text.Mathlib.Text.{◌==◌ as str_eq}
use text.Mathlib.TextLemmas.{append_cancel_right}
use learning_crossplane_e2e.Prelude.{
  ◌⊕◌, String, Bool, true, false, ◌&&◌, ◌||◌, not, Option, none, some, List, [], ◌∷◌, ◌≡◌, ◌↔◌, sym,
  ap, ◌∙◌, arith, if◌then◌else◌,
}
use learning_crossplane_e2e.Chart.K8s.Container.{EnvVar}
use learning_crossplane_e2e.Chart.Custom.Database.{DatabaseSpecConnectionPostgres}
use learning_crossplane_e2e.Chart.Props.{AppProps}
use learning_crossplane_e2e.Chart.DbEnv.{db_env}
use learning_crossplane_e2e.Chart.Schema.{database_connection}

-- Where a setting comes from: a text, or the key of a secret.
pub data Source : Type 0 where
  plain : String → Source
  from_secret : Option String → Option String → Source
  unset : Source

abbrev pub env_source : EnvVar → Source
env_source v = elim v.value [
  | some s ↦ plain s
  | none ↦ elim v.value_from [
    | none ↦ unset
    | some from ↦ elim from.secret_key_ref [
      | none ↦ unset
      | some ref ↦ from_secret ref.name ref.key
    ]
  ]
]

abbrev pub has_name : String → Option String → Bool
has_name name none = false
has_name name (some s) = str_eq name s

-- The source of a variable in a list of variables.
abbrev pub env_lookup : String → List EnvVar → Source
env_lookup name [] = unset
env_lookup name (v ∷ vs) = if has_name name v.name then env_source v else env_lookup name vs

abbrev source_or : Option String → Source → Source
source_or none other = other
source_or (some s) other = plain s

text_of : Source → String
text_of (plain s) = s
text_of (from_secret name key) = ""
text_of unset = ""

plain_inj : {s t : String} → plain s ≡ plain t → s ≡ t
unfolding text_of
plain_inj h = ap text_of h

-- The settings of a connection: the text where it is given, else the secret's key.
abbrev pub host_source : DatabaseSpecConnectionPostgres → Source
host_source c = elim c.host [
  | none ↦ unset
  | some host ↦ source_or host.value (elim host.value_from [
    | none ↦ unset
    | some from ↦ elim from.secret_key_ref [
      | none ↦ unset
      | some ref ↦ from_secret ref.name ref.key
    ]
  ])
]

abbrev pub user_source : DatabaseSpecConnectionPostgres → Source
user_source c = elim c.user [
  | none ↦ unset
  | some user ↦ source_or user.value (elim user.value_from [
    | none ↦ unset
    | some from ↦ elim from.secret_key_ref [
      | none ↦ unset
      | some ref ↦ from_secret ref.name ref.key
    ]
  ])
]

abbrev pub password_source : DatabaseSpecConnectionPostgres → Source
password_source c = elim c.password [
  | none ↦ unset
  | some password ↦ source_or password.value (elim password.value_from [
    | none ↦ unset
    | some from ↦ elim from.secret_key_ref [
      | none ↦ unset
      | some ref ↦ from_secret ref.name ref.key
    ]
  ])
]

abbrev pub dbname_source : DatabaseSpecConnectionPostgres → Source
dbname_source c = elim c.dbname [ none ↦ unset | some name ↦ source_or name.value unset ]

-- The four settings that the two resources share.
pub record Agrees (c : DatabaseSpecConnectionPostgres) (env : List EnvVar) : Type 0 where
  pub host : host_source c ≡ env_lookup "DB_ENDPOINT" env
  pub user : user_source c ≡ env_lookup "DB_USER" env
  pub password : password_source c ≡ env_lookup "DB_PASS" env
  pub name : dbname_source c ≡ env_lookup "DB_NAME" env

pub db_env-Agrees :
    (app : AppProps)
    → (app.db.enabled.helm && app.db.enabled.crossplane.local) ≡ false
    → (app.db.enabled.helm
        || (app.db.enabled.crossplane.local || not app.db.enabled.crossplane.aws))
      ≡ true
    → Agrees (database_connection app) (db_env app)
unfolding database_connection db_env
db_env-Agrees app apart covered = record {
  host = ground arith;
  user = ground arith;
  password = ground arith;
  name = ground arith;
}

-- The two hosts where Helm and Local are enabled together.
two_hosts :
    (app : AppProps)
    → app.db.enabled.helm ≡ true
    → app.db.enabled.crossplane.local ≡ true
    → (host_source (database_connection app) ≡ plain (app.name ⊕ "-postgresql"))
      × (env_lookup "DB_ENDPOINT" (db_env app) ≡ plain (app.db.id ⊕ "-postgresql"))
unfolding database_connection db_env
two_hosts app helm local = (ground arith, ground arith)

-- Where Helm and Local are enabled together, NewApp deploys the Helm release, and the server and
-- SchemaHero are given the same host exactly if the database's id is the application's name.
pub db_env-helm_and_local :
    (app : AppProps)
    → app.db.enabled.helm ≡ true
    → app.db.enabled.crossplane.local ≡ true
    → (host_source (database_connection app) ≡ env_lookup "DB_ENDPOINT" (db_env app))
      ↔ (app.db.id ≡ app.name)
db_env-helm_and_local app helm local =
    let hosts = two_hosts app helm local in
    (
      (λ same.
          append_cancel_right app.db.id app.name "-postgresql"
            (plain_inj (sym hosts.1 ∙ sym same ∙ hosts.0))),
      (λ same. hosts.0 ∙ ap (λ s. plain (s ⊕ "-postgresql")) (sym same) ∙ sym hosts.1),
    )
