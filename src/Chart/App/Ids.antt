-- ===== src/Chart/App/Ids.antt =====
-- The ids of the constructs of NewApp in cdk8s/app.go; their scope demands that they differ.
use mathlib.Core.List.{map-append}
use text.Mathlib.Text.{◌==◌ as str_eq}
use learning_crossplane_e2e.Prelude.{
  String, Bool, true, false, not, ◌&&◌, Option, some, List, [], ◌∷◌, ◌++◌, ◌≡◌, refl, map, arith,
  if◌then◌else◌,
}
use learning_crossplane_e2e.Chart.K8s.Base.{ApiObjectMetadata}
use learning_crossplane_e2e.Chart.Props.{AppProps, any_crossplane}
use learning_crossplane_e2e.Chart.App.{Construct, db_constructs, schema_constructs, new_app}
use learning_crossplane_e2e.Chart.App.Build.{constructs, new_app-constructs, certificates}

abbrev pub absent : String → List String → Bool
absent x [] = true
absent x (y ∷ ys) = not (str_eq x y) && absent x ys

abbrev pub distinct : List String → Bool
distinct [] = true
distinct (x ∷ xs) = absent x xs && distinct xs

-- The ids, by the flags alone.
abbrev credential_ids : (local insecure : Bool) → List String
credential_ids local insecure =
    if local then [] else if insecure then "secret" ∷ [] else "external-secret" ∷ []

abbrev db_ids : (helm any local insecure : Bool) → List String
db_ids helm any local insecure =
    if helm
    then "postgresql" ∷ []
    else if any
    then "sqlClaim" ∷ credential_ids local insecure
    else []

abbrev all_ids : Bool → List String → Bool → List String
all_ids tls db schema =
    "deployment" ∷ "service" ∷ "ingress" ∷ (if tls then "certificate" ∷ [] else [])
    ++ (db ++ (if schema then "database" ∷ "table" ∷ [] else []))

abbrev IsDistinctWith : List String → Type 0
IsDistinctWith db = (tls schema : Bool) → distinct (all_ids tls db schema) ≡ true

none_distinct : IsDistinctWith []
none_distinct true true = refl
none_distinct true false = refl
none_distinct false true = refl
none_distinct false false = refl

helm_distinct : IsDistinctWith ("postgresql" ∷ [])
helm_distinct true true = refl
helm_distinct true false = refl
helm_distinct false true = refl
helm_distinct false false = refl

local_distinct : IsDistinctWith ("sqlClaim" ∷ [])
local_distinct true true = refl
local_distinct true false = refl
local_distinct false true = refl
local_distinct false false = refl

secret_distinct : IsDistinctWith ("sqlClaim" ∷ "secret" ∷ [])
secret_distinct true true = refl
secret_distinct true false = refl
secret_distinct false true = refl
secret_distinct false false = refl

external_distinct : IsDistinctWith ("sqlClaim" ∷ "external-secret" ∷ [])
external_distinct true true = refl
external_distinct true false = refl
external_distinct false true = refl
external_distinct false false = refl

db_ids_distinct : (helm any local insecure : Bool) → IsDistinctWith (db_ids helm any local insecure)
db_ids_distinct true any local insecure = helm_distinct
db_ids_distinct false false local insecure = none_distinct
db_ids_distinct false true true insecure = local_distinct
db_ids_distinct false true false true = secret_distinct
db_ids_distinct false true false false = external_distinct

abbrev pub ids : List Construct → List String
ids = map (λ c. c.id)

map_if {ℓ κ} :
    {A : Type ℓ} {B : Type κ} (f : A → B) (b : Bool) (xs ys : List A)
    → map f (if b then xs else ys) ≡ (if b then map f xs else map f ys)
map_if f true xs ys = refl
map_if f false xs ys = refl

ids-db_constructs :
    (app : AppProps) (metadata : ApiObjectMetadata)
    → ids (db_constructs app metadata)
      ≡ db_ids app.db.enabled.helm
          (any_crossplane app)
          app.db.enabled.crossplane.local
          app.db.insecure
unfolding db_constructs
ids-db_constructs app metadata = ground arith

ids-certificates :
    (node_id : Option String) (id : String) (app : AppProps)
    → ids (certificates node_id id app) ≡ (if app.tls.enabled then "certificate" ∷ [] else [])
unfolding certificates
ids-certificates node_id id app = map_if (λ c. c.id) app.tls.enabled _ _

ids-schema_constructs :
    (app : AppProps) (metadata : ApiObjectMetadata)
    → ids (schema_constructs app metadata)
      ≡ (if app.schema_hero.enabled then "database" ∷ "table" ∷ [] else [])
unfolding schema_constructs
ids-schema_constructs app metadata = map_if (λ c. c.id) app.schema_hero.enabled _ _

constructs_ids :
    (node_id : Option String) (id : String) (app : AppProps)
    → ids (constructs node_id id app)
      ≡ all_ids app.tls.enabled
          (db_ids app.db.enabled.helm
            (any_crossplane app)
            app.db.enabled.crossplane.local
            app.db.insecure)
          app.schema_hero.enabled
unfolding constructs
constructs_ids node_id id app = rw (
  map-append,
  ids-certificates node_id id app,
  map-append,
  ids-db_constructs app,
  ids-schema_constructs app,
)

-- No two constructs that NewApp creates in its scope have the same id, whatever the values.
pub new_app-ids-distinct :
    (node_id : Option String) (id : String) (app : AppProps) (cs : List Construct)
    → new_app node_id (some id) app ≡ some cs
    → distinct (ids cs) ≡ true
new_app-ids-distinct node_id id app cs e =
    let same : constructs node_id id app ≡ cs = cc (new_app-constructs node_id id app) in
    rw (← same, constructs_ids) (db_ids_distinct _ _ _ _ _ _)
