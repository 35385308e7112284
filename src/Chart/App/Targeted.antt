-- ===== src/Chart/App/Targeted.antt =====
-- What NewApp of cdk8s/app.go makes for SchemaHero: a database, and a table that names its database.
use learning_crossplane_e2e.Prelude.{
  String, true, Option, none, some, List, [], ◌∷◌, ◌++◌, ◌≡◌, ◌↔◌, refl, ap,
}
use learning_crossplane_e2e.Chart.Props.{AppProps}
use learning_crossplane_e2e.Chart.Custom.Database.{DatabaseProps}
use learning_crossplane_e2e.Chart.Custom.Table.{TableProps}
use learning_crossplane_e2e.Chart.Workload.{get_deployment_props, get_service_props}
use learning_crossplane_e2e.Chart.Exposure.{◌>>=◌, ingress_of}
use learning_crossplane_e2e.Chart.Schema.{get_postgresql_database, get_postgresql_table}
use learning_crossplane_e2e.Chart.App.{
  Construct, deployment, service, ingress, database, table, construct, db_constructs,
  schema_constructs, api_metadata, object_metadata, db_metadata, new_app,
}
use learning_crossplane_e2e.Chart.App.Build.{
  constructs, new_app-constructs, name_labels, certificates,
}

-- The name of the database object, and the database that the table is in.
abbrev pub database_name : DatabaseProps → Option String
database_name d = do metadata ← d.metadata; metadata.name

abbrev pub table_database : TableProps → Option String
table_database t = do spec ← t.spec; spec.database

pub record IsTargeted (id : String) (app : AppProps) (cs : List Construct) : Type 0 where
  pub d : DatabaseProps
  pub t : TableProps
  pub before : List Construct
  pub listed : cs ≡ before ++ construct "database" (database d) ∷ construct "table" (table t) ∷ []
  pub targets : (table_database t ≡ database_name d) ↔ (app.name ≡ id)

text_or_empty : Option String → String
text_or_empty none = ""
text_or_empty (some s) = s

-- The constructs before those of SchemaHero.
abbrev pub without_schema : Option String → String → AppProps → List Construct
without_schema node_id id app =
    (construct "deployment"
        (deployment (get_deployment_props app (object_metadata (some id) (name_labels node_id))))
      ∷ construct "service"
          (service (get_service_props (object_metadata (some id) (name_labels node_id))))
      ∷ construct "ingress"
          (ingress (ingress_of app (object_metadata (some id) (name_labels node_id)) id).0)
      ∷ certificates node_id id app)
    ++ db_constructs app (api_metadata (some id) (name_labels node_id))

pub ends_with : (xs ys zs last : List Construct) → zs ≡ last → xs ++ (ys ++ zs) ≡ (xs ++ ys) ++ last
ends_with [] ys zs last e = ap (λ l. ys ++ l) e
ends_with (x ∷ xs) ys zs last e = ap (λ l. x ∷ l) (ends_with xs ys zs last e)

constructs-IsTargeted :
    (node_id : Option String) (id : String) (app : AppProps)
    → app.schema_hero.enabled ≡ true
    → IsTargeted id app (constructs node_id id app)
unfolding constructs schema_constructs get_postgresql_database get_postgresql_table text_or_empty
constructs-IsTargeted node_id id app enabled = record {
  d = get_postgresql_database app (db_metadata (some id) (name_labels node_id));
  t = get_postgresql_table app (db_metadata (some id) (name_labels node_id));
  before = without_schema node_id id app;
  listed =
      ends_with (_ ∷ _ ∷ _ ∷ certificates node_id id app) (db_constructs app _) _ _
        (rw enabled refl);
  targets = (λ e. ap text_or_empty e, λ e. ap some e);
}

-- With SchemaHero, NewApp makes a database and a table at last, and the table is in that database
-- exactly where the name in the values is the id of the application.
pub new_app-IsTargeted :
    (node_id : Option String) (id : String) (app : AppProps)
    → app.schema_hero.enabled ≡ true
    → (cs : List Construct) × (new_app node_id (some id) app ≡ some cs) × IsTargeted id app cs
new_app-IsTargeted node_id id app enabled = (
  constructs node_id id app,
  new_app-constructs node_id id app,
  constructs-IsTargeted node_id id app enabled,
)
