-- ===== src/Chart/Schema.antt =====
-- The SchemaHero resources of cdk8s/db.go: the database connection and the table.
use learning_crossplane_e2e.Prelude.{◌⊕◌, String, true, some, [], ◌∷◌, if◌then◌else◌}
use learning_crossplane_e2e.Chart.K8s.Base.{ApiObjectMetadata}
use learning_crossplane_e2e.Chart.Custom.Database.{
  DatabaseSpecConnectionPostgresHost, DatabaseSpecConnectionPostgresUser,
  DatabaseSpecConnectionPostgresPassword, DatabaseSpecConnectionPostgres, DatabaseProps,
  zero_database_spec_connection_postgres, zero_database_spec_connection, zero_database_spec,
  zero_database_spec_connection_postgres_host, zero_database_spec_connection_postgres_user,
  zero_database_spec_connection_postgres_password, zero_database_spec_connection_postgres_port,
  zero_database_spec_connection_postgres_dbname,
  zero_database_spec_connection_postgres_host_value_from,
  zero_database_spec_connection_postgres_user_value_from,
  zero_database_spec_connection_postgres_password_value_from,
}
use learning_crossplane_e2e.Chart.Custom.Table.{
  TableSpecSchemaPostgresColumns, TableProps, zero_table_spec_schema_postgres_columns,
  zero_table_spec_schema_postgres, zero_table_spec_schema, zero_table_spec,
}
use learning_crossplane_e2e.Chart.Props.{AppProps}

abbrev host_text : String → DatabaseSpecConnectionPostgresHost
host_text host = record zero_database_spec_connection_postgres_host { value = some host }

abbrev host_secret : String → DatabaseSpecConnectionPostgresHost
host_secret secret = record zero_database_spec_connection_postgres_host {
  value_from = some (record zero_database_spec_connection_postgres_host_value_from {
    secret_key_ref = some (record { key = some "endpoint"; name = some secret });
  });
}

abbrev user_text : String → DatabaseSpecConnectionPostgresUser
user_text user = record zero_database_spec_connection_postgres_user { value = some user }

abbrev user_secret : String → DatabaseSpecConnectionPostgresUser
user_secret secret = record zero_database_spec_connection_postgres_user {
  value_from = some (record zero_database_spec_connection_postgres_user_value_from {
    secret_key_ref = some (record { key = some "username"; name = some secret });
  });
}

abbrev pass_secret : String → String → DatabaseSpecConnectionPostgresPassword
pass_secret secret key = record zero_database_spec_connection_postgres_password {
  value_from = some (record zero_database_spec_connection_postgres_password_value_from {
    secret_key_ref = some (record { key = some key; name = some secret });
  });
}

-- The connection with `host`, `user`, `pass` and `dbName` as a branch of the code leaves them.
abbrev connection :
    DatabaseSpecConnectionPostgresHost
    → DatabaseSpecConnectionPostgresUser
    → DatabaseSpecConnectionPostgresPassword
    → String
    → DatabaseSpecConnectionPostgres
connection host user pass name = record zero_database_spec_connection_postgres {
  host = some host;
  user = some user;
  password = some pass;
  port = some (record zero_database_spec_connection_postgres_port { value = some "5432" });
  dbname = some (record zero_database_spec_connection_postgres_dbname { value = some name });
}

-- The if-else chain of getPostgresqlDatabase: Helm is tested before Local.
unfoldable pub database_connection : AppProps → DatabaseSpecConnectionPostgres
database_connection app =
    let id = app.db.id in
    let password = id ⊕ "-password" in
    let helm = app.name ⊕ "-postgresql" in
    let local = id ⊕ "-postgresql" in
    if app.db.enabled.helm
    then connection (host_text helm) (user_text "postgres") (pass_secret helm "postgres-password")
        app.name
    else if app.db.enabled.crossplane.local
    then connection (host_text local) (user_text "postgres") (pass_secret local "postgres-password")
        app.name
    else if app.db.enabled.crossplane.aws
    then connection (host_secret password) (user_text "masteruser")
        (pass_secret password "password") id
    else connection (host_secret id) (user_secret id) (pass_secret id "password") id

unfoldable pub get_postgresql_database : AppProps → ApiObjectMetadata → DatabaseProps
unfolding database_connection
get_postgresql_database app metadata = record {
  metadata = some metadata;
  spec = some (record zero_database_spec {
    immediate_deploy = some true;
    connection =
        some (record zero_database_spec_connection { postgres = some (database_connection app) });
  });
}

abbrev text_column : String → TableSpecSchemaPostgresColumns
text_column name = record zero_table_spec_schema_postgres_columns {
  name = some name;
  type = some "text";
  constraints = some (record { not_null = some true });
}

unfoldable pub get_postgresql_table : AppProps → ApiObjectMetadata → TableProps
get_postgresql_table app metadata = record {
  metadata = some metadata;
  spec = some (record zero_table_spec {
    database = some app.name;
    name = some "videos";
    schema = some (record zero_table_spec_schema {
      postgres = some (record zero_table_spec_schema_postgres {
        primary_key = some ("id" ∷ []);
        columns = some (text_column "id" ∷ text_column "title" ∷ []);
      });
    });
  });
}
