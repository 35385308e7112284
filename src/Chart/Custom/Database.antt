-- ===== src/Chart/Custom/Database.antt =====
-- Databases of SchemaHero. The structs as the generated Go declares
-- them, each with its zero value and with the test that its required fields are set, in every
-- struct below it too.
use learning_crossplane_e2e.Prelude.{Bool, Option, String, none, true, ◌&&◌}
use learning_crossplane_e2e.Chart.K8s.Base.{ApiObjectMetadata, NeverBuilt, each, is_set}

pub record DatabaseSpecConnectionPostgresHostValueFromSecretKeyRef : Type 0 where
  pub key : Option String
  pub name : Option String

abbrev pub zero_database_spec_connection_postgres_host_value_from_secret_key_ref :
    DatabaseSpecConnectionPostgresHostValueFromSecretKeyRef
zero_database_spec_connection_postgres_host_value_from_secret_key_ref = record {
  key = none;
  name = none;
}

abbrev pub database_spec_connection_postgres_host_value_from_secret_key_ref_complete :
    DatabaseSpecConnectionPostgresHostValueFromSecretKeyRef → Bool
database_spec_connection_postgres_host_value_from_secret_key_ref_complete x =
    is_set x.key && is_set x.name

pub record DatabaseSpecConnectionPostgresHostValueFrom : Type 0 where
  pub secret_key_ref : Option DatabaseSpecConnectionPostgresHostValueFromSecretKeyRef
  pub ssm : Option NeverBuilt
  pub vault : Option NeverBuilt

abbrev pub zero_database_spec_connection_postgres_host_value_from :
    DatabaseSpecConnectionPostgresHostValueFrom
zero_database_spec_connection_postgres_host_value_from = record {
  secret_key_ref = none;
  ssm = none;
  vault = none;
}

abbrev pub database_spec_connection_postgres_host_value_from_complete :
    DatabaseSpecConnectionPostgresHostValueFrom → Bool
database_spec_connection_postgres_host_value_from_complete x =
    each database_spec_connection_postgres_host_value_from_secret_key_ref_complete x.secret_key_ref

pub record DatabaseSpecConnectionPostgresHost : Type 0 where
  pub value : Option String
  pub value_from : Option DatabaseSpecConnectionPostgresHostValueFrom

abbrev pub zero_database_spec_connection_postgres_host : DatabaseSpecConnectionPostgresHost
zero_database_spec_connection_postgres_host = record { value = none; value_from = none }

abbrev pub database_spec_connection_postgres_host_complete :
    DatabaseSpecConnectionPostgresHost → Bool
database_spec_connection_postgres_host_complete x =
    each database_spec_connection_postgres_host_value_from_complete x.value_from

pub record DatabaseSpecConnectionPostgresUserValueFromSecretKeyRef : Type 0 where
  pub key : Option String
  pub name : Option String

abbrev pub zero_database_spec_connection_postgres_user_value_from_secret_key_ref :
    DatabaseSpecConnectionPostgresUserValueFromSecretKeyRef
zero_database_spec_connection_postgres_user_value_from_secret_key_ref = record {
  key = none;
  name = none;
}

abbrev pub database_spec_connection_postgres_user_value_from_secret_key_ref_complete :
    DatabaseSpecConnectionPostgresUserValueFromSecretKeyRef → Bool
database_spec_connection_postgres_user_value_from_secret_key_ref_complete x =
    is_set x.key && is_set x.name

pub record DatabaseSpecConnectionPostgresUserValueFrom : Type 0 where
  pub secret_key_ref : Option DatabaseSpecConnectionPostgresUserValueFromSecretKeyRef
  pub ssm : Option NeverBuilt
  pub vault : Option NeverBuilt

abbrev pub zero_database_spec_connection_postgres_user_value_from :
    DatabaseSpecConnectionPostgresUserValueFrom
zero_database_spec_connection_postgres_user_value_from = record {
  secret_key_ref = none;
  ssm = none;
  vault = none;
}

abbrev pub database_spec_connection_postgres_user_value_from_complete :
    DatabaseSpecConnectionPostgresUserValueFrom → Bool
database_spec_connection_postgres_user_value_from_complete x =
    each database_spec_connection_postgres_user_value_from_secret_key_ref_complete x.secret_key_ref

pub record DatabaseSpecConnectionPostgresUser : Type 0 where
  pub value : Option String
  pub value_from : Option DatabaseSpecConnectionPostgresUserValueFrom

abbrev pub zero_database_spec_connection_postgres_user : DatabaseSpecConnectionPostgresUser
zero_database_spec_connection_postgres_user = record { value = none; value_from = none }

abbrev pub database_spec_connection_postgres_user_complete :
    DatabaseSpecConnectionPostgresUser → Bool
database_spec_connection_postgres_user_complete x =
    each database_spec_connection_postgres_user_value_from_complete x.value_from

pub record DatabaseSpecConnectionPostgresPasswordValueFromSecretKeyRef : Type 0 where
  pub key : Option String
  pub name : Option String

abbrev pub zero_database_spec_connection_postgres_password_value_from_secret_key_ref :
    DatabaseSpecConnectionPostgresPasswordValueFromSecretKeyRef
zero_database_spec_connection_postgres_password_value_from_secret_key_ref = record {
  key = none;
  name = none;
}

abbrev pub database_spec_connection_postgres_password_value_from_secret_key_ref_complete :
    DatabaseSpecConnectionPostgresPasswordValueFromSecretKeyRef → Bool
database_spec_connection_postgres_password_value_from_secret_key_ref_complete x =
    is_set x.key && is_set x.name

pub record DatabaseSpecConnectionPostgresPasswordValueFrom : Type 0 where
  pub secret_key_ref : Option DatabaseSpecConnectionPostgresPasswordValueFromSecretKeyRef
  pub ssm : Option NeverBuilt
  pub vault : Option NeverBuilt

abbrev pub zero_database_spec_connection_postgres_password_value_from :
    DatabaseSpecConnectionPostgresPasswordValueFrom
zero_database_spec_connection_postgres_password_value_from = record {
  secret_key_ref = none;
  ssm = none;
  vault = none;
}

abbrev pub database_spec_connection_postgres_password_value_from_complete :
    DatabaseSpecConnectionPostgresPasswordValueFrom → Bool
database_spec_connection_postgres_password_value_from_complete x =
    each database_spec_connection_postgres_password_value_from_secret_key_ref_complete
      x.secret_key_ref

pub record DatabaseSpecConnectionPostgresPassword : Type 0 where
  pub value : Option String
  pub value_from : Option DatabaseSpecConnectionPostgresPasswordValueFrom

abbrev pub zero_database_spec_connection_postgres_password : DatabaseSpecConnectionPostgresPassword
zero_database_spec_connection_postgres_password = record { value = none; value_from = none }

abbrev pub database_spec_connection_postgres_password_complete :
    DatabaseSpecConnectionPostgresPassword → Bool
database_spec_connection_postgres_password_complete x =
    each database_spec_connection_postgres_password_value_from_complete x.value_from

pub record DatabaseSpecConnectionPostgresPort : Type 0 where
  pub value : Option String
  pub value_from : Option NeverBuilt

abbrev pub zero_database_spec_connection_postgres_port : DatabaseSpecConnectionPostgresPort
zero_database_spec_connection_postgres_port = record { value = none; value_from = none }

abbrev pub database_spec_connection_postgres_port_complete :
    DatabaseSpecConnectionPostgresPort → Bool
database_spec_connection_postgres_port_complete x = true

pub record DatabaseSpecConnectionPostgresDbname : Type 0 where
  pub value : Option String
  pub value_from : Option NeverBuilt

abbrev pub zero_database_spec_connection_postgres_dbname : DatabaseSpecConnectionPostgresDbname
zero_database_spec_connection_postgres_dbname = record { value = none; value_from = none }

abbrev pub database_spec_connection_postgres_dbname_complete :
    DatabaseSpecConnectionPostgresDbname → Bool
database_spec_connection_postgres_dbname_complete x = true

pub record DatabaseSpecConnectionPostgres : Type 0 where
  pub dbname : Option DatabaseSpecConnectionPostgresDbname
  pub host : Option DatabaseSpecConnectionPostgresHost
  pub password : Option DatabaseSpecConnectionPostgresPassword
  pub port : Option DatabaseSpecConnectionPostgresPort
  pub schema : Option NeverBuilt
  pub sslmode : Option NeverBuilt
  pub uri : Option NeverBuilt
  pub user : Option DatabaseSpecConnectionPostgresUser

abbrev pub zero_database_spec_connection_postgres : DatabaseSpecConnectionPostgres
zero_database_spec_connection_postgres = record {
  dbname = none;
  host = none;
  password = none;
  port = none;
  schema = none;
  sslmode = none;
  uri = none;
  user = none;
}

abbrev pub database_spec_connection_postgres_complete : DatabaseSpecConnectionPostgres → Bool
database_spec_connection_postgres_complete x =
    each database_spec_connection_postgres_dbname_complete x.dbname
    && each database_spec_connection_postgres_host_complete x.host
    && each database_spec_connection_postgres_password_complete x.password
    && each database_spec_connection_postgres_port_complete x.port
    && each database_spec_connection_postgres_user_complete x.user

pub record DatabaseSpecConnection : Type 0 where
  pub cassandra : Option NeverBuilt
  pub cockroachdb : Option NeverBuilt
  pub mysql : Option NeverBuilt
  pub postgres : Option DatabaseSpecConnectionPostgres
  pub sqlite : Option NeverBuilt

abbrev pub zero_database_spec_connection : DatabaseSpecConnection
zero_database_spec_connection = record {
  cassandra = none;
  cockroachdb = none;
  mysql = none;
  postgres = none;
  sqlite = none;
}

abbrev pub database_spec_connection_complete : DatabaseSpecConnection → Bool
database_spec_connection_complete x = each database_spec_connection_postgres_complete x.postgres

pub record DatabaseSpec : Type 0 where
  pub connection : Option DatabaseSpecConnection
  pub deploy_seed_data : Option Bool
  pub enable_shell_command : Option Bool
  pub immediate_deploy : Option Bool
  pub schemahero : Option NeverBuilt
  pub template : Option NeverBuilt

abbrev pub zero_database_spec : DatabaseSpec
zero_database_spec = record {
  connection = none;
  deploy_seed_data = none;
  enable_shell_command = none;
  immediate_deploy = none;
  schemahero = none;
  template = none;
}

abbrev pub database_spec_complete : DatabaseSpec → Bool
database_spec_complete x = each database_spec_connection_complete x.connection

pub record DatabaseProps : Type 0 where
  pub spec : Option DatabaseSpec
  pub metadata : Option ApiObjectMetadata

abbrev pub zero_database_props : DatabaseProps
zero_database_props = record { spec = none; metadata = none }

abbrev pub database_props_complete : DatabaseProps → Bool
database_props_complete x = is_set x.spec && each database_spec_complete x.spec
