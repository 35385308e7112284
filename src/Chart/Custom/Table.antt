-- ===== src/Chart/Custom/Table.antt =====
-- Tables of SchemaHero. The structs as the generated Go declares
-- them, each with its zero value and with the test that its required fields are set, in every
-- struct below it too.
use learning_crossplane_e2e.Prelude.{Bool, List, Option, String, none, true, ◌&&◌}
use learning_crossplane_e2e.Chart.K8s.Base.{ApiObjectMetadata, NeverBuilt, each, each_of, is_set}

pub record TableSpecSchemaPostgresColumnsConstraints : Type 0 where
  pub not_null : Option Bool

abbrev pub zero_table_spec_schema_postgres_columns_constraints :
    TableSpecSchemaPostgresColumnsConstraints
zero_table_spec_schema_postgres_columns_constraints = record { not_null = none }

abbrev pub table_spec_schema_postgres_columns_constraints_complete :
    TableSpecSchemaPostgresColumnsConstraints → Bool
table_spec_schema_postgres_columns_constraints_complete x = true

pub record TableSpecSchemaPostgresColumns : Type 0 where
  pub name : Option String
  pub type : Option String
  pub attributes : Option NeverBuilt
  pub constraints : Option TableSpecSchemaPostgresColumnsConstraints
  pub default : Option String

abbrev pub zero_table_spec_schema_postgres_columns : TableSpecSchemaPostgresColumns
zero_table_spec_schema_postgres_columns = record {
  name = none;
  type = none;
  attributes = none;
  constraints = none;
  default = none;
}

abbrev pub table_spec_schema_postgres_columns_complete : TableSpecSchemaPostgresColumns → Bool
table_spec_schema_postgres_columns_complete x =
    is_set x.name
    && is_set x.type
    && each table_spec_schema_postgres_columns_constraints_complete x.constraints

pub record TableSpecSchemaPostgres : Type 0 where
  pub columns : Option (List TableSpecSchemaPostgresColumns)
  pub foreign_keys : Option NeverBuilt
  pub indexes : Option NeverBuilt
  pub is_deleted : Option Bool
  pub primary_key : Option (List String)

abbrev pub zero_table_spec_schema_postgres : TableSpecSchemaPostgres
zero_table_spec_schema_postgres = record {
  columns = none;
  foreign_keys = none;
  indexes = none;
  is_deleted = none;
  primary_key = none;
}

abbrev pub table_spec_schema_postgres_complete : TableSpecSchemaPostgres → Bool
table_spec_schema_postgres_complete x =
    each_of table_spec_schema_postgres_columns_complete x.columns

pub record TableSpecSchema : Type 0 where
  pub cassandra : Option NeverBuilt
  pub cockroachdb : Option NeverBuilt
  pub mysql : Option NeverBuilt
  pub postgres : Option TableSpecSchemaPostgres
  pub sqlite : Option NeverBuilt

abbrev pub zero_table_spec_schema : TableSpecSchema
zero_table_spec_schema = record {
  cassandra = none;
  cockroachdb = none;
  mysql = none;
  postgres = none;
  sqlite = none;
}

abbrev pub table_spec_schema_complete : TableSpecSchema → Bool
table_spec_schema_complete x = each table_spec_schema_postgres_complete x.postgres

pub record TableSpec : Type 0 where
  pub database : Option String
  pub name : Option String
  pub requires : Option (List String)
  pub schema : Option TableSpecSchema
  pub seed_data : Option NeverBuilt

abbrev pub zero_table_spec : TableSpec
zero_table_spec = record {
  database = none;
  name = none;
  requires = none;
  schema = none;
  seed_data = none;
}

abbrev pub table_spec_complete : TableSpec → Bool
table_spec_complete x =
    is_set x.database && is_set x.name && each table_spec_schema_complete x.schema

pub record TableProps : Type 0 where
  pub metadata : Option ApiObjectMetadata
  pub spec : Option TableSpec

abbrev pub zero_table_props : TableProps
zero_table_props = record { metadata = none; spec = none }

abbrev pub table_props_complete : TableProps → Bool
table_props_complete x = each table_spec_complete x.spec
