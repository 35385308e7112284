-- ===== src/Imports/Registered/Schemas.antt =====
-- The init function of cdk8s/imports/schemasschemaheroio/schemasschemaheroio.go.
use learning_crossplane_e2e.Prelude.{List, [], ◌∷◌}
use learning_crossplane_e2e.Imports.Registry.{
  Registration, api_object_members, register_class, register_struct,
}

abbrev pub schemahero_schemas_init_1 : List Registration
schemahero_schemas_init_1 =
    register_class "schemasschemaheroio.Table" "Table" api_object_members "jsiiProxy_Table"
    ∷ register_struct "schemasschemaheroio.TableProps" "TableProps"
    ∷ register_struct "schemasschemaheroio.TableSpec" "TableSpec"
    ∷ register_struct "schemasschemaheroio.TableSpecSchema" "TableSpecSchema"
    ∷ register_struct "schemasschemaheroio.TableSpecSchemaCassandra" "TableSpecSchemaCassandra"
    ∷ register_struct "schemasschemaheroio.TableSpecSchemaCassandraClusteringOrder"
        "TableSpecSchemaCassandraClusteringOrder"
    ∷ register_struct "schemasschemaheroio.TableSpecSchemaCassandraColumns"
        "TableSpecSchemaCassandraColumns"
    ∷ register_struct "schemasschemaheroio.TableSpecSchemaCassandraProperties"
        "TableSpecSchemaCassandraProperties"
    ∷ register_struct "schemasschemaheroio.TableSpecSchemaCockroachdb" "TableSpecSchemaCockroachdb"
    ∷ register_struct "schemasschemaheroio.TableSpecSchemaCockroachdbColumns"
        "TableSpecSchemaCockroachdbColumns"
    ∷ register_struct "schemasschemaheroio.TableSpecSchemaCockroachdbColumnsAttributes"
        "TableSpecSchemaCockroachdbColumnsAttributes"
    ∷ register_struct "schemasschemaheroio.TableSpecSchemaCockroachdbColumnsConstraints"
        "TableSpecSchemaCockroachdbColumnsConstraints"
    ∷ register_struct "schemasschemaheroio.TableSpecSchemaCockroachdbForeignKeys"
        "TableSpecSchemaCockroachdbForeignKeys"
    ∷ register_struct "schemasschemaheroio.TableSpecSchemaCockroachdbForeignKeysReferences"
        "TableSpecSchemaCockroachdbForeignKeysReferences"
    ∷ register_struct "schemasschemaheroio.TableSpecSchemaCockroachdbIndexes"
        "TableSpecSchemaCockroachdbIndexes"
    ∷ register_struct "schemasschemaheroio.TableSpecSchemaMysql" "TableSpecSchemaMysql"
    ∷ register_struct "schemasschemaheroio.TableSpecSchemaMysqlColumns"
        "TableSpecSchemaMysqlColumns"
    ∷ register_struct "schemasschemaheroio.TableSpecSchemaMysqlColumnsAttributes"
        "TableSpecSchemaMysqlColumnsAttributes"
    ∷ register_struct "schemasschemaheroio.TableSpecSchemaMysqlColumnsConstraints"
        "TableSpecSchemaMysqlColumnsConstraints"
    ∷ register_struct "schemasschemaheroio.TableSpecSchemaMysqlForeignKeys"
        "TableSpecSchemaMysqlForeignKeys"
    ∷ register_struct "schemasschemaheroio.TableSpecSchemaMysqlForeignKeysReferences"
        "TableSpecSchemaMysqlForeignKeysReferences"
    ∷ register_struct "schemasschemaheroio.TableSpecSchemaMysqlIndexes"
        "TableSpecSchemaMysqlIndexes"
    ∷ register_struct "schemasschemaheroio.TableSpecSchemaPostgres" "TableSpecSchemaPostgres"
    ∷ register_struct "schemasschemaheroio.TableSpecSchemaPostgresColumns"
        "TableSpecSchemaPostgresColumns"
    ∷ register_struct "schemasschemaheroio.TableSpecSchemaPostgresColumnsAttributes"
        "TableSpecSchemaPostgresColumnsAttributes"
    ∷ register_struct "schemasschemaheroio.TableSpecSchemaPostgresColumnsConstraints"
        "TableSpecSchemaPostgresColumnsConstraints"
    ∷ register_struct "schemasschemaheroio.TableSpecSchemaPostgresForeignKeys"
        "TableSpecSchemaPostgresForeignKeys"
    ∷ register_struct "schemasschemaheroio.TableSpecSchemaPostgresForeignKeysReferences"
        "TableSpecSchemaPostgresForeignKeysReferences"
    ∷ register_struct "schemasschemaheroio.TableSpecSchemaPostgresIndexes"
        "TableSpecSchemaPostgresIndexes"
    ∷ register_struct "schemasschemaheroio.TableSpecSchemaSqlite" "TableSpecSchemaSqlite"
    ∷ register_struct "schemasschemaheroio.TableSpecSchemaSqliteColumns"
        "TableSpecSchemaSqliteColumns"
    ∷ register_struct "schemasschemaheroio.TableSpecSchemaSqliteColumnsAttributes"
        "TableSpecSchemaSqliteColumnsAttributes"
    ∷ register_struct "schemasschemaheroio.TableSpecSchemaSqliteColumnsConstraints"
        "TableSpecSchemaSqliteColumnsConstraints"
    ∷ []

abbrev pub schemahero_schemas_init_2 : List Registration
schemahero_schemas_init_2 =
    register_struct "schemasschemaheroio.TableSpecSchemaSqliteForeignKeys"
      "TableSpecSchemaSqliteForeignKeys"
    ∷ register_struct "schemasschemaheroio.TableSpecSchemaSqliteForeignKeysReferences"
        "TableSpecSchemaSqliteForeignKeysReferences"
    ∷ register_struct "schemasschemaheroio.TableSpecSchemaSqliteIndexes"
        "TableSpecSchemaSqliteIndexes"
    ∷ register_struct "schemasschemaheroio.TableSpecSeedData" "TableSpecSeedData"
    ∷ register_struct "schemasschemaheroio.TableSpecSeedDataRows" "TableSpecSeedDataRows"
    ∷ register_struct "schemasschemaheroio.TableSpecSeedDataRowsColumns"
        "TableSpecSeedDataRowsColumns"
    ∷ register_struct "schemasschemaheroio.TableSpecSeedDataRowsColumnsValue"
        "TableSpecSeedDataRowsColumnsValue"
    ∷ []
