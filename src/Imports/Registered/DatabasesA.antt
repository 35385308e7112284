-- ===== src/Imports/Registered/DatabasesA.antt =====
-- The init function of cdk8s/imports/databasesschemaheroio/databasesschemaheroio.go, from Database
-- to DatabaseSpecConnectionCockroachdbPasswordValueFromSsmSecretAccessKeyValueFrom.
use learning_crossplane_e2e.Prelude.{List, [], ◌∷◌}
use learning_crossplane_e2e.Imports.Registry.{
  Registration, api_object_members, register_class, register_struct,
}

abbrev pub schemahero_databases_init_1 : List Registration
schemahero_databases_init_1 =
    register_class "databasesschemaheroio.Database" "Database" api_object_members
      "jsiiProxy_Database"
    ∷ register_struct "databasesschemaheroio.DatabaseProps" "DatabaseProps"
    ∷ register_struct "databasesschemaheroio.DatabaseSpec" "DatabaseSpec"
    ∷ register_struct "databasesschemaheroio.DatabaseSpecConnection" "DatabaseSpecConnection"
    ∷ register_struct "databasesschemaheroio.DatabaseSpecConnectionCassandra"
        "DatabaseSpecConnectionCassandra"
    ∷ register_struct "databasesschemaheroio.DatabaseSpecConnectionCassandraKeyspace"
        "DatabaseSpecConnectionCassandraKeyspace"
    ∷ register_struct "databasesschemaheroio.DatabaseSpecConnectionCassandraKeyspaceValueFrom"
        "DatabaseSpecConnectionCassandraKeyspaceValueFrom"
    ∷ register_struct
        "databasesschemaheroio.DatabaseSpecConnectionCassandraKeyspaceValueFromSecretKeyRef"
        "DatabaseSpecConnectionCassandraKeyspaceValueFromSecretKeyRef"
    ∷ register_struct "databasesschemaheroio.DatabaseSpecConnectionCassandraKeyspaceValueFromSsm"
        "DatabaseSpecConnectionCassandraKeyspaceValueFromSsm"
    ∷ register_struct
        "databasesschemaheroio.DatabaseSpecConnectionCassandraKeyspaceValueFromSsmAccessKeyId"
        "DatabaseSpecConnectionCassandraKeyspaceValueFromSsmAccessKeyId"
    ∷ register_struct
        "databasesschemaheroio.DatabaseSpecConnectionCassandraKeyspaceValueFromSsmAccessKeyIdValueFrom"
        "DatabaseSpecConnectionCassandraKeyspaceValueFromSsmAccessKeyIdValueFrom"
    ∷ register_struct
        "databasesschemaheroio.DatabaseSpecConnectionCassandraKeyspaceValueFromSsmAccessKeyIdValueFromSecretKeyRef"
        "DatabaseSpecConnectionCassandraKeyspaceValueFromSsmAccessKeyIdValueFromSecretKeyRef"
    ∷ register_struct
        "databasesschemaheroio.DatabaseSpecConnectionCassandraKeyspaceValueFromSsmSecretAccessKey"
        "DatabaseSpecConnectionCassandraKeyspaceValueFromSsmSecretAccessKey"
    ∷ register_struct
        "databasesschemaheroio.DatabaseSpecConnectionCassandraKeyspaceValueFromSsmSecretAccessKeyValueFrom"
        "DatabaseSpecConnectionCassandraKeyspaceValueFromSsmSecretAccessKeyValueFrom"
    ∷ register_struct
        "databasesschemaheroio.DatabaseSpecConnectionCassandraKeyspaceValueFromSsmSecretAccessKeyValueFromSecretKeyRef"
        "DatabaseSpecConnectionCassandraKeyspaceValueFromSsmSecretAccessKeyValueFromSecretKeyRef"
    ∷ register_struct "databasesschemaheroio.DatabaseSpecConnectionCassandraKeyspaceValueFromVault"
        "DatabaseSpecConnectionCassandraKeyspaceValueFromVault"
    ∷ register_struct "databasesschemaheroio.DatabaseSpecConnectionCassandraPassword"
        "DatabaseSpecConnectionCassandraPassword"
    ∷ register_struct "databasesschemaheroio.DatabaseSpecConnectionCassandraPasswordValueFrom"
        "DatabaseSpecConnectionCassandraPasswordValueFrom"
    ∷ register_struct
        "databasesschemaheroio.DatabaseSpecConnectionCassandraPasswordValueFromSecretKeyRef"
        "DatabaseSpecConnectionCassandraPasswordValueFromSecretKeyRef"
    ∷ register_struct "databasesschemaheroio.DatabaseSpecConnectionCassandraPasswordValueFromSsm"
        "DatabaseSpecConnectionCassandraPasswordValueFromSsm"
    ∷ register_struct
        "databasesschemaheroio.DatabaseSpecConnectionCassandraPasswordValueFromSsmAccessKeyId"
        "DatabaseSpecConnectionCassandraPasswordValueFromSsmAccessKeyId"
    ∷ register_struct
        "databasesschemaheroio.DatabaseSpecConnectionCassandraPasswordValueFromSsmAccessKeyIdValueFrom"
        "DatabaseSpecConnectionCassandraPasswordValueFromSsmAccessKeyIdValueFrom"
    ∷ register_struct
        "databasesschemaheroio.DatabaseSpecConnectionCassandraPasswordValueFromSsmAccessKeyIdValueFromSecretKeyRef"
        "DatabaseSpecConnectionCassandraPasswordValueFromSsmAccessKeyIdValueFromSecretKeyRef"
    ∷ register_struct
        "databasesschemaheroio.DatabaseSpecConnectionCassandraPasswordValueFromSsmSecretAccessKey"
        "DatabaseSpecConnectionCassandraPasswordValueFromSsmSecretAccessKey"
    ∷ register_struct
        "databasesschemaheroio.DatabaseSpecConnectionCassandraPasswordValueFromSsmSecretAccessKeyValueFrom"
        "DatabaseSpecConnectionCassandraPasswordValueFromSsmSecretAccessKeyValueFrom"
    ∷ register_struct
        "databasesschemaheroio.DatabaseSpecConnectionCassandraPasswordValueFromSsmSecretAccessKeyValueFromSecretKeyRef"
        "DatabaseSpecConnectionCassandraPasswordValueFromSsmSecretAccessKeyValueFromSecretKeyRef"
    ∷ register_struct "databasesschemaheroio.DatabaseSpecConnectionCassandraPasswordValueFromVault"
        "DatabaseSpecConnectionCassandraPasswordValueFromVault"
    ∷ register_struct "databasesschemaheroio.DatabaseSpecConnectionCassandraUsername"
        "DatabaseSpecConnectionCassandraUsername"
    ∷ register_struct "databasesschemaheroio.DatabaseSpecConnectionCassandraUsernameValueFrom"
        "DatabaseSpecConnectionCassandraUsernameValueFrom"
    ∷ register_struct
        "databasesschemaheroio.DatabaseSpecConnectionCassandraUsernameValueFromSecretKeyRef"
        "DatabaseSpecConnectionCassandraUsernameValueFromSecretKeyRef"
    ∷ register_struct "databasesschemaheroio.DatabaseSpecConnectionCassandraUsernameValueFromSsm"
        "DatabaseSpecConnectionCassandraUsernameValueFromSsm"
    ∷ register_struct
        "databasesschemaheroio.DatabaseSpecConnectionCassandraUsernameValueFromSsmAccessKeyId"
        "DatabaseSpecConnectionCassandraUsernameValueFromSsmAccessKeyId"
    ∷ register_struct
        "databasesschemaheroio.DatabaseSpecConnectionCassandraUsernameValueFromSsmAccessKeyIdValueFrom"
        "DatabaseSpecConnectionCassandraUsernameValueFromSsmAccessKeyIdValueFrom"
    ∷ []

abbrev pub schemahero_databases_init_2 : List Registration
schemahero_databases_init_2 =
    register_struct
      "databasesschemaheroio.DatabaseSpecConnectionCassandraUsernameValueFromSsmAccessKeyIdValueFromSecretKeyRef"
      "DatabaseSpecConnectionCassandraUsernameValueFromSsmAccessKeyIdValueFromSecretKeyRef"
    ∷ register_struct
        "databasesschemaheroio.DatabaseSpecConnectionCassandraUsernameValueFromSsmSecretAccessKey"
        "DatabaseSpecConnectionCassandraUsernameValueFromSsmSecretAccessKey"
    ∷ register_struct
        "databasesschemaheroio.DatabaseSpecConnectionCassandraUsernameValueFromSsmSecretAccessKeyValueFrom"
        "DatabaseSpecConnectionCassandraUsernameValueFromSsmSecretAccessKeyValueFrom"
    ∷ register_struct
        "databasesschemaheroio.DatabaseSpecConnectionCassandraUsernameValueFromSsmSecretAccessKeyValueFromSecretKeyRef"
        "DatabaseSpecConnectionCassandraUsernameValueFromSsmSecretAccessKeyValueFromSecretKeyRef"
    ∷ register_struct "databasesschemaheroio.DatabaseSpecConnectionCassandraUsernameValueFromVault"
        "DatabaseSpecConnectionCassandraUsernameValueFromVault"
    ∷ register_struct "databasesschemaheroio.DatabaseSpecConnectionCockroachdb"
        "DatabaseSpecConnectionCockroachdb"
    ∷ register_struct "databasesschemaheroio.DatabaseSpecConnectionCockroachdbDbname"
        "DatabaseSpecConnectionCockroachdbDbname"
    ∷ register_struct "databasesschemaheroio.DatabaseSpecConnectionCockroachdbDbnameValueFrom"
        "DatabaseSpecConnectionCockroachdbDbnameValueFrom"
    ∷ register_struct
        "databasesschemaheroio.DatabaseSpecConnectionCockroachdbDbnameValueFromSecretKeyRef"
        "DatabaseSpecConnectionCockroachdbDbnameValueFromSecretKeyRef"
    ∷ register_struct "databasesschemaheroio.DatabaseSpecConnectionCockroachdbDbnameValueFromSsm"
        "DatabaseSpecConnectionCockroachdbDbnameValueFromSsm"
    ∷ register_struct
        "databasesschemaheroio.DatabaseSpecConnectionCockroachdbDbnameValueFromSsmAccessKeyId"
        "DatabaseSpecConnectionCockroachdbDbnameValueFromSsmAccessKeyId"
    ∷ register_struct
        "databasesschemaheroio.DatabaseSpecConnectionCockroachdbDbnameValueFromSsmAccessKeyIdValueFrom"
        "DatabaseSpecConnectionCockroachdbDbnameValueFromSsmAccessKeyIdValueFrom"
    ∷ register_struct
        "databasesschemaheroio.DatabaseSpecConnectionCockroachdbDbnameValueFromSsmAccessKeyIdValueFromSecretKeyRef"
        "DatabaseSpecConnectionCockroachdbDbnameValueFromSsmAccessKeyIdValueFromSecretKeyRef"
    ∷ register_struct
        "databasesschemaheroio.DatabaseSpecConnectionCockroachdbDbnameValueFromSsmSecretAccessKey"
        "DatabaseSpecConnectionCockroachdbDbnameValueFromSsmSecretAccessKey"
    ∷ register_struct
        "databasesschemaheroio.DatabaseSpecConnectionCockroachdbDbnameValueFromSsmSecretAccessKeyValueFrom"
        "DatabaseSpecConnectionCockroachdbDbnameValueFromSsmSecretAccessKeyValueFrom"
    ∷ register_struct
        "databasesschemaheroio.DatabaseSpecConnectionCockroachdbDbnameValueFromSsmSecretAccessKeyValueFromSecretKeyRef"
        "DatabaseSpecConnectionCockroachdbDbnameValueFromSsmSecretAccessKeyValueFromSecretKeyRef"
    ∷ register_struct "databasesschemaheroio.DatabaseSpecConnectionCockroachdbDbnameValueFromVault"
        "DatabaseSpecConnectionCockroachdbDbnameValueFromVault"
    ∷ register_struct "databasesschemaheroio.DatabaseSpecConnectionCockroachdbHost"
        "DatabaseSpecConnectionCockroachdbHost"
    ∷ register_struct "databasesschemaheroio.DatabaseSpecConnectionCockroachdbHostValueFrom"
        "DatabaseSpecConnectionCockroachdbHostValueFrom"
    ∷ register_struct
        "databasesschemaheroio.DatabaseSpecConnectionCockroachdbHostValueFromSecretKeyRef"
        "DatabaseSpecConnectionCockroachdbHostValueFromSecretKeyRef"
    ∷ register_struct "databasesschemaheroio.DatabaseSpecConnectionCockroachdbHostValueFromSsm"
        "DatabaseSpecConnectionCockroachdbHostValueFromSsm"
    ∷ register_struct
        "databasesschemaheroio.DatabaseSpecConnectionCockroachdbHostValueFromSsmAccessKeyId"
        "DatabaseSpecConnectionCockroachdbHostValueFromSsmAccessKeyId"
    ∷ register_struct
        "databasesschemaheroio.DatabaseSpecConnectionCockroachdbHostValueFromSsmAccessKeyIdValueFrom"
        "DatabaseSpecConnectionCockroachdbHostValueFromSsmAccessKeyIdValueFrom"
    ∷ register_struct
        "databasesschemaheroio.DatabaseSpecConnectionCockroachdbHostValueFromSsmAccessKeyIdValueFromSecretKeyRef"
        "DatabaseSpecConnectionCockroachdbHostValueFromSsmAccessKeyIdValueFromSecretKeyRef"
    ∷ register_struct
        "databasesschemaheroio.DatabaseSpecConnectionCockroachdbHostValueFromSsmSecretAccessKey"
        "DatabaseSpecConnectionCockroachdbHostValueFromSsmSecretAccessKey"
    ∷ register_struct
        "databasesschemaheroio.DatabaseSpecConnectionCockroachdbHostValueFromSsmSecretAccessKeyValueFrom"
        "DatabaseSpecConnectionCockroachdbHostValueFromSsmSecretAccessKeyValueFrom"
    ∷ register_struct
        "databasesschemaheroio.DatabaseSpecConnectionCockroachdbHostValueFromSsmSecretAccessKeyValueFromSecretKeyRef"
        "DatabaseSpecConnectionCockroachdbHostValueFromSsmSecretAccessKeyValueFromSecretKeyRef"
    ∷ register_struct "databasesschemaheroio.DatabaseSpecConnectionCockroachdbHostValueFromVault"
        "DatabaseSpecConnectionCockroachdbHostValueFromVault"
    ∷ register_struct "databasesschemaheroio.DatabaseSpecConnectionCockroachdbPassword"
        "DatabaseSpecConnectionCockroachdbPassword"
    ∷ register_struct "databasesschemaheroio.DatabaseSpecConnectionCockroachdbPasswordValueFrom"
        "DatabaseSpecConnectionCockroachdbPasswordValueFrom"
    ∷ register_struct
        "databasesschemaheroio.DatabaseSpecConnectionCockroachdbPasswordValueFromSecretKeyRef"
        "DatabaseSpecConnectionCockroachdbPasswordValueFromSecretKeyRef"
    ∷ register_struct "databasesschemaheroio.DatabaseSpecConnectionCockroachdbPasswordValueFromSsm"
        "DatabaseSpecConnectionCockroachdbPasswordValueFromSsm"
    ∷ register_struct
        "databasesschemaheroio.DatabaseSpecConnectionCockroachdbPasswordValueFromSsmAccessKeyId"
        "DatabaseSpecConnectionCockroachdbPasswordValueFromSsmAccessKeyId"
    ∷ register_struct
        "databasesschemaheroio.DatabaseSpecConnectionCockroachdbPasswordValueFromSsmAccessKeyIdValueFrom"
        "DatabaseSpecConnectionCockroachdbPasswordValueFromSsmAccessKeyIdValueFrom"
    ∷ register_struct
        "databasesschemaheroio.DatabaseSpecConnectionCockroachdbPasswordValueFromSsmAccessKeyIdValueFromSecretKeyRef"
        "DatabaseSpecConnectionCockroachdbPasswordValueFromSsmAccessKeyIdValueFromSecretKeyRef"
    ∷ register_struct
        "databasesschemaheroio.DatabaseSpecConnectionCockroachdbPasswordValueFromSsmSecretAccessKey"
        "DatabaseSpecConnectionCockroachdbPasswordValueFromSsmSecretAccessKey"
    ∷ register_struct
        "databasesschemaheroio.DatabaseSpecConnectionCockroachdbPasswordValueFromSsmSecretAccessKeyValueFrom"
        "DatabaseSpecConnectionCockroachdbPasswordValueFromSsmSecretAccessKeyValueFrom"
    ∷ []
