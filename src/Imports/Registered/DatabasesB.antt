-- ===== src/Imports/Registered/DatabasesB.antt =====
-- The init function of cdk8s/imports/databasesschemaheroio/databasesschemaheroio.go, from
-- DatabaseSpecConnectionCockroachdbPasswordValueFromSsmSecretAccessKeyValueFromSecretKeyRef to
-- DatabaseSpecConnectionMysqlHostValueFromSsmAccessKeyId.
use learning_crossplane_e2e.Prelude.{List, [], ◌∷◌}
use learning_crossplane_e2e.Imports.Registry.{Registration, register_struct}

abbrev pub schemahero_databases_init_3 : List Registration
schemahero_databases_init_3 =
    register_struct
      "databasesschemaheroio.DatabaseSpecConnectionCockroachdbPasswordValueFromSsmSecretAccessKeyValueFromSecretKeyRef"
      "DatabaseSpecConnectionCockroachdbPasswordValueFromSsmSecretAccessKeyValueFromSecretKeyRef"
    ∷ register_struct
        "databasesschemaheroio.DatabaseSpecConnectionCockroachdbPasswordValueFromVault"
        "DatabaseSpecConnectionCockroachdbPasswordValueFromVault"
    ∷ register_struct "databasesschemaheroio.DatabaseSpecConnectionCockroachdbPort"
        "DatabaseSpecConnectionCockroachdbPort"
    ∷ register_struct "databasesschemaheroio.DatabaseSpecConnectionCockroachdbPortValueFrom"
        "DatabaseSpecConnectionCockroachdbPortValueFrom"
    ∷ register_struct
        "databasesschemaheroio.DatabaseSpecConnectionCockroachdbPortValueFromSecretKeyRef"
        "DatabaseSpecConnectionCockroachdbPortValueFromSecretKeyRef"
    ∷ register_struct "databasesschemaheroio.DatabaseSpecConnectionCockroachdbPortValueFromSsm"
        "DatabaseSpecConnectionCockroachdbPortValueFromSsm"
    ∷ register_struct
        "databasesschemaheroio.DatabaseSpecConnectionCockroachdbPortValueFromSsmAccessKeyId"
        "DatabaseSpecConnectionCockroachdbPortValueFromSsmAccessKeyId"
    ∷ register_struct
        "databasesschemaheroio.DatabaseSpecConnectionCockroachdbPortValueFromSsmAccessKeyIdValueFrom"
        "DatabaseSpecConnectionCockroachdbPortValueFromSsmAccessKeyIdValueFrom"
    ∷ register_struct
        "databasesschemaheroio.DatabaseSpecConnectionCockroachdbPortValueFromSsmAccessKeyIdValueFromSecretKeyRef"
        "DatabaseSpecConnectionCockroachdbPortValueFromSsmAccessKeyIdValueFromSecretKeyRef"
    ∷ register_struct
        "databasesschemaheroio.DatabaseSpecConnectionCockroachdbPortValueFromSsmSecretAccessKey"
        "DatabaseSpecConnectionCockroachdbPortValueFromSsmSecretAccessKey"
    ∷ register_struct
        "databasesschemaheroio.DatabaseSpecConnectionCockroachdbPortValueFromSsmSecretAccessKeyValueFrom"
        "DatabaseSpecConnectionCockroachdbPortValueFromSsmSecretAccessKeyValueFrom"
    ∷ register_struct
        "databasesschemaheroio.DatabaseSpecConnectionCockroachdbPortValueFromSsmSecretAccessKeyValueFromSecretKeyRef"
        "DatabaseSpecConnectionCockroachdbPortValueFromSsmSecretAccessKeyValueFromSecretKeyRef"
    ∷ register_struct "databasesschemaheroio.DatabaseSpecConnectionCockroachdbPortValueFromVault"
        "DatabaseSpecConnectionCockroachdbPortValueFromVault"
    ∷ register_struct "databasesschemaheroio.DatabaseSpecConnectionCockroachdbSchema"
        "DatabaseSpecConnectionCockroachdbSchema"
    ∷ register_struct "databasesschemaheroio.DatabaseSpecConnectionCockroachdbSchemaValueFrom"
        "DatabaseSpecConnectionCockroachdbSchemaValueFrom"
    ∷ register_struct
        "databasesschemaheroio.DatabaseSpecConnectionCockroachdbSchemaValueFromSecretKeyRef"
        "DatabaseSpecConnectionCockroachdbSchemaValueFromSecretKeyRef"
    ∷ register_struct "databasesschemaheroio.DatabaseSpecConnectionCockroachdbSchemaValueFromSsm"
        "DatabaseSpecConnectionCockroachdbSchemaValueFromSsm"
    ∷ register_struct
        "databasesschemaheroio.DatabaseSpecConnectionCockroachdbSchemaValueFromSsmAccessKeyId"
        "DatabaseSpecConnectionCockroachdbSchemaValueFromSsmAccessKeyId"
    ∷ register_struct
        "databasesschemaheroio.DatabaseSpecConnectionCockroachdbSchemaValueFromSsmAccessKeyIdValueFrom"
        "DatabaseSpecConnectionCockroachdbSchemaValueFromSsmAccessKeyIdValueFrom"
    ∷ register_struct
        "databasesschemaheroio.DatabaseSpecConnectionCockroachdbSchemaValueFromSsmAccessKeyIdValueFromSecretKeyRef"
        "DatabaseSpecConnectionCockroachdbSchemaValueFromSsmAccessKeyIdValueFromSecretKeyRef"
    ∷ register_struct
        "databasesschemaheroio.DatabaseSpecConnectionCockroachdbSchemaValueFromSsmSecretAccessKey"
        "DatabaseSpecConnectionCockroachdbSchemaValueFromSsmSecretAccessKey"
    ∷ register_struct
        "databasesschemaheroio.DatabaseSpecConnectionCockroachdbSchemaValueFromSsmSecretAccessKeyValueFrom"
        "DatabaseSpecConnectionCockroachdbSchemaValueFromSsmSecretAccessKeyValueFrom"
    ∷ register_struct
        "databasesschemaheroio.DatabaseSpecConnectionCockroachdbSchemaValueFromSsmSecretAccessKeyValueFromSecretKeyRef"
        "DatabaseSpecConnectionCockroachdbSchemaValueFromSsmSecretAccessKeyValueFromSecretKeyRef"
    ∷ register_struct "databasesschemaheroio.DatabaseSpecConnectionCockroachdbSchemaValueFromVault"
        "DatabaseSpecConnectionCockroachdbSchemaValueFromVault"
    ∷ register_struct "databasesschemaheroio.DatabaseSpecConnectionCockroachdbSslmode"
        "DatabaseSpecConnectionCockroachdbSslmode"
    ∷ register_struct "databasesschemaheroio.DatabaseSpecConnectionCockroachdbSslmodeValueFrom"
        "DatabaseSpecConnectionCockroachdbSslmodeValueFrom"
    ∷ register_struct
        "databasesschemaheroio.DatabaseSpecConnectionCockroachdbSslmodeValueFromSecretKeyRef"
        "DatabaseSpecConnectionCockroachdbSslmodeValueFromSecretKeyRef"
    ∷ register_struct "databasesschemaheroio.DatabaseSpecConnectionCockroachdbSslmodeValueFromSsm"
        "DatabaseSpecConnectionCockroachdbSslmodeValueFromSsm"
    ∷ register_struct
        "databasesschemaheroio.DatabaseSpecConnectionCockroachdbSslmodeValueFromSsmAccessKeyId"
        "DatabaseSpecConnectionCockroachdbSslmodeValueFromSsmAccessKeyId"
    ∷ register_struct
        "databasesschemaheroio.DatabaseSpecConnectionCockroachdbSslmodeValueFromSsmAccessKeyIdValueFrom"
        "DatabaseSpecConnectionCockroachdbSslmodeValueFromSsmAccessKeyIdValueFrom"
    ∷ register_struct
        "databasesschemaheroio.DatabaseSpecConnectionCockroachdbSslmodeValueFromSsmAccessKeyIdValueFromSecretKeyRef"
        "DatabaseSpecConnectionCockroachdbSslmodeValueFromSsmAccessKeyIdValueFromSecretKeyRef"
    ∷ register_struct
        "databasesschemaheroio.DatabaseSpecConnectionCockroachdbSslmodeValueFromSsmSecretAccessKey"
        "DatabaseSpecConnectionCockroachdbSslmodeValueFromSsmSecretAccessKey"
    ∷ register_struct
        "databasesschemaheroio.DatabaseSpecConnectionCockroachdbSslmodeValueFromSsmSecretAccessKeyValueFrom"
        "DatabaseSpecConnectionCockroachdbSslmodeValueFromSsmSecretAccessKeyValueFrom"
    ∷ register_struct
        "databasesschemaheroio.DatabaseSpecConnectionCockroachdbSslmodeValueFromSsmSecretAccessKeyValueFromSecretKeyRef"
        "DatabaseSpecConnectionCockroachdbSslmodeValueFromSsmSecretAccessKeyValueFromSecretKeyRef"
    ∷ register_struct "databasesschemaheroio.DatabaseSpecConnectionCockroachdbSslmodeValueFromVault"
        "DatabaseSpecConnectionCockroachdbSslmodeValueFromVault"
    ∷ register_struct "databasesschemaheroio.DatabaseSpecConnectionCockroachdbUri"
        "DatabaseSpecConnectionCockroachdbUri"
    ∷ register_struct "databasesschemaheroio.DatabaseSpecConnectionCockroachdbUriValueFrom"
        "DatabaseSpecConnectionCockroachdbUriValueFrom"
    ∷ []

abbrev pub schemahero_databases_init_4 : List Registration
schemahero_databases_init_4 =
    register_struct
      "databasesschemaheroio.DatabaseSpecConnectionCockroachdbUriValueFromSecretKeyRef"
      "DatabaseSpecConnectionCockroachdbUriValueFromSecretKeyRef"
    ∷ register_struct "databasesschemaheroio.DatabaseSpecConnectionCockroachdbUriValueFromSsm"
        "DatabaseSpecConnectionCockroachdbUriValueFromSsm"
    ∷ register_struct
        "databasesschemaheroio.DatabaseSpecConnectionCockroachdbUriValueFromSsmAccessKeyId"
        "DatabaseSpecConnectionCockroachdbUriValueFromSsmAccessKeyId"
    ∷ register_struct
        "databasesschemaheroio.DatabaseSpecConnectionCockroachdbUriValueFromSsmAccessKeyIdValueFrom"
        "DatabaseSpecConnectionCockroachdbUriValueFromSsmAccessKeyIdValueFrom"
    ∷ register_struct
        "databasesschemaheroio.DatabaseSpecConnectionCockroachdbUriValueFromSsmAccessKeyIdValueFromSecretKeyRef"
        "DatabaseSpecConnectionCockroachdbUriValueFromSsmAccessKeyIdValueFromSecretKeyRef"
    ∷ register_struct
        "databasesschemaheroio.DatabaseSpecConnectionCockroachdbUriValueFromSsmSecretAccessKey"
        "DatabaseSpecConnectionCockroachdbUriValueFromSsmSecretAccessKey"
    ∷ register_struct
        "databasesschemaheroio.DatabaseSpecConnectionCockroachdbUriValueFromSsmSecretAccessKeyValueFrom"
        "DatabaseSpecConnectionCockroachdbUriValueFromSsmSecretAccessKeyValueFrom"
    ∷ register_struct
        "databasesschemaheroio.DatabaseSpecConnectionCockroachdbUriValueFromSsmSecretAccessKeyValueFromSecretKeyRef"
        "DatabaseSpecConnectionCockroachdbUriValueFromSsmSecretAccessKeyValueFromSecretKeyRef"
    ∷ register_struct "databasesschemaheroio.DatabaseSpecConnectionCockroachdbUriValueFromVault"
        "DatabaseSpecConnectionCockroachdbUriValueFromVault"
    ∷ register_struct "databasesschemaheroio.DatabaseSpecConnectionCockroachdbUser"
        "DatabaseSpecConnectionCockroachdbUser"
    ∷ register_struct "databasesschemaheroio.DatabaseSpecConnectionCockroachdbUserValueFrom"
        "DatabaseSpecConnectionCockroachdbUserValueFrom"
    ∷ register_struct
        "databasesschemaheroio.DatabaseSpecConnectionCockroachdbUserValueFromSecretKeyRef"
        "DatabaseSpecConnectionCockroachdbUserValueFromSecretKeyRef"
    ∷ register_struct "databasesschemaheroio.DatabaseSpecConnectionCockroachdbUserValueFromSsm"
        "DatabaseSpecConnectionCockroachdbUserValueFromSsm"
    ∷ register_struct
        "databasesschemaheroio.DatabaseSpecConnectionCockroachdbUserValueFromSsmAccessKeyId"
        "DatabaseSpecConnectionCockroachdbUserValueFromSsmAccessKeyId"
    ∷ register_struct
        "databasesschemaheroio.DatabaseSpecConnectionCockroachdbUserValueFromSsmAccessKeyIdValueFrom"
        "DatabaseSpecConnectionCockroachdbUserValueFromSsmAccessKeyIdValueFrom"
    ∷ register_struct
        "databasesschemaheroio.DatabaseSpecConnectionCockroachdbUserValueFromSsmAccessKeyIdValueFromSecretKeyRef"
        "DatabaseSpecConnectionCockroachdbUserValueFromSsmAccessKeyIdValueFromSecretKeyRef"
    ∷ register_struct
        "databasesschemaheroio.DatabaseSpecConnectionCockroachdbUserValueFromSsmSecretAccessKey"
        "DatabaseSpecConnectionCockroachdbUserValueFromSsmSecretAccessKey"
    ∷ register_struct
        "databasesschemaheroio.DatabaseSpecConnectionCockroachdbUserValueFromSsmSecretAccessKeyValueFrom"
        "DatabaseSpecConnectionCockroachdbUserValueFromSsmSecretAccessKeyValueFrom"
    ∷ register_struct
        "databasesschemaheroio.DatabaseSpecConnectionCockroachdbUserValueFromSsmSecretAccessKeyValueFromSecretKeyRef"
        "DatabaseSpecConnectionCockroachdbUserValueFromSsmSecretAccessKeyValueFromSecretKeyRef"
    ∷ register_struct "databasesschemaheroio.DatabaseSpecConnectionCockroachdbUserValueFromVault"
        "DatabaseSpecConnectionCockroachdbUserValueFromVault"
    ∷ register_struct "databasesschemaheroio.DatabaseSpecConnectionMysql"
        "DatabaseSpecConnectionMysql"
    ∷ register_struct "databasesschemaheroio.DatabaseSpecConnectionMysqlDbname"
        "DatabaseSpecConnectionMysqlDbname"
    ∷ register_struct "databasesschemaheroio.DatabaseSpecConnectionMysqlDbnameValueFrom"
        "DatabaseSpecConnectionMysqlDbnameValueFrom"
    ∷ register_struct "databasesschemaheroio.DatabaseSpecConnectionMysqlDbnameValueFromSecretKeyRef"
        "DatabaseSpecConnectionMysqlDbnameValueFromSecretKeyRef"
    ∷ register_struct "databasesschemaheroio.DatabaseSpecConnectionMysqlDbnameValueFromSsm"
        "DatabaseSpecConnectionMysqlDbnameValueFromSsm"
    ∷ register_struct
        "databasesschemaheroio.DatabaseSpecConnectionMysqlDbnameValueFromSsmAccessKeyId"
        "DatabaseSpecConnectionMysqlDbnameValueFromSsmAccessKeyId"
    ∷ register_struct
        "databasesschemaheroio.DatabaseSpecConnectionMysqlDbnameValueFromSsmAccessKeyIdValueFrom"
        "DatabaseSpecConnectionMysqlDbnameValueFromSsmAccessKeyIdValueFrom"
    ∷ register_struct
        "databasesschemaheroio.DatabaseSpecConnectionMysqlDbnameValueFromSsmAccessKeyIdValueFromSecretKeyRef"
        "DatabaseSpecConnectionMysqlDbnameValueFromSsmAccessKeyIdValueFromSecretKeyRef"
    ∷ register_struct
        "databasesschemaheroio.DatabaseSpecConnectionMysqlDbnameValueFromSsmSecretAccessKey"
        "DatabaseSpecConnectionMysqlDbnameValueFromSsmSecretAccessKey"
    ∷ register_struct
        "databasesschemaheroio.DatabaseSpecConnectionMysqlDbnameValueFromSsmSecretAccessKeyValueFrom"
        "DatabaseSpecConnectionMysqlDbnameValueFromSsmSecretAccessKeyValueFrom"
    ∷ register_struct
        "databasesschemaheroio.DatabaseSpecConnectionMysqlDbnameValueFromSsmSecretAccessKeyValueFromSecretKeyRef"
        "DatabaseSpecConnectionMysqlDbnameValueFromSsmSecretAccessKeyValueFromSecretKeyRef"
    ∷ register_struct "databasesschemaheroio.DatabaseSpecConnectionMysqlDbnameValueFromVault"
        "DatabaseSpecConnectionMysqlDbnameValueFromVault"
    ∷ register_struct "databasesschemaheroio.DatabaseSpecConnectionMysqlHost"
        "DatabaseSpecConnectionMysqlHost"
    ∷ register_struct "databasesschemaheroio.DatabaseSpecConnectionMysqlHostValueFrom"
        "DatabaseSpecConnectionMysqlHostValueFrom"
    ∷ register_struct "databasesschemaheroio.DatabaseSpecConnectionMysqlHostValueFromSecretKeyRef"
        "DatabaseSpecConnectionMysqlHostValueFromSecretKeyRef"
    ∷ register_struct "databasesschemaheroio.DatabaseSpecConnectionMysqlHostValueFromSsm"
        "DatabaseSpecConnectionMysqlHostValueFromSsm"
    ∷ register_struct "databasesschemaheroio.DatabaseSpecConnectionMysqlHostValueFromSsmAccessKeyId"
        "DatabaseSpecConnectionMysqlHostValueFromSsmAccessKeyId"
    ∷ []
