-- ===== src/Imports/Registered/DatabasesD.antt =====
-- The init function of cdk8s/imports/databasesschemaheroio/databasesschemaheroio.go, from
-- DatabaseSpecConnectionPostgresPasswordValueFrom to DatabaseSpecTemplateMetadata.
use learning_crossplane_e2e.Prelude.{List, [], ◌∷◌}
use learning_crossplane_e2e.Imports.Registry.{Registration, register_struct}

abbrev pub schemahero_databases_init_7 : List Registration
schemahero_databases_init_7 =
    register_struct "databasesschemaheroio.DatabaseSpecConnectionPostgresPasswordValueFrom"
      "DatabaseSpecConnectionPostgresPasswordValueFrom"
    ∷ register_struct
        "databasesschemaheroio.DatabaseSpecConnectionPostgresPasswordValueFromSecretKeyRef"
        "DatabaseSpecConnectionPostgresPasswordValueFromSecretKeyRef"
    ∷ register_struct "databasesschemaheroio.DatabaseSpecConnectionPostgresPasswordValueFromSsm"
        "DatabaseSpecConnectionPostgresPasswordValueFromSsm"
    ∷ register_struct
        "databasesschemaheroio.DatabaseSpecConnectionPostgresPasswordValueFromSsmAccessKeyId"
        "DatabaseSpecConnectionPostgresPasswordValueFromSsmAccessKeyId"
    ∷ register_struct
        "databasesschemaheroio.DatabaseSpecConnectionPostgresPasswordValueFromSsmAccessKeyIdValueFrom"
        "DatabaseSpecConnectionPostgresPasswordValueFromSsmAccessKeyIdValueFrom"
    ∷ register_struct
        "databasesschemaheroio.DatabaseSpecConnectionPostgresPasswordValueFromSsmAccessKeyIdValueFromSecretKeyRef"
        "DatabaseSpecConnectionPostgresPasswordValueFromSsmAccessKeyIdValueFromSecretKeyRef"
    ∷ register_struct
        "databasesschemaheroio.DatabaseSpecConnectionPostgresPasswordValueFromSsmSecretAccessKey"
        "DatabaseSpecConnectionPostgresPasswordValueFromSsmSecretAccessKey"
    ∷ register_struct
        "databasesschemaheroio.DatabaseSpecConnectionPostgresPasswordValueFromSsmSecretAccessKeyValueFrom"
        "DatabaseSpecConnectionPostgresPasswordValueFromSsmSecretAccessKeyValueFrom"
    ∷ register_struct
        "databasesschemaheroio.DatabaseSpecConnectionPostgresPasswordValueFromSsmSecretAccessKeyValueFromSecretKeyRef"
        "DatabaseSpecConnectionPostgresPasswordValueFromSsmSecretAccessKeyValueFromSecretKeyRef"
    ∷ register_struct "databasesschemaheroio.DatabaseSpecConnectionPostgresPasswordValueFromVault"
        "DatabaseSpecConnectionPostgresPasswordValueFromVault"
    ∷ register_struct "databasesschemaheroio.DatabaseSpecConnectionPostgresPort"
        "DatabaseSpecConnectionPostgresPort"
    ∷ register_struct "databasesschemaheroio.DatabaseSpecConnectionPostgresPortValueFrom"
        "DatabaseSpecConnectionPostgresPortValueFrom"
    ∷ register_struct
        "databasesschemaheroio.DatabaseSpecConnectionPostgresPortValueFromSecretKeyRef"
        "DatabaseSpecConnectionPostgresPortValueFromSecretKeyRef"
    ∷ register_struct "databasesschemaheroio.DatabaseSpecConnectionPostgresPortValueFromSsm"
        "DatabaseSpecConnectionPostgresPortValueFromSsm"
    ∷ register_struct
        "databasesschemaheroio.DatabaseSpecConnectionPostgresPortValueFromSsmAccessKeyId"
        "DatabaseSpecConnectionPostgresPortValueFromSsmAccessKeyId"
    ∷ register_struct
        "databasesschemaheroio.DatabaseSpecConnectionPostgresPortValueFromSsmAccessKeyIdValueFrom"
        "DatabaseSpecConnectionPostgresPortValueFromSsmAccessKeyIdValueFrom"
    ∷ register_struct
        "databasesschemaheroio.DatabaseSpecConnectionPostgresPortValueFromSsmAccessKeyIdValueFromSecretKeyRef"
        "DatabaseSpecConnectionPostgresPortValueFromSsmAccessKeyIdValueFromSecretKeyRef"
    ∷ register_struct
        "databasesschemaheroio.DatabaseSpecConnectionPostgresPortValueFromSsmSecretAccessKey"
        "DatabaseSpecConnectionPostgresPortValueFromSsmSecretAccessKey"
    ∷ register_struct
        "databasesschemaheroio.DatabaseSpecConnectionPostgresPortValueFromSsmSecretAccessKeyValueFrom"
        "DatabaseSpecConnectionPostgresPortValueFromSsmSecretAccessKeyValueFrom"
    ∷ register_struct
        "databasesschemaheroio.DatabaseSpecConnectionPostgresPortValueFromSsmSecretAccessKeyValueFromSecretKeyRef"
        "DatabaseSpecConnectionPostgresPortValueFromSsmSecretAccessKeyValueFromSecretKeyRef"
    ∷ register_struct "databasesschemaheroio.DatabaseSpecConnectionPostgresPortValueFromVault"
        "DatabaseSpecConnectionPostgresPortValueFromVault"
    ∷ register_struct "databasesschemaheroio.DatabaseSpecConnectionPostgresSchema"
        "DatabaseSpecConnectionPostgresSchema"
    ∷ register_struct "databasesschemaheroio.DatabaseSpecConnectionPostgresSchemaValueFrom"
        "DatabaseSpecConnectionPostgresSchemaValueFrom"
    ∷ register_struct
        "databasesschemaheroio.DatabaseSpecConnectionPostgresSchemaValueFromSecretKeyRef"
        "DatabaseSpecConnectionPostgresSchemaValueFromSecretKeyRef"
    ∷ register_struct "databasesschemaheroio.DatabaseSpecConnectionPostgresSchemaValueFromSsm"
        "DatabaseSpecConnectionPostgresSchemaValueFromSsm"
    ∷ register_struct
        "databasesschemaheroio.DatabaseSpecConnectionPostgresSchemaValueFromSsmAccessKeyId"
        "DatabaseSpecConnectionPostgresSchemaValueFromSsmAccessKeyId"
    ∷ register_struct
        "databasesschemaheroio.DatabaseSpecConnectionPostgresSchemaValueFromSsmAccessKeyIdValueFrom"
        "DatabaseSpecConnectionPostgresSchemaValueFromSsmAccessKeyIdValueFrom"
    ∷ register_struct
        "databasesschemaheroio.DatabaseSpecConnectionPostgresSchemaValueFromSsmAccessKeyIdValueFromSecretKeyRef"
        "DatabaseSpecConnectionPostgresSchemaValueFromSsmAccessKeyIdValueFromSecretKeyRef"
    ∷ register_struct
        "databasesschemaheroio.DatabaseSpecConnectionPostgresSchemaValueFromSsmSecretAccessKey"
        "DatabaseSpecConnectionPostgresSchemaValueFromSsmSecretAccessKey"
    ∷ register_struct
        "databasesschemaheroio.DatabaseSpecConnectionPostgresSchemaValueFromSsmSecretAccessKeyValueFrom"
        "DatabaseSpecConnectionPostgresSchemaValueFromSsmSecretAccessKeyValueFrom"
    ∷ register_struct
        "databasesschemaheroio.DatabaseSpecConnectionPostgresSchemaValueFromSsmSecretAccessKeyValueFromSecretKeyRef"
        "DatabaseSpecConnectionPostgresSchemaValueFromSsmSecretAccessKeyValueFromSecretKeyRef"
    ∷ register_struct "databasesschemaheroio.DatabaseSpecConnectionPostgresSchemaValueFromVault"
        "DatabaseSpecConnectionPostgresSchemaValueFromVault"
    ∷ register_struct "databasesschemaheroio.DatabaseSpecConnectionPostgresSslmode"
        "DatabaseSpecConnectionPostgresSslmode"
    ∷ register_struct "databasesschemaheroio.DatabaseSpecConnectionPostgresSslmodeValueFrom"
        "DatabaseSpecConnectionPostgresSslmodeValueFrom"
    ∷ register_struct
        "databasesschemaheroio.DatabaseSpecConnectionPostgresSslmodeValueFromSecretKeyRef"
        "DatabaseSpecConnectionPostgresSslmodeValueFromSecretKeyRef"
    ∷ register_struct "databasesschemaheroio.DatabaseSpecConnectionPostgresSslmodeValueFromSsm"
        "DatabaseSpecConnectionPostgresSslmodeValueFromSsm"
    ∷ register_struct
        "databasesschemaheroio.DatabaseSpecConnectionPostgresSslmodeValueFromSsmAccessKeyId"
        "DatabaseSpecConnectionPostgresSslmodeValueFromSsmAccessKeyId"
    ∷ []

abbrev pub schemahero_databases_init_8 : List Registration
schemahero_databases_init_8 =
    register_struct
      "databasesschemaheroio.DatabaseSpecConnectionPostgresSslmodeValueFromSsmAccessKeyIdValueFrom"
      "DatabaseSpecConnectionPostgresSslmodeValueFromSsmAccessKeyIdValueFrom"
    ∷ register_struct
        "databasesschemaheroio.DatabaseSpecConnectionPostgresSslmodeValueFromSsmAccessKeyIdValueFromSecretKeyRef"
        "DatabaseSpecConnectionPostgresSslmodeValueFromSsmAccessKeyIdValueFromSecretKeyRef"
    ∷ register_struct
        "databasesschemaheroio.DatabaseSpecConnectionPostgresSslmodeValueFromSsmSecretAccessKey"
        "DatabaseSpecConnectionPostgresSslmodeValueFromSsmSecretAccessKey"
    ∷ register_struct
        "databasesschemaheroio.DatabaseSpecConnectionPostgresSslmodeValueFromSsmSecretAccessKeyValueFrom"
        "DatabaseSpecConnectionPostgresSslmodeValueFromSsmSecretAccessKeyValueFrom"
    ∷ register_struct
        "databasesschemaheroio.DatabaseSpecConnectionPostgresSslmodeValueFromSsmSecretAccessKeyValueFromSecretKeyRef"
        "DatabaseSpecConnectionPostgresSslmodeValueFromSsmSecretAccessKeyValueFromSecretKeyRef"
    ∷ register_struct "databasesschemaheroio.DatabaseSpecConnectionPostgresSslmodeValueFromVault"
        "DatabaseSpecConnectionPostgresSslmodeValueFromVault"
    ∷ register_struct "databasesschemaheroio.DatabaseSpecConnectionPostgresUri"
        "DatabaseSpecConnectionPostgresUri"
    ∷ register_struct "databasesschemaheroio.DatabaseSpecConnectionPostgresUriValueFrom"
        "DatabaseSpecConnectionPostgresUriValueFrom"
    ∷ register_struct "databasesschemaheroio.DatabaseSpecConnectionPostgresUriValueFromSecretKeyRef"
        "DatabaseSpecConnectionPostgresUriValueFromSecretKeyRef"
    ∷ register_struct "databasesschemaheroio.DatabaseSpecConnectionPostgresUriValueFromSsm"
        "DatabaseSpecConnectionPostgresUriValueFromSsm"
    ∷ register_struct
        "databasesschemaheroio.DatabaseSpecConnectionPostgresUriValueFromSsmAccessKeyId"
        "DatabaseSpecConnectionPostgresUriValueFromSsmAccessKeyId"
    ∷ register_struct
        "databasesschemaheroio.DatabaseSpecConnectionPostgresUriValueFromSsmAccessKeyIdValueFrom"
        "DatabaseSpecConnectionPostgresUriValueFromSsmAccessKeyIdValueFrom"
    ∷ register_struct
        "databasesschemaheroio.DatabaseSpecConnectionPostgresUriValueFromSsmAccessKeyIdValueFromSecretKeyRef"
        "DatabaseSpecConnectionPostgresUriValueFromSsmAccessKeyIdValueFromSecretKeyRef"
    ∷ register_struct
        "databasesschemaheroio.DatabaseSpecConnectionPostgresUriValueFromSsmSecretAccessKey"
        "DatabaseSpecConnectionPostgresUriValueFromSsmSecretAccessKey"
    ∷ register_struct
        "databasesschemaheroio.DatabaseSpecConnectionPostgresUriValueFromSsmSecretAccessKeyValueFrom"
        "DatabaseSpecConnectionPostgresUriValueFromSsmSecretAccessKeyValueFrom"
    ∷ register_struct
        "databasesschemaheroio.DatabaseSpecConnectionPostgresUriValueFromSsmSecretAccessKeyValueFromSecretKeyRef"
        "DatabaseSpecConnectionPostgresUriValueFromSsmSecretAccessKeyValueFromSecretKeyRef"
    ∷ register_struct "databasesschemaheroio.DatabaseSpecConnectionPostgresUriValueFromVault"
        "DatabaseSpecConnectionPostgresUriValueFromVault"
    ∷ register_struct "databasesschemaheroio.DatabaseSpecConnectionPostgresUser"
        "DatabaseSpecConnectionPostgresUser"
    ∷ register_struct "databasesschemaheroio.DatabaseSpecConnectionPostgresUserValueFrom"
        "DatabaseSpecConnectionPostgresUserValueFrom"
    ∷ register_struct
        "databasesschemaheroio.DatabaseSpecConnectionPostgresUserValueFromSecretKeyRef"
        "DatabaseSpecConnectionPostgresUserValueFromSecretKeyRef"
    ∷ register_struct "databasesschemaheroio.DatabaseSpecConnectionPostgresUserValueFromSsm"
        "DatabaseSpecConnectionPostgresUserValueFromSsm"
    ∷ register_struct
        "databasesschemaheroio.DatabaseSpecConnectionPostgresUserValueFromSsmAccessKeyId"
        "DatabaseSpecConnectionPostgresUserValueFromSsmAccessKeyId"
    ∷ register_struct
        "databasesschemaheroio.DatabaseSpecConnectionPostgresUserValueFromSsmAccessKeyIdValueFrom"
        "DatabaseSpecConnectionPostgresUserValueFromSsmAccessKeyIdValueFrom"
    ∷ register_struct
        "databasesschemaheroio.DatabaseSpecConnectionPostgresUserValueFromSsmAccessKeyIdValueFromSecretKeyRef"
        "DatabaseSpecConnectionPostgresUserValueFromSsmAccessKeyIdValueFromSecretKeyRef"
    ∷ register_struct
        "databasesschemaheroio.DatabaseSpecConnectionPostgresUserValueFromSsmSecretAccessKey"
        "DatabaseSpecConnectionPostgresUserValueFromSsmSecretAccessKey"
    ∷ register_struct
        "databasesschemaheroio.DatabaseSpecConnectionPostgresUserValueFromSsmSecretAccessKeyValueFrom"
        "DatabaseSpecConnectionPostgresUserValueFromSsmSecretAccessKeyValueFrom"
    ∷ register_struct
        "databasesschemaheroio.DatabaseSpecConnectionPostgresUserValueFromSsmSecretAccessKeyValueFromSecretKeyRef"
        "DatabaseSpecConnectionPostgresUserValueFromSsmSecretAccessKeyValueFromSecretKeyRef"
    ∷ register_struct "databasesschemaheroio.DatabaseSpecConnectionPostgresUserValueFromVault"
        "DatabaseSpecConnectionPostgresUserValueFromVault"
    ∷ register_struct "databasesschemaheroio.DatabaseSpecConnectionSqlite"
        "DatabaseSpecConnectionSqlite"
    ∷ register_struct "databasesschemaheroio.DatabaseSpecSchemahero" "DatabaseSpecSchemahero"
    ∷ register_struct "databasesschemaheroio.DatabaseSpecTemplate" "DatabaseSpecTemplate"
    ∷ register_struct "databasesschemaheroio.DatabaseSpecTemplateMetadata"
        "DatabaseSpecTemplateMetadata"
    ∷ []
