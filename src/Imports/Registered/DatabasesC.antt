-- ===== src/Imports/Registered/DatabasesC.antt =====
-- The init function of cdk8s/imports/databasesschemaheroio/databasesschemaheroio.go, from
-- DatabaseSpecConnectionMysqlHostValueFromSsmAccessKeyIdValueFrom to
-- DatabaseSpecConnectionPostgresPassword.
use learning_crossplane_e2e.Prelude.{List, [], ◌∷◌}
use learning_crossplane_e2e.Imports.Registry.{Registration, register_struct}

abbrev pub schemahero_databases_init_5 : List Registration
schemahero_databases_init_5 =
    register_struct
      "databasesschemaheroio.DatabaseSpecConnectionMysqlHostValueFromSsmAccessKeyIdValueFrom"
      "DatabaseSpecConnectionMysqlHostValueFromSsmAccessKeyIdValueFrom"
    ∷ register_struct
        "databasesschemaheroio.DatabaseSpecConnectionMysqlHostValueFromSsmAccessKeyIdValueFromSecretKeyRef"
        "DatabaseSpecConnectionMysqlHostValueFromSsmAccessKeyIdValueFromSecretKeyRef"
    ∷ register_struct
        "databasesschemaheroio.DatabaseSpecConnectionMysqlHostValueFromSsmSecretAccessKey"
        "DatabaseSpecConnectionMysqlHostValueFromSsmSecretAccessKey"
    ∷ register_struct
        "databasesschemaheroio.DatabaseSpecConnectionMysqlHostValueFromSsmSecretAccessKeyValueFrom"
        "DatabaseSpecConnectionMysqlHostValueFromSsmSecretAccessKeyValueFrom"
    ∷ register_struct
        "databasesschemaheroio.DatabaseSpecConnectionMysqlHostValueFromSsmSecretAccessKeyValueFromSecretKeyRef"
        "DatabaseSpecConnectionMysqlHostValueFromSsmSecretAccessKeyValueFromSecretKeyRef"
    ∷ register_struct "databasesschemaheroio.DatabaseSpecConnectionMysqlHostValueFromVault"
        "DatabaseSpecConnectionMysqlHostValueFromVault"
    ∷ register_struct "databasesschemaheroio.DatabaseSpecConnectionMysqlPassword"
        "DatabaseSpecConnectionMysqlPassword"
    ∷ register_struct "databasesschemaheroio.DatabaseSpecConnectionMysqlPasswordValueFrom"
        "DatabaseSpecConnectionMysqlPasswordValueFrom"
    ∷ register_struct
        "databasesschemaheroio.DatabaseSpecConnectionMysqlPasswordValueFromSecretKeyRef"
        "DatabaseSpecConnectionMysqlPasswordValueFromSecretKeyRef"
    ∷ register_struct "databasesschemaheroio.DatabaseSpecConnectionMysqlPasswordValueFromSsm"
        "DatabaseSpecConnectionMysqlPasswordValueFromSsm"
    ∷ register_struct
        "databasesschemaheroio.DatabaseSpecConnectionMysqlPasswordValueFromSsmAccessKeyId"
        "DatabaseSpecConnectionMysqlPasswordValueFromSsmAccessKeyId"
    ∷ register_struct
        "databasesschemaheroio.DatabaseSpecConnectionMysqlPasswordValueFromSsmAccessKeyIdValueFrom"
        "DatabaseSpecConnectionMysqlPasswordValueFromSsmAccessKeyIdValueFrom"
    ∷ register_struct
        "databasesschemaheroio.DatabaseSpecConnectionMysqlPasswordValueFromSsmAccessKeyIdValueFromSecretKeyRef"
        "DatabaseSpecConnectionMysqlPasswordValueFromSsmAccessKeyIdValueFromSecretKeyRef"
    ∷ register_struct
        "databasesschemaheroio.DatabaseSpecConnectionMysqlPasswordValueFromSsmSecretAccessKey"
        "DatabaseSpecConnectionMysqlPasswordValueFromSsmSecretAccessKey"
    ∷ register_struct
        "databasesschemaheroio.DatabaseSpecConnectionMysqlPasswordValueFromSsmSecretAccessKeyValueFrom"
        "DatabaseSpecConnectionMysqlPasswordValueFromSsmSecretAccessKeyValueFrom"
    ∷ register_struct
        "databasesschemaheroio.DatabaseSpecConnectionMysqlPasswordValueFromSsmSecretAccessKeyValueFromSecretKeyRef"
        "DatabaseSpecConnectionMysqlPasswordValueFromSsmSecretAccessKeyValueFromSecretKeyRef"
    ∷ register_struct "databasesschemaheroio.DatabaseSpecConnectionMysqlPasswordValueFromVault"
        "DatabaseSpecConnectionMysqlPasswordValueFromVault"
    ∷ register_struct "databasesschemaheroio.DatabaseSpecConnectionMysqlPort"
        "DatabaseSpecConnectionMysqlPort"
    ∷ register_struct "databasesschemaheroio.DatabaseSpecConnectionMysqlPortValueFrom"
        "DatabaseSpecConnectionMysqlPortValueFrom"
    ∷ register_struct "databasesschemaheroio.DatabaseSpecConnectionMysqlPortValueFromSecretKeyRef"
        "DatabaseSpecConnectionMysqlPortValueFromSecretKeyRef"
    ∷ register_struct "databasesschemaheroio.DatabaseSpecConnectionMysqlPortValueFromSsm"
        "DatabaseSpecConnectionMysqlPortValueFromSsm"
    ∷ register_struct "databasesschemaheroio.DatabaseSpecConnectionMysqlPortValueFromSsmAccessKeyId"
        "DatabaseSpecConnectionMysqlPortValueFromSsmAccessKeyId"
    ∷ register_struct
        "databasesschemaheroio.DatabaseSpecConnectionMysqlPortValueFromSsmAccessKeyIdValueFrom"
        "DatabaseSpecConnectionMysqlPortValueFromSsmAccessKeyIdValueFrom"
    ∷ register_struct
        "databasesschemaheroio.DatabaseSpecConnectionMysqlPortValueFromSsmAccessKeyIdValueFromSecretKeyRef"
        "DatabaseSpecConnectionMysqlPortValueFromSsmAccessKeyIdValueFromSecretKeyRef"
    ∷ register_struct
        "databasesschemaheroio.DatabaseSpecConnectionMysqlPortValueFromSsmSecretAccessKey"
        "DatabaseSpecConnectionMysqlPortValueFromSsmSecretAccessKey"
    ∷ register_struct
        "databasesschemaheroio.DatabaseSpecConnectionMysqlPortValueFromSsmSecretAccessKeyValueFrom"
        "DatabaseSpecConnectionMysqlPortValueFromSsmSecretAccessKeyValueFrom"
    ∷ register_struct
        "databasesschemaheroio.DatabaseSpecConnectionMysqlPortValueFromSsmSecretAccessKeyValueFromSecretKeyRef"
        "DatabaseSpecConnectionMysqlPortValueFromSsmSecretAccessKeyValueFromSecretKeyRef"
    ∷ register_struct "databasesschemaheroio.DatabaseSpecConnectionMysqlPortValueFromVault"
        "DatabaseSpecConnectionMysqlPortValueFromVault"
    ∷ register_struct "databasesschemaheroio.DatabaseSpecConnectionMysqlUri"
        "DatabaseSpecConnectionMysqlUri"
    ∷ register_struct "databasesschemaheroio.DatabaseSpecConnectionMysqlUriValueFrom"
        "DatabaseSpecConnectionMysqlUriValueFrom"
    ∷ register_struct "databasesschemaheroio.DatabaseSpecConnectionMysqlUriValueFromSecretKeyRef"
        "DatabaseSpecConnectionMysqlUriValueFromSecretKeyRef"
    ∷ register_struct "databasesschemaheroio.DatabaseSpecConnectionMysqlUriValueFromSsm"
        "DatabaseSpecConnectionMysqlUriValueFromSsm"
    ∷ register_struct "databasesschemaheroio.DatabaseSpecConnectionMysqlUriValueFromSsmAccessKeyId"
        "DatabaseSpecConnectionMysqlUriValueFromSsmAccessKeyId"
    ∷ register_struct
        "databasesschemaheroio.DatabaseSpecConnectionMysqlUriValueFromSsmAccessKeyIdValueFrom"
        "DatabaseSpecConnectionMysqlUriValueFromSsmAccessKeyIdValueFrom"
    ∷ register_struct
        "databasesschemaheroio.DatabaseSpecConnectionMysqlUriValueFromSsmAccessKeyIdValueFromSecretKeyRef"
        "DatabaseSpecConnectionMysqlUriValueFromSsmAccessKeyIdValueFromSecretKeyRef"
    ∷ register_struct
        "databasesschemaheroio.DatabaseSpecConnectionMysqlUriValueFromSsmSecretAccessKey"
        "DatabaseSpecConnectionMysqlUriValueFromSsmSecretAccessKey"
    ∷ register_struct
        "databasesschemaheroio.DatabaseSpecConnectionMysqlUriValueFromSsmSecretAccessKeyValueFrom"
        "DatabaseSpecConnectionMysqlUriValueFromSsmSecretAccessKeyValueFrom"
    ∷ []

abbrev pub schemahero_databases_init_6 : List Registration
schemahero_databases_init_6 =
    register_struct
      "databasesschemaheroio.DatabaseSpecConnectionMysqlUriValueFromSsmSecretAccessKeyValueFromSecretKeyRef"
      "DatabaseSpecConnectionMysqlUriValueFromSsmSecretAccessKeyValueFromSecretKeyRef"
    ∷ register_struct "databasesschemaheroio.DatabaseSpecConnectionMysqlUriValueFromVault"
        "DatabaseSpecConnectionMysqlUriValueFromVault"
    ∷ register_struct "databasesschemaheroio.DatabaseSpecConnectionMysqlUser"
        "DatabaseSpecConnectionMysqlUser"
    ∷ register_struct "databasesschemaheroio.DatabaseSpecConnectionMysqlUserValueFrom"
        "DatabaseSpecConnectionMysqlUserValueFrom"
    ∷ register_struct "databasesschemaheroio.DatabaseSpecConnectionMysqlUserValueFromSecretKeyRef"
        "DatabaseSpecConnectionMysqlUserValueFromSecretKeyRef"
    ∷ register_struct "databasesschemaheroio.DatabaseSpecConnectionMysqlUserValueFromSsm"
        "DatabaseSpecConnectionMysqlUserValueFromSsm"
    ∷ register_struct "databasesschemaheroio.DatabaseSpecConnectionMysqlUserValueFromSsmAccessKeyId"
        "DatabaseSpecConnectionMysqlUserValueFromSsmAccessKeyId"
    ∷ register_struct
        "databasesschemaheroio.DatabaseSpecConnectionMysqlUserValueFromSsmAccessKeyIdValueFrom"
        "DatabaseSpecConnectionMysqlUserValueFromSsmAccessKeyIdValueFrom"
    ∷ register_struct
        "databasesschemaheroio.DatabaseSpecConnectionMysqlUserValueFromSsmAccessKeyIdValueFromSecretKeyRef"
        "DatabaseSpecConnectionMysqlUserValueFromSsmAccessKeyIdValueFromSecretKeyRef"
    ∷ register_struct
        "databasesschemaheroio.DatabaseSpecConnectionMysqlUserValueFromSsmSecretAccessKey"
        "DatabaseSpecConnectionMysqlUserValueFromSsmSecretAccessKey"
    ∷ register_struct
        "databasesschemaheroio.DatabaseSpecConnectionMysqlUserValueFromSsmSecretAccessKeyValueFrom"
        "DatabaseSpecConnectionMysqlUserValueFromSsmSecretAccessKeyValueFrom"
    ∷ register_struct
        "databasesschemaheroio.DatabaseSpecConnectionMysqlUserValueFromSsmSecretAccessKeyValueFromSecretKeyRef"
        "DatabaseSpecConnectionMysqlUserValueFromSsmSecretAccessKeyValueFromSecretKeyRef"
    ∷ register_struct "databasesschemaheroio.DatabaseSpecConnectionMysqlUserValueFromVault"
        "DatabaseSpecConnectionMysqlUserValueFromVault"
    ∷ register_struct "databasesschemaheroio.DatabaseSpecConnectionPostgres"
        "DatabaseSpecConnectionPostgres"
    ∷ register_struct "databasesschemaheroio.DatabaseSpecConnectionPostgresDbname"
        "DatabaseSpecConnectionPostgresDbname"
    ∷ register_struct "databasesschemaheroio.DatabaseSpecConnectionPostgresDbnameValueFrom"
        "DatabaseSpecConnectionPostgresDbnameValueFrom"
    ∷ register_struct
        "databasesschemaheroio.DatabaseSpecConnectionPostgresDbnameValueFromSecretKeyRef"
        "DatabaseSpecConnectionPostgresDbnameValueFromSecretKeyRef"
    ∷ register_struct "databasesschemaheroio.DatabaseSpecConnectionPostgresDbnameValueFromSsm"
        "DatabaseSpecConnectionPostgresDbnameValueFromSsm"
    ∷ register_struct
        "databasesschemaheroio.DatabaseSpecConnectionPostgresDbnameValueFromSsmAccessKeyId"
        "DatabaseSpecConnectionPostgresDbnameValueFromSsmAccessKeyId"
    ∷ register_struct
        "databasesschemaheroio.DatabaseSpecConnectionPostgresDbnameValueFromSsmAccessKeyIdValueFrom"
        "DatabaseSpecConnectionPostgresDbnameValueFromSsmAccessKeyIdValueFrom"
    ∷ register_struct
        "databasesschemaheroio.DatabaseSpecConnectionPostgresDbnameValueFromSsmAccessKeyIdValueFromSecretKeyRef"
        "DatabaseSpecConnectionPostgresDbnameValueFromSsmAccessKeyIdValueFromSecretKeyRef"
    ∷ register_struct
        "databasesschemaheroio.DatabaseSpecConnectionPostgresDbnameValueFromSsmSecretAccessKey"
        "DatabaseSpecConnectionPostgresDbnameValueFromSsmSecretAccessKey"
    ∷ register_struct
        "databasesschemaheroio.DatabaseSpecConnectionPostgresDbnameValueFromSsmSecretAccessKeyValueFrom"
        "DatabaseSpecConnectionPostgresDbnameValueFromSsmSecretAccessKeyValueFrom"
    ∷ register_struct
        "databasesschemaheroio.DatabaseSpecConnectionPostgresDbnameValueFromSsmSecretAccessKeyValueFromSecretKeyRef"
        "DatabaseSpecConnectionPostgresDbnameValueFromSsmSecretAccessKeyValueFromSecretKeyRef"
    ∷ register_struct "databasesschemaheroio.DatabaseSpecConnectionPostgresDbnameValueFromVault"
        "DatabaseSpecConnectionPostgresDbnameValueFromVault"
    ∷ register_struct "databasesschemaheroio.DatabaseSpecConnectionPostgresHost"
        "DatabaseSpecConnectionPostgresHost"
    ∷ register_struct "databasesschemaheroio.DatabaseSpecConnectionPostgresHostValueFrom"
        "DatabaseSpecConnectionPostgresHostValueFrom"
    ∷ register_struct
        "databasesschemaheroio.DatabaseSpecConnectionPostgresHostValueFromSecretKeyRef"
        "DatabaseSpecConnectionPostgresHostValueFromSecretKeyRef"
    ∷ register_struct "databasesschemaheroio.DatabaseSpecConnectionPostgresHostValueFromSsm"
        "DatabaseSpecConnectionPostgresHostValueFromSsm"
    ∷ register_struct
        "databasesschemaheroio.DatabaseSpecConnectionPostgresHostValueFromSsmAccessKeyId"
        "DatabaseSpecConnectionPostgresHostValueFromSsmAccessKeyId"
    ∷ register_struct
        "databasesschemaheroio.DatabaseSpecConnectionPostgresHostValueFromSsmAccessKeyIdValueFrom"
        "DatabaseSpecConnectionPostgresHostValueFromSsmAccessKeyIdValueFrom"
    ∷ register_struct
        "databasesschemaheroio.DatabaseSpecConnectionPostgresHostValueFromSsmAccessKeyIdValueFromSecretKeyRef"
        "DatabaseSpecConnectionPostgresHostValueFromSsmAccessKeyIdValueFromSecretKeyRef"
    ∷ register_struct
        "databasesschemaheroio.DatabaseSpecConnectionPostgresHostValueFromSsmSecretAccessKey"
        "DatabaseSpecConnectionPostgresHostValueFromSsmSecretAccessKey"
    ∷ register_struct
        "databasesschemaheroio.DatabaseSpecConnectionPostgresHostValueFromSsmSecretAccessKeyValueFrom"
        "DatabaseSpecConnectionPostgresHostValueFromSsmSecretAccessKeyValueFrom"
    ∷ register_struct
        "databasesschemaheroio.DatabaseSpecConnectionPostgresHostValueFromSsmSecretAccessKeyValueFromSecretKeyRef"
        "DatabaseSpecConnectionPostgresHostValueFromSsmSecretAccessKeyValueFromSecretKeyRef"
    ∷ register_struct "databasesschemaheroio.DatabaseSpecConnectionPostgresHostValueFromVault"
        "DatabaseSpecConnectionPostgresHostValueFromVault"
    ∷ register_struct "databasesschemaheroio.DatabaseSpecConnectionPostgresPassword"
        "DatabaseSpecConnectionPostgresPassword"
    ∷ []
