-- ===== src/Chart/Custom/ExternalSecret.antt =====
-- External secrets. The structs as the generated Go declares
-- them, each with its zero value and with the test that its required fields are set, in every
-- struct below it too.
use learning_crossplane_e2e.Prelude.{Bool, List, Option, String, none, true, ◌&&◌}
use learning_crossplane_e2e.Chart.K8s.Base.{ApiObjectMetadata, NeverBuilt, each, each_of, is_set}

pub record ExternalSecretSpecSecretStoreRef : Type 0 where
  pub name : Option String
  pub kind : Option String

abbrev pub zero_external_secret_spec_secret_store_ref : ExternalSecretSpecSecretStoreRef
zero_external_secret_spec_secret_store_ref = record { name = none; kind = none }

abbrev pub external_secret_spec_secret_store_ref_complete : ExternalSecretSpecSecretStoreRef → Bool
external_secret_spec_secret_store_ref_complete x = is_set x.name

pub record ExternalSecretSpecTarget : Type 0 where
  pub creation_policy : Option String
  pub immutable : Option Bool
  pub name : Option String
  pub template : Option NeverBuilt

abbrev pub zero_external_secret_spec_target : ExternalSecretSpecTarget
zero_external_secret_spec_target = record {
  creation_policy = none;
  immutable = none;
  name = none;
  template = none;
}

abbrev pub external_secret_spec_target_complete : ExternalSecretSpecTarget → Bool
external_secret_spec_target_complete x = true

pub record ExternalSecretSpecDataFrom : Type 0 where
  pub key : Option String
  pub conversion_strategy : Option String
  pub property : Option String
  pub version : Option String

abbrev pub zero_external_secret_spec_data_from : ExternalSecretSpecDataFrom
zero_external_secret_spec_data_from = record {
  key = none;
  conversion_strategy = none;
  property = none;
  version = none;
}

abbrev pub external_secret_spec_data_from_complete : ExternalSecretSpecDataFrom → Bool
external_secret_spec_data_from_complete x = is_set x.key

pub record ExternalSecretSpec : Type 0 where
  pub secret_store_ref : Option ExternalSecretSpecSecretStoreRef
  pub target : Option ExternalSecretSpecTarget
  pub secret_data : Option NeverBuilt
  pub data_from : Option (List ExternalSecretSpecDataFrom)
  pub refresh_interval : Option String

abbrev pub zero_external_secret_spec : ExternalSecretSpec
zero_external_secret_spec = record {
  secret_store_ref = none;
  target = none;
  secret_data = none;
  data_from = none;
  refresh_interval = none;
}

abbrev pub external_secret_spec_complete : ExternalSecretSpec → Bool
external_secret_spec_complete x =
    is_set x.secret_store_ref
    && each external_secret_spec_secret_store_ref_complete x.secret_store_ref
    && is_set x.target
    && each external_secret_spec_target_complete x.target
    && each_of external_secret_spec_data_from_complete x.data_from

pub record ExternalSecretProps : Type 0 where
  pub metadata : Option ApiObjectMetadata
  pub spec : Option ExternalSecretSpec

abbrev pub zero_external_secret_props : ExternalSecretProps
zero_external_secret_props = record { metadata = none; spec = none }

abbrev pub external_secret_props_complete : ExternalSecretProps → Bool
external_secret_props_complete x = each external_secret_spec_complete x.spec
