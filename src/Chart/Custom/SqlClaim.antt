-- ===== src/Chart/Custom/SqlClaim.antt =====
-- Database claims of Crossplane. The structs as the generated Go declares
-- them, each with its zero value and with the test that its required fields are set, in every
-- struct below it too.
use learning_crossplane_e2e.Prelude.{Bool, Option, String, none, ◌&&◌}
use learning_crossplane_e2e.Chart.K8s.Base.{ApiObjectMetadata, NeverBuilt, StringMap, each, is_set}

pub record SqlClaimSpecCompositionSelector : Type 0 where
  pub match_labels : Option StringMap

abbrev pub zero_sql_claim_spec_composition_selector : SqlClaimSpecCompositionSelector
zero_sql_claim_spec_composition_selector = record { match_labels = none }

abbrev pub sql_claim_spec_composition_selector_complete : SqlClaimSpecCompositionSelector → Bool
sql_claim_spec_composition_selector_complete x = is_set x.match_labels

pub record SqlClaimSpecParameters : Type 0 where
  pub version : Option String
  pub size : Option String

abbrev pub zero_sql_claim_spec_parameters : SqlClaimSpecParameters
zero_sql_claim_spec_parameters = record { version = none; size = none }

abbrev pub sql_claim_spec_parameters_complete : SqlClaimSpecParameters → Bool
sql_claim_spec_parameters_complete x = is_set x.version

pub record SqlClaimSpec : Type 0 where
  pub parameters : Option SqlClaimSpecParameters
  pub composite_delete_policy : Option NeverBuilt
  pub composition_ref : Option NeverBuilt
  pub composition_revision_ref : Option NeverBuilt
  pub composition_selector : Option SqlClaimSpecCompositionSelector
  pub composition_update_policy : Option NeverBuilt
  pub id : Option String
  pub publish_connection_details_to : Option NeverBuilt
  pub resource_ref : Option NeverBuilt
  pub write_connection_secret_to_ref : Option NeverBuilt

abbrev pub zero_sql_claim_spec : SqlClaimSpec
zero_sql_claim_spec = record {
  parameters = none;
  composite_delete_policy = none;
  composition_ref = none;
  composition_revision_ref = none;
  composition_selector = none;
  composition_update_policy = none;
  id = none;
  publish_connection_details_to = none;
  resource_ref = none;
  write_connection_secret_to_ref = none;
}

abbrev pub sql_claim_spec_complete : SqlClaimSpec → Bool
sql_claim_spec_complete x =
    is_set x.parameters
    && each sql_claim_spec_parameters_complete x.parameters
    && each sql_claim_spec_composition_selector_complete x.composition_selector

pub record SqlClaimProps : Type 0 where
  pub spec : Option SqlClaimSpec
  pub metadata : Option ApiObjectMetadata

abbrev pub zero_sql_claim_props : SqlClaimProps
zero_sql_claim_props = record { spec = none; metadata = none }

abbrev pub sql_claim_props_complete : SqlClaimProps → Bool
sql_claim_props_complete x = is_set x.spec && each sql_claim_spec_complete x.spec
