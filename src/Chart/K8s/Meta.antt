-- ===== src/Chart/K8s/Meta.antt =====
-- Metadata, label selectors and secrets of the Kubernetes API. The structs as the generated Go declares
-- them, each with its zero value and with the test that its required fields are set, in every
-- struct below it too.
use learning_crossplane_e2e.Prelude.{Bool, List, Option, String, none, true}
use learning_crossplane_e2e.Chart.K8s.Base.{Float64, NeverBuilt, StringMap, each}

pub record ObjectMeta : Type 0 where
  pub annotations : Option StringMap
  pub creation_timestamp : Option NeverBuilt
  pub deletion_grace_period_seconds : Option Float64
  pub deletion_timestamp : Option NeverBuilt
  pub finalizers : Option (List String)
  pub generate_name : Option String
  pub generation : Option Float64
  pub labels : Option StringMap
  pub managed_fields : Option NeverBuilt
  pub name : Option String
  pub namespace : Option String
  pub owner_references : Option NeverBuilt
  pub resource_version : Option String
  pub self_link : Option String
  pub uid : Option String

abbrev pub zero_object_meta : ObjectMeta
zero_object_meta = record {
  annotations = none;
  creation_timestamp = none;
  deletion_grace_period_seconds = none;
  deletion_timestamp = none;
  finalizers = none;
  generate_name = none;
  generation = none;
  labels = none;
  managed_fields = none;
  name = none;
  namespace = none;
  owner_references = none;
  resource_version = none;
  self_link = none;
  uid = none;
}

abbrev pub object_meta_complete : ObjectMeta → Bool
object_meta_complete x = true

pub record LabelSelector : Type 0 where
  pub match_expressions : Option NeverBuilt
  pub match_labels : Option StringMap

abbrev pub zero_label_selector : LabelSelector
zero_label_selector = record { match_expressions = none; match_labels = none }

abbrev pub label_selector_complete : LabelSelector → Bool
label_selector_complete x = true

pub record KubeSecretProps : Type 0 where
  pub secret_data : Option StringMap
  pub immutable : Option Bool
  pub metadata : Option ObjectMeta
  pub string_data : Option StringMap
  pub type : Option String

abbrev pub zero_kube_secret_props : KubeSecretProps
zero_kube_secret_props = record {
  secret_data = none;
  immutable = none;
  metadata = none;
  string_data = none;
  type = none;
}

abbrev pub kube_secret_props_complete : KubeSecretProps → Bool
kube_secret_props_complete x = each object_meta_complete x.metadata
