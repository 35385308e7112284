-- ===== src/Imports/K8s/Storage.antt =====
-- The classes of the API group storage, in cdk8s/imports/k8s, with the files of their checks.
use learning_crossplane_e2e.Prelude.{String, Option}
use learning_crossplane_e2e.Imports.Template.{
  Checks, ApiClass, required_props_checks, nil_checks, api_class,
}
use learning_crossplane_e2e.Imports.Initialize.{k8s_initialize}

module _ {P X : Type 0} where
  abbrev pub kube_csi_driver_class : Checks P X → ApiClass P X
  kube_csi_driver_class = api_class k8s_initialize "k8s.KubeCsiDriver" "KubeCsiDriver"

  abbrev pub kube_csi_driver_checks : (Option P → Option String) → Checks P X
  kube_csi_driver_checks = required_props_checks

  abbrev pub kube_csi_driver_no_checks : Checks P X
  kube_csi_driver_no_checks = nil_checks

  abbrev pub kube_csi_driver_list_class : Checks P X → ApiClass P X
  kube_csi_driver_list_class = api_class k8s_initialize "k8s.KubeCsiDriverList" "KubeCsiDriverList"

  abbrev pub kube_csi_driver_list_checks : (Option P → Option String) → Checks P X
  kube_csi_driver_list_checks = required_props_checks

  abbrev pub kube_csi_driver_list_no_checks : Checks P X
  kube_csi_driver_list_no_checks = nil_checks

  abbrev pub kube_csi_node_class : Checks P X → ApiClass P X
  kube_csi_node_class = api_class k8s_initialize "k8s.KubeCsiNode" "KubeCsiNode"

  abbrev pub kube_csi_node_checks : (Option P → Option String) → Checks P X
  kube_csi_node_checks = required_props_checks

  abbrev pub kube_csi_node_no_checks : Checks P X
  kube_csi_node_no_checks = nil_checks

  abbrev pub kube_csi_node_list_class : Checks P X → ApiClass P X
  kube_csi_node_list_class = api_class k8s_initialize "k8s.KubeCsiNodeList" "KubeCsiNodeList"

  abbrev pub kube_csi_node_list_checks : (Option P → Option String) → Checks P X
  kube_csi_node_list_checks = required_props_checks

  abbrev pub kube_csi_node_list_no_checks : Checks P X
  kube_csi_node_list_no_checks = nil_checks

  abbrev pub kube_csi_storage_capacity_class : Checks P X → ApiClass P X
  kube_csi_storage_capacity_class =
      api_class k8s_initialize "k8s.KubeCsiStorageCapacity" "KubeCsiStorageCapacity"

  abbrev pub kube_csi_storage_capacity_checks : (Option P → Option String) → Checks P X
  kube_csi_storage_capacity_checks = required_props_checks

  abbrev pub kube_csi_storage_capacity_no_checks : Checks P X
  kube_csi_storage_capacity_no_checks = nil_checks

  abbrev pub kube_csi_storage_capacity_list_class : Checks P X → ApiClass P X
  kube_csi_storage_capacity_list_class =
      api_class k8s_initialize "k8s.KubeCsiStorageCapacityList" "KubeCsiStorageCapacityList"

  abbrev pub kube_csi_storage_capacity_list_checks : (Option P → Option String) → Checks P X
  kube_csi_storage_capacity_list_checks = required_props_checks

  abbrev pub kube_csi_storage_capacity_list_no_checks : Checks P X
  kube_csi_storage_capacity_list_no_checks = nil_checks

  abbrev pub kube_csi_storage_capacity_list_v1_beta1_class : Checks P X → ApiClass P X
  kube_csi_storage_capacity_list_v1_beta1_class =
      api_class k8s_initialize "k8s.KubeCsiStorageCapacityListV1Beta1"
        "KubeCsiStorageCapacityListV1Beta1"

  abbrev pub kube_csi_storage_capacity_list_v1_beta1_checks :
      (Option P → Option String) → Checks P X
  kube_csi_storage_capacity_list_v1_beta1_checks = required_props_checks

  abbrev pub kube_csi_storage_capacity_list_v1_beta1_no_checks : Checks P X
  kube_csi_storage_capacity_list_v1_beta1_no_checks = nil_checks

  abbrev pub kube_csi_storage_capacity_v1_beta1_class : Checks P X → ApiClass P X
  kube_csi_storage_capacity_v1_beta1_class =
      api_class k8s_initialize "k8s.KubeCsiStorageCapacityV1Beta1" "KubeCsiStorageCapacityV1Beta1"

  abbrev pub kube_csi_storage_capacity_v1_beta1_checks : (Option P → Option String) → Checks P X
  kube_csi_storage_capacity_v1_beta1_checks = required_props_checks

  abbrev pub kube_csi_storage_capacity_v1_beta1_no_checks : Checks P X
  kube_csi_storage_capacity_v1_beta1_no_checks = nil_checks

  abbrev pub kube_storage_class_class : Checks P X → ApiClass P X
  kube_storage_class_class = api_class k8s_initialize "k8s.KubeStorageClass" "KubeStorageClass"

  abbrev pub kube_storage_class_checks : (Option P → Option String) → Checks P X
  kube_storage_class_checks = required_props_checks

  abbrev pub kube_storage_class_no_checks : Checks P X
  kube_storage_class_no_checks = nil_checks

  abbrev pub kube_storage_class_list_class : Checks P X → ApiClass P X
  kube_storage_class_list_class =
      api_class k8s_initialize "k8s.KubeStorageClassList" "KubeStorageClassList"

  abbrev pub kube_storage_class_list_checks : (Option P → Option String) → Checks P X
  kube_storage_class_list_checks = required_props_checks

  abbrev pub kube_storage_class_list_no_checks : Checks P X
  kube_storage_class_list_no_checks = nil_checks

  abbrev pub kube_volume_attachment_class : Checks P X → ApiClass P X
  kube_volume_attachment_class =
      api_class k8s_initialize "k8s.KubeVolumeAttachment" "KubeVolumeAttachment"

  abbrev pub kube_volume_attachment_checks : (Option P → Option String) → Checks P X
  kube_volume_attachment_checks = required_props_checks

  abbrev pub kube_volume_attachment_no_checks : Checks P X
  kube_volume_attachment_no_checks = nil_checks

  abbrev pub kube_volume_attachment_list_class : Checks P X → ApiClass P X
  kube_volume_attachment_list_class =
      api_class k8s_initialize "k8s.KubeVolumeAttachmentList" "KubeVolumeAttachmentList"

  abbrev pub kube_volume_attachment_list_checks : (Option P → Option String) → Checks P X
  kube_volume_attachment_list_checks = required_props_checks

  abbrev pub kube_volume_attachment_list_no_checks : Checks P X
  kube_volume_attachment_list_no_checks = nil_checks
