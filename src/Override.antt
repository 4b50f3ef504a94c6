-- ===== src/Override.antt =====
-- api/v1beta1/rabbitmqcluster_types.go: what a user may override of the StatefulSet and of the
-- client service. A nil map and an empty one are the same `Dict`.
use pos_data_showcase.Prelude.{ℕ, String, Option, List}
use pos_data_showcase.Prelude.Dict.{Dict}
use pos_data_showcase.Kube.Objects.{UpdateStrategy}
use pos_data_showcase.Kube.Services.{ServiceSpec}
use pos_data_showcase.Kube.Pods.{Quantity, EnvVar, VolumeMount, Volume}

pub record EmbeddedLabelsAnnotations : Type 0 where
  pub labels : Dict String
  pub annotations : Dict String

pub record EmbeddedObjectMeta : Type 0 where
  pub name : String
  pub namespace : String
  pub labels : Dict String
  pub annotations : Dict String

-- corev1.Container in an override, where a list may be left out.
pub record ContainerOverride : Type 0 where
  pub name : String
  pub image : String
  pub env : Option (List EnvVar)
  pub volume_mounts : Option (List VolumeMount)
  pub security_context : Option (Dict String)

-- corev1.PodSpec in an override.
pub record PodSpecOverride : Type 0 where
  pub containers : List ContainerOverride
  pub init_containers : List ContainerOverride
  pub volumes : List Volume
  pub security_context : Option (Dict String)
  pub service_account_name : String
  pub termination_grace_period_seconds : Option ℕ

pub record PodTemplateSpec : Type 0 where
  pub metadata : Option EmbeddedObjectMeta
  pub spec : Option PodSpecOverride

-- The operator's own PersistentVolumeClaim type.
pub record ClaimOverride : Type 0 where
  pub metadata : EmbeddedObjectMeta
  pub requests : Dict Quantity
  pub access_modes : List String
  pub storage_class_name : Option String

pub record StatefulSetSpec : Type 0 where
  pub replicas : Option ℕ
  pub selector : Option (Dict String)
  pub template : Option PodTemplateSpec
  pub volume_claim_templates : List ClaimOverride
  pub service_name : String
  pub pod_management_policy : String
  pub update_strategy : Option UpdateStrategy

-- The operator's own StatefulSet type.
pub record StatefulSetOverride : Type 0 where
  pub metadata : Option EmbeddedLabelsAnnotations
  pub spec : Option StatefulSetSpec

-- The operator's own Service type.
pub record ServiceOverride : Type 0 where
  pub metadata : Option EmbeddedLabelsAnnotations
  pub spec : Option ServiceSpec

pub record RabbitmqClusterOverrideSpec : Type 0 where
  pub stateful_set : Option StatefulSetOverride
  pub service : Option ServiceOverride
