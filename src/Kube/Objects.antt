-- ===== src/Kube/Objects.antt =====
-- The fields that the operator reads or writes of the objects of k8s.io/api. A map is a `Dict`, and
-- a pointer that may be nil an `Option`. int32 counts such as replicas are natural numbers, as the
-- API server's validation has them.
use pos_data_showcase.Prelude.{ℕ, Bool, String, Option, List}
use pos_data_showcase.Prelude.Dict.{Dict}
use pos_data_showcase.Kube.Pods.{Quantity, PodTemplate}

-- metav1.Time: a number of seconds; 0 is the zero time.
abbrev pub Time : Type 0
Time = ℕ

pub record OwnerReference : Type 0 where
  pub api_version : String
  pub kind : String
  pub name : String
  pub uid : String
  pub block_owner_deletion : Option Bool

pub record PersistentVolumeClaim : Type 0 where
  pub name : String
  pub namespace : String
  pub labels : Dict String
  pub annotations : Dict String
  pub owner_references : List OwnerReference
  pub requests : Dict Quantity
  pub access_modes : List String
  pub storage_class_name : Option String

-- `partition` is that of a rolling update.
pub record UpdateStrategy : Type 0 where
  pub type : String
  pub partition : Option ℕ

-- `match_labels` is the selector, `controller` the owner reference of the controller.
pub record StatefulSet : Type 0 where
  pub name : String
  pub namespace : String
  pub uid : String
  pub labels : Dict String
  pub annotations : Dict String
  pub controller : Option OwnerReference
  pub service_name : String
  pub match_labels : Dict String
  pub pod_management_policy : String
  pub update_strategy : UpdateStrategy
  pub replicas : Option ℕ
  pub template : PodTemplate
  pub volume_claim_templates : List PersistentVolumeClaim
  pub ready_replicas : ℕ
  pub current_revision : String
  pub update_revision : String

-- `content` is the field Data.
pub record ConfigMap : Type 0 where
  pub name : String
  pub namespace : String
  pub labels : Dict String
  pub annotations : Dict String
  pub content : Dict String
  pub controller : Option OwnerReference

-- corev1.Secret.
pub record Secret : Type 0 where
  pub name : String
  pub namespace : String
  pub labels : Dict String
  pub annotations : Dict String
  pub type : String
  pub content : Dict String
  pub controller : Option OwnerReference

-- Of a subset of the endpoints, the addresses that are ready.
pub record EndpointSubset : Type 0 where
  pub addresses : List String

pub record Endpoints : Type 0 where
  pub subsets : List EndpointSubset

-- `map[ResourceName]Quantity` gives the zero quantity under a missing key.
abbrev pub or_zero : Option Quantity → Quantity
or_zero (Option.some q) = q
or_zero Option.none = 0
