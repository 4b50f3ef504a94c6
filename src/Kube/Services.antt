-- ===== src/Kube/Services.antt =====
-- corev1.Service of k8s.io/api, as far as the operator reads or writes it. A port without an
-- application protocol has the empty one.
use pos_data_showcase.Prelude.{ℕ, String, Bool, Option, List}
use pos_data_showcase.Prelude.Dict.{Dict}
use pos_data_showcase.Kube.Objects.{OwnerReference}

pub record ServicePort : Type 0 where
  pub name : String
  pub protocol : String
  pub port : ℕ
  pub target_port : ℕ
  pub node_port : ℕ
  pub app_protocol : String

pub record ServiceSpec : Type 0 where
  pub type : String
  pub cluster_ip : String
  pub session_affinity : String
  pub selector : Dict String
  pub ports : List ServicePort
  pub publish_not_ready_addresses : Bool

pub record Service : Type 0 where
  pub name : String
  pub namespace : String
  pub labels : Dict String
  pub annotations : Dict String
  pub spec : ServiceSpec
  pub controller : Option OwnerReference
