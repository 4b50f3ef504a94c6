-- ===== src/Kube/Pods.antt =====
-- The fields of a pod (k8s.io/api/core/v1) that the operator writes or reads. A map is a `Dict`, a
-- pointer that may be nil an `Option`, and a security context the map of its settings.
use pos_data_showcase.Prelude.{ℕ, Bool, String, Option, List, ◌∷◌}
use pos_data_showcase.Prelude.Dict.{Dict}

-- resource.Quantity: an amount, ordered by `Cmp`. The operator reads amounts of storage and memory,
-- which are not negative.
abbrev pub Quantity : Type 0
Quantity = ℕ

pub record ResourceRequirements : Type 0 where
  pub limits : Dict Quantity
  pub requests : Dict Quantity

-- `field_path` is that of `ValueFrom.FieldRef`.
pub record EnvVar : Type 0 where
  pub name : String
  pub value : String
  pub field_path : Option String

pub record VolumeMount : Type 0 where
  pub name : String
  pub mount_path : String
  pub sub_path : String
  pub read_only : Bool

pub record ContainerPort : Type 0 where
  pub name : String
  pub container_port : ℕ

-- A source of a projected volume; an item is projected to a path of the same name, and no items
-- stand for all of them.
pub data VolumeProjection : Type 0 where
  config_map_projection : (name : String) (items : List String) → VolumeProjection
  secret_projection :
      (name : String) (items : List String) (optional : Option Bool) → VolumeProjection

-- `projected` has the `DefaultMode`, `downward_api` its items as pairs of a path and a field path.
pub data VolumeSource : Type 0 where
  config_map : String → VolumeSource
  secret : String → VolumeSource
  empty_dir : VolumeSource
  projected : List VolumeProjection → Option ℕ → VolumeSource
  downward_api : List (String × String) → VolumeSource

pub record Volume : Type 0 where
  pub name : String
  pub source : VolumeSource

-- `readiness_port` is that of the TCP readiness probe, `pre_stop` the command of the hook.
pub record Container : Type 0 where
  pub name : String
  pub image : String
  pub command : List String
  pub args : List String
  pub resources : ResourceRequirements
  pub env : List EnvVar
  pub volume_mounts : List VolumeMount
  pub ports : List ContainerPort
  pub readiness_port : Option String
  pub pre_stop : List String
  pub security_context : Option (Dict String)

pub record TopologySpreadConstraint : Type 0 where
  pub max_skew : ℕ
  pub topology_key : String
  pub when_unsatisfiable : String
  pub match_labels : Dict String

-- A pod has at least one container: `container` is `Containers[0]`.
pub record PodSpec : Type 0 where
  pub topology_spread_constraints : List TopologySpreadConstraint
  pub security_context : Option (Dict String)
  pub image_pull_secrets : Option (List String)
  pub termination_grace_period_seconds : Option ℕ
  pub service_account_name : String
  pub automount_service_account_token : Bool
  pub init_containers : List Container
  pub volumes : List Volume
  pub container : Container
  pub other_containers : List Container

pub record PodTemplate : Type 0 where
  pub name : String
  pub labels : Dict String
  pub annotations : Dict String
  pub spec : PodSpec

-- `Containers`
abbrev pub containers : PodSpec → List Container
containers spec = spec.container ∷ spec.other_containers
