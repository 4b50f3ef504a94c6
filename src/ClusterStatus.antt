-- ===== src/ClusterStatus.antt =====
-- api/v1beta1/rabbitmqcluster_status.go: the status of a RabbitmqCluster and the two ways in which
-- its conditions are written.
pub mod Laws
pub mod SetCondition
use pos_data_showcase.Prelude.{
  ℕ, String, Bool, true, false, Option, none, some, List, [], ◌∷◌, if◌then◌else◌, str_eq,
}
use pos_data_showcase.Prelude.Dict.{Dict}
use pos_data_showcase.Kube.Objects.{Time}
use pos_data_showcase.Status.{
  RabbitmqClusterCondition, RabbitmqClusterConditionType, ConditionStatus, condition_unknown,
  all_replicas_ready, cluster_available, no_warnings, reconcile_success, other_type, Resource,
  all_replicas_ready_condition, cluster_available_condition, no_warnings_condition,
  reconcile_success_condition, update_state, update_reason,
}

pub record RabbitmqClusterSecretReference : Type 0 where
  pub name : String
  pub namespace : String
  pub keys : Dict String

pub record RabbitmqClusterServiceReference : Type 0 where
  pub name : String
  pub namespace : String

pub record RabbitmqClusterDefaultUser : Type 0 where
  pub secret_reference : Option RabbitmqClusterSecretReference
  pub service_reference : Option RabbitmqClusterServiceReference

-- `binding` is the name in the LocalObjectReference.
pub record RabbitmqClusterStatus : Type 0 where
  pub conditions : List RabbitmqClusterCondition
  pub default_user : Option RabbitmqClusterDefaultUser
  pub binding : Option String
  pub observed_generation : ℕ

-- The four variables that the first loop of `SetConditions` fills.
pub record OldConditions : Type 0 where
  pub replicas : Option RabbitmqClusterCondition
  pub available : Option RabbitmqClusterCondition
  pub warnings : Option RabbitmqClusterCondition
  pub reconcile : Option RabbitmqClusterCondition

-- The `switch` of that loop: a later condition of a type replaces an earlier one.
unfoldable pub keep_old :
    RabbitmqClusterConditionType → RabbitmqClusterCondition → OldConditions → OldConditions
keep_old all_replicas_ready c old = record old { replicas = some c }
keep_old cluster_available c old = record old { available = some c }
keep_old no_warnings c old = record old { warnings = some c }
keep_old reconcile_success c old = record old { reconcile = some c }
keep_old (other_type _) c old = old

unfoldable pub collect_old : List RabbitmqClusterCondition → OldConditions → OldConditions
collect_old [] old = old
collect_old (c ∷ rest) old = collect_old rest (keep_old c.type c old)

abbrev pub no_old_conditions : OldConditions
no_old_conditions = record { replicas = none; available = none; warnings = none; reconcile = none }

abbrev pub or_initialising : Time → Option RabbitmqClusterCondition → RabbitmqClusterCondition
or_initialising now (some c) = c
or_initialising now none = reconcile_success_condition now condition_unknown "Initialising" ""

-- The conditions that are written, from the old ones.
unfoldable pub compute_conditions :
    Time → List Resource → OldConditions → List RabbitmqClusterCondition
compute_conditions now resources old =
    all_replicas_ready_condition now resources old.replicas
    ∷ cluster_available_condition now resources old.available
    ∷ no_warnings_condition now resources old.warnings
    ∷ or_initialising now old.reconcile
    ∷ []

unfoldable pub set_conditions : Time → List Resource → RabbitmqClusterStatus → RabbitmqClusterStatus
set_conditions now resources status = record status {
  conditions = compute_conditions now resources (collect_old status.conditions no_old_conditions);
}

abbrev pub type_eq : RabbitmqClusterConditionType → RabbitmqClusterConditionType → Bool
type_eq all_replicas_ready all_replicas_ready = true
type_eq cluster_available cluster_available = true
type_eq no_warnings no_warnings = true
type_eq reconcile_success reconcile_success = true
type_eq (other_type s) (other_type t) = str_eq s t
type_eq _ _ = false

-- The loop of `SetCondition`: the first condition of the type is updated.
unfoldable pub update_first :
    Time
    → RabbitmqClusterConditionType
    → ConditionStatus
    → String
    → List String
    → List RabbitmqClusterCondition
    → List RabbitmqClusterCondition
update_first now cond_type cond_status reason messages [] = []
update_first now cond_type cond_status reason messages (c ∷ rest) =
    if type_eq c.type cond_type
    then update_reason reason messages (update_state now cond_status c) ∷ rest
    else c ∷ update_first now cond_type cond_status reason messages rest

unfoldable pub set_condition :
    Time
    → RabbitmqClusterConditionType
    → ConditionStatus
    → String
    → List String
    → RabbitmqClusterStatus
    → RabbitmqClusterStatus
set_condition now cond_type cond_status reason messages status = record status {
  conditions = update_first now cond_type cond_status reason messages status.conditions;
}
