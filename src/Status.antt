-- ===== src/Status.antt =====
-- internal/status: the conditions of a RabbitmqCluster, each computed from its child resources.
-- `time.Now()` is the argument `now`.
pub mod Transition
pub mod Reports
use pos_data_showcase.Prelude.{
  ℕ, String, ◌<>◌, Bool, true, false, not, Option, none, some, List, [], ◌∷◌, ◌==◌, ltb, length,
  if◌then◌else◌,
}
use mathlib.Core.Option
use pos_data_showcase.Prelude.Decimal.{decimal}
use pos_data_showcase.Prelude.Dict.{lookup}
use pos_data_showcase.Kube.Objects.{StatefulSet, Endpoints, EndpointSubset, Time, or_zero}

-- The kinds of conditions that the operator itself writes, and any other text.
pub data RabbitmqClusterConditionType : Type 0 where
  all_replicas_ready cluster_available no_warnings reconcile_success : RabbitmqClusterConditionType
  other_type : String → RabbitmqClusterConditionType

-- corev1.ConditionStatus
pub data ConditionStatus : Type 0 where
  condition_true condition_false condition_unknown : ConditionStatus

abbrev pub status_eq : ConditionStatus → ConditionStatus → Bool
status_eq condition_true condition_true = true
status_eq condition_false condition_false = true
status_eq condition_unknown condition_unknown = true
status_eq _ _ = false

pub record RabbitmqClusterCondition : Type 0 where
  pub type : RabbitmqClusterConditionType
  pub status : ConditionStatus
  pub last_transition_time : Time
  pub reason : String
  pub message : String

-- `[]runtime.Object`: a typed pointer that may be nil, or an object of another type.
pub data Resource : Type 0 where
  stateful_set : Option StatefulSet → Resource
  endpoints : Option Endpoints → Resource
  other_resource : Resource

unfoldable pub new_rabbitmq_cluster_condition :
    RabbitmqClusterConditionType → RabbitmqClusterCondition
new_rabbitmq_cluster_condition condition_type = record {
  type = condition_type;
  status = condition_unknown;
  last_transition_time = 0;
  reason = "";
  message = "";
}

unfoldable pub update_state :
    Time → ConditionStatus → RabbitmqClusterCondition → RabbitmqClusterCondition
update_state now status condition = record condition {
  last_transition_time =
      if not (status_eq condition.status status) then now else condition.last_transition_time;
  status = status;
}

-- `strings.Join(messages, ". ")`
abbrev pub join : String → List String → String
join sep [] = ""
join sep (s ∷ []) = s
join sep (s ∷ t ∷ rest) = s <> (sep <> join sep (t ∷ rest))

unfoldable pub update_reason :
    String → List String → RabbitmqClusterCondition → RabbitmqClusterCondition
update_reason reason messages condition = record condition {
  reason = reason;
  message = join ". " messages;
}

-- The first lines of the three condition functions: a new condition with the old one's time.
unfoldable pub start_condition :
    RabbitmqClusterConditionType → Option RabbitmqClusterCondition → RabbitmqClusterCondition
unfolding new_rabbitmq_cluster_condition
start_condition condition_type none = new_rabbitmq_cluster_condition condition_type
start_condition condition_type (some old) = record (new_rabbitmq_cluster_condition condition_type) {
  last_transition_time = old.last_transition_time;
}

-- `assignLastTransitionTime`
unfoldable pub assign_last_transition_time :
    Time → Option RabbitmqClusterCondition → RabbitmqClusterCondition → RabbitmqClusterCondition
assign_last_transition_time now none condition = record condition { last_transition_time = now }
assign_last_transition_time now (some old) condition =
    if not (status_eq old.status condition.status)
    then record condition { last_transition_time = now }
    else condition

-- all_replicas_ready.go: the loop over the resources; a result that is returned without the rest of
-- the list is a `goto assignLastTransitionTime`.
unfoldable pub scan_replicas : List Resource → RabbitmqClusterCondition → RabbitmqClusterCondition
scan_replicas [] condition = condition
scan_replicas (stateful_set none ∷ rest) condition = record condition {
  status = condition_unknown;
  reason = "MissingStatefulSet";
  message = "Could not find StatefulSet";
}
scan_replicas (stateful_set (some sts) ∷ rest) condition =
    let desired_replicas : ℕ = Option.get_or sts.replicas 1 in
    let not_ready = scan_replicas rest (record condition {
      status = condition_false;
      reason = "NotAllPodsReady";
      message = decimal sts.ready_replicas <> ("/" <> (decimal desired_replicas <> " Pods ready"));
    }) in
    if desired_replicas == sts.ready_replicas
    then record condition { status = condition_true; reason = "AllPodsAreReady" }
    else not_ready
scan_replicas (endpoints _ ∷ rest) condition = scan_replicas rest condition
scan_replicas (other_resource ∷ rest) condition = scan_replicas rest condition

unfoldable pub all_replicas_ready_condition :
    Time → List Resource → Option RabbitmqClusterCondition → RabbitmqClusterCondition
all_replicas_ready_condition now resources old =
    assign_last_transition_time now old
      (scan_replicas resources (start_condition all_replicas_ready old))

-- cluster_available.go: does a subset have an address?
unfoldable pub has_address : List EndpointSubset → Bool
has_address [] = false
has_address (subset ∷ rest) = if ltb 0 (length subset.addresses) then true else has_address rest

unfoldable pub scan_endpoints : List Resource → RabbitmqClusterCondition → RabbitmqClusterCondition
scan_endpoints [] condition = condition
scan_endpoints (endpoints none ∷ rest) condition = record condition {
  status = condition_unknown;
  reason = "CouldNotRetrieveEndpoints";
  message = "Could not verify available service endpoints";
}
scan_endpoints (endpoints (some e) ∷ rest) condition =
    let unavailable = scan_endpoints rest (record condition {
      status = condition_false;
      reason = "NoEndpointsAvailable";
      message = "The service has no endpoints available";
    }) in
    if has_address e.subsets
    then record condition { status = condition_true; reason = "AtLeastOneEndpointAvailable" }
    else unavailable
scan_endpoints (stateful_set _ ∷ rest) condition = scan_endpoints rest condition
scan_endpoints (other_resource ∷ rest) condition = scan_endpoints rest condition

unfoldable pub cluster_available_condition :
    Time → List Resource → Option RabbitmqClusterCondition → RabbitmqClusterCondition
cluster_available_condition now resources old =
    assign_last_transition_time now old
      (scan_endpoints resources (start_condition cluster_available old))

-- no_warnings.go: the memory limit and request of `Containers[0]`.
unfoldable pub memory_differs : StatefulSet → Bool
memory_differs sts =
    let resources = sts.template.spec.container.resources in
    not (or_zero (lookup "memory" resources.limits) == or_zero (lookup "memory" resources.requests))

unfoldable pub scan_memory : List Resource → RabbitmqClusterCondition → RabbitmqClusterCondition
scan_memory [] condition = condition
scan_memory (stateful_set none ∷ rest) condition = record condition {
  status = condition_unknown;
  reason = "MissingStatefulSet";
  message = "Could not find StatefulSet";
}
scan_memory (stateful_set (some sts) ∷ rest) condition =
    let equal =
      scan_memory rest (record condition { status = condition_true; reason = "NoWarnings" }) in
    if memory_differs sts
    then record condition {
      status = condition_false;
      reason = "MemoryRequestAndLimitDifferent";
      message = "RabbitMQ container memory resource request and limit must be equal";
    }
    else equal
scan_memory (endpoints _ ∷ rest) condition = scan_memory rest condition
scan_memory (other_resource ∷ rest) condition = scan_memory rest condition

unfoldable pub no_warnings_condition :
    Time → List Resource → Option RabbitmqClusterCondition → RabbitmqClusterCondition
no_warnings_condition now resources old =
    assign_last_transition_time now old (scan_memory resources (start_condition no_warnings old))

-- reconcile_success.go
unfoldable pub reconcile_success_condition :
    Time → ConditionStatus → String → String → RabbitmqClusterCondition
reconcile_success_condition now status reason message = record {
  type = reconcile_success;
  status = status;
  last_transition_time = now;
  reason = reason;
  message = message;
}
