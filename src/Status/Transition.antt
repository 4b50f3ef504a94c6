-- ===== src/Status/Transition.antt =====
-- internal/status: when a condition's time changes, and that a second look changes nothing.
use pos_data_showcase.Prelude.{
  ◌≡◌, ◌∙◌, refl, ◌<>◌, true, Option, none, some, List, [], ◌∷◌, arith, if◌then◌else◌,
}
use mathlib.Core.Option
use pos_data_showcase.Prelude.Decimal.{decimal}
use pos_data_showcase.Kube.Objects.{StatefulSet, Time}
use pos_data_showcase.Status.{
  RabbitmqClusterCondition, RabbitmqClusterConditionType, ConditionStatus, condition_true,
  condition_false, condition_unknown, all_replicas_ready, cluster_available, no_warnings, Resource,
  stateful_set, endpoints, other_resource, status_eq, start_condition, assign_last_transition_time,
  scan_replicas, scan_endpoints, scan_memory, all_replicas_ready_condition,
  cluster_available_condition, no_warnings_condition,
}

-- The scans do not read the condition's time, and leave it alone.
abbrev with_time : Time → RabbitmqClusterCondition → RabbitmqClusterCondition
with_time t c = record c { last_transition_time = t }

abbrev not_ready : StatefulSet → RabbitmqClusterCondition → RabbitmqClusterCondition
not_ready sts c = record c {
  status = condition_false;
  reason = "NotAllPodsReady";
  message =
      decimal sts.ready_replicas
      <> ("/" <> (decimal (Option.get_or sts.replicas 1) <> " Pods ready"));
}

scan_replicas-with_time :
    (t : Time) (resources : List Resource) (c : RabbitmqClusterCondition)
    → scan_replicas resources (with_time t c) ≡ with_time t (scan_replicas resources c)
unfolding scan_replicas
scan_replicas-with_time t [] c = refl
scan_replicas-with_time t (stateful_set none ∷ rest) c = refl
scan_replicas-with_time t (stateful_set (some r) ∷ rest) c =
    ground (arith, scan_replicas-with_time t rest (not_ready r c))
scan_replicas-with_time t (endpoints _ ∷ rest) c = scan_replicas-with_time t rest c
scan_replicas-with_time t (other_resource ∷ rest) c = scan_replicas-with_time t rest c

scan_endpoints-with_time :
    (t : Time) (resources : List Resource) (c : RabbitmqClusterCondition)
    → scan_endpoints resources (with_time t c) ≡ with_time t (scan_endpoints resources c)
unfolding scan_endpoints
scan_endpoints-with_time t [] c = refl
scan_endpoints-with_time t (stateful_set _ ∷ rest) c = scan_endpoints-with_time t rest c
scan_endpoints-with_time t (endpoints none ∷ rest) c = refl
scan_endpoints-with_time t (endpoints (some r) ∷ rest) c = ground (
  arith,
  scan_endpoints-with_time t rest (record c {
    status = condition_false;
    reason = "NoEndpointsAvailable";
    message = "The service has no endpoints available";
  }),
)
scan_endpoints-with_time t (other_resource ∷ rest) c = scan_endpoints-with_time t rest c

scan_memory-with_time :
    (t : Time) (resources : List Resource) (c : RabbitmqClusterCondition)
    → scan_memory resources (with_time t c) ≡ with_time t (scan_memory resources c)
unfolding scan_memory
scan_memory-with_time t [] c = refl
scan_memory-with_time t (stateful_set none ∷ rest) c = refl
scan_memory-with_time t (stateful_set (some r) ∷ rest) c = ground (
  arith,
  scan_memory-with_time t rest (record c { status = condition_true; reason = "NoWarnings" }),
)
scan_memory-with_time t (endpoints _ ∷ rest) c = scan_memory-with_time t rest c
scan_memory-with_time t (other_resource ∷ rest) c = scan_memory-with_time t rest c

status_eq_refl : (s : ConditionStatus) → status_eq s s ≡ true
status_eq_refl condition_true = refl
status_eq_refl condition_false = refl
status_eq_refl condition_unknown = refl

module _ (condition_type : RabbitmqClusterConditionType)
    (scan : RabbitmqClusterCondition → RabbitmqClusterCondition)
    (blind : (t : Time) (c : RabbitmqClusterCondition)
      → scan (with_time t c) ≡ with_time t (scan c)) where
  -- What the condition is, but for its time.
  abbrev found : RabbitmqClusterCondition
  found = scan (start_condition condition_type none)

  abbrev old_time : Option RabbitmqClusterCondition → Time → Time
  old_time none now = now
  old_time (some old) now =
      if status_eq old.status found.status then old.last_transition_time else now

  abbrev assigned : Time → Option RabbitmqClusterCondition → RabbitmqClusterCondition
  assigned now old = assign_last_transition_time now old (scan (start_condition condition_type old))

  assigned_lem :
      (now : Time) (old : Option RabbitmqClusterCondition)
      → assigned now old ≡ with_time (old_time old now) found
  unfolding start_condition assign_last_transition_time
  assigned_lem now none = refl
  assigned_lem now (some old) =
      ground (arith, blind old.last_transition_time (start_condition condition_type none))

  assigned_idem :
      (now now' : Time) (old : Option RabbitmqClusterCondition)
      → assigned now' (some (assigned now old)) ≡ assigned now old
  assigned_idem now now' old = ground (
    arith,
    assigned_lem now old,
    assigned_lem now' (some (assigned now old)),
    status_eq_refl found.status,
  )

  assigned_time :
      (now : Time) (old : RabbitmqClusterCondition)
      → (assigned now (some old)).last_transition_time ≡ (
          if status_eq old.status (assigned now (some old)).status
          then old.last_transition_time
          else now)
  assigned_time now old = ground (arith, assigned_lem now (some old))

-- Computing the condition a second time from the same resources and the condition just computed
-- gives that condition again, its time included, however much later that is.
pub all_replicas_ready_condition_idem :
    (now now' : Time) (resources : List Resource) (old : Option RabbitmqClusterCondition)
    → let c = all_replicas_ready_condition now resources old in
      all_replicas_ready_condition now' resources (some c) ≡ c
unfolding all_replicas_ready_condition
all_replicas_ready_condition_idem now now' resources old =
    assigned_idem all_replicas_ready (scan_replicas resources)
      (λ t c. scan_replicas-with_time t resources c) now now' old

pub cluster_available_condition_idem :
    (now now' : Time) (resources : List Resource) (old : Option RabbitmqClusterCondition)
    → let c = cluster_available_condition now resources old in
      cluster_available_condition now' resources (some c) ≡ c
unfolding cluster_available_condition
cluster_available_condition_idem now now' resources old =
    assigned_idem cluster_available (scan_endpoints resources)
      (λ t c. scan_endpoints-with_time t resources c) now now' old

pub no_warnings_condition_idem :
    (now now' : Time) (resources : List Resource) (old : Option RabbitmqClusterCondition)
    → let c = no_warnings_condition now resources old in
      no_warnings_condition now' resources (some c) ≡ c
unfolding no_warnings_condition
no_warnings_condition_idem now now' resources old =
    assigned_idem no_warnings (scan_memory resources) (λ t c. scan_memory-with_time t resources c)
      now now' old

-- The time of a recomputed condition: the old one where the status is the old one, else now.
abbrev pub KeepsTime : Time → RabbitmqClusterCondition → RabbitmqClusterCondition → Type 0
KeepsTime now old c =
    c.last_transition_time
    ≡ (if status_eq old.status c.status then old.last_transition_time else now)

-- Each of the three computed conditions has the old condition's transition time if its status is
-- the old one's, and the present time if the status has changed.
pub condition_times :
    (now : Time) (resources : List Resource) (old : RabbitmqClusterCondition)
    → KeepsTime now old (all_replicas_ready_condition now resources (some old))
      × KeepsTime now old (cluster_available_condition now resources (some old))
      × KeepsTime now old (no_warnings_condition now resources (some old))
unfolding all_replicas_ready_condition cluster_available_condition no_warnings_condition
condition_times now resources old = (
  assigned_time all_replicas_ready (scan_replicas resources)
      (λ t c. scan_replicas-with_time t resources c) now old,
  assigned_time cluster_available (scan_endpoints resources)
      (λ t c. scan_endpoints-with_time t resources c) now old,
  assigned_time no_warnings (scan_memory resources) (λ t c. scan_memory-with_time t resources c) now
      old,
)

scan_replicas-type :
    (resources : List Resource) (c : RabbitmqClusterCondition)
    → (scan_replicas resources c).type ≡ c.type
unfolding scan_replicas
scan_replicas-type [] c = refl
scan_replicas-type (stateful_set none ∷ rest) c = refl
scan_replicas-type (stateful_set (some r) ∷ rest) c =
    ground (arith, scan_replicas-type rest (not_ready r c))
scan_replicas-type (endpoints _ ∷ rest) c = scan_replicas-type rest c
scan_replicas-type (other_resource ∷ rest) c = scan_replicas-type rest c

scan_endpoints-type :
    (resources : List Resource) (c : RabbitmqClusterCondition)
    → (scan_endpoints resources c).type ≡ c.type
unfolding scan_endpoints
scan_endpoints-type [] c = refl
scan_endpoints-type (stateful_set _ ∷ rest) c = scan_endpoints-type rest c
scan_endpoints-type (endpoints none ∷ rest) c = refl
scan_endpoints-type (endpoints (some r) ∷ rest) c = ground (
  arith,
  scan_endpoints-type rest (record c {
    status = condition_false;
    reason = "NoEndpointsAvailable";
    message = "The service has no endpoints available";
  }),
)
scan_endpoints-type (other_resource ∷ rest) c = scan_endpoints-type rest c

scan_memory-type :
    (resources : List Resource) (c : RabbitmqClusterCondition)
    → (scan_memory resources c).type ≡ c.type
unfolding scan_memory
scan_memory-type [] c = refl
scan_memory-type (stateful_set none ∷ rest) c = refl
scan_memory-type (stateful_set (some r) ∷ rest) c =
    ground
      (arith, scan_memory-type rest (record c { status = condition_true; reason = "NoWarnings" }))
scan_memory-type (endpoints _ ∷ rest) c = scan_memory-type rest c
scan_memory-type (other_resource ∷ rest) c = scan_memory-type rest c

assign-type :
    (now : Time) (old : Option RabbitmqClusterCondition) (c : RabbitmqClusterCondition)
    → (assign_last_transition_time now old c).type ≡ c.type
unfolding assign_last_transition_time
assign-type now none c = refl
assign-type now (some old) c = ground arith

start_condition-type :
    (t : RabbitmqClusterConditionType) (old : Option RabbitmqClusterCondition)
    → (start_condition t old).type ≡ t
unfolding start_condition
start_condition-type t none = refl
start_condition-type t (some old) = refl

pub all_replicas_ready_condition-type :
    (now : Time) (resources : List Resource) (old : Option RabbitmqClusterCondition)
    → (all_replicas_ready_condition now resources old).type ≡ all_replicas_ready
unfolding all_replicas_ready_condition
all_replicas_ready_condition-type now resources old =
    let c = start_condition all_replicas_ready old in
    assign-type now old (scan_replicas resources c)
    ∙ scan_replicas-type resources c
    ∙ start_condition-type all_replicas_ready old

pub cluster_available_condition-type :
    (now : Time) (resources : List Resource) (old : Option RabbitmqClusterCondition)
    → (cluster_available_condition now resources old).type ≡ cluster_available
unfolding cluster_available_condition
cluster_available_condition-type now resources old =
    let c = start_condition cluster_available old in
    assign-type now old (scan_endpoints resources c)
    ∙ scan_endpoints-type resources c
    ∙ start_condition-type cluster_available old

pub no_warnings_condition-type :
    (now : Time) (resources : List Resource) (old : Option RabbitmqClusterCondition)
    → (no_warnings_condition now resources old).type ≡ no_warnings
unfolding no_warnings_condition
no_warnings_condition-type now resources old =
    let c = start_condition no_warnings old in
    assign-type now old (scan_memory resources c)
    ∙ scan_memory-type resources c
    ∙ start_condition-type no_warnings old
