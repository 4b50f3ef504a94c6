-- ===== src/ClusterStatus/Laws.antt =====
-- api/v1beta1/rabbitmqcluster_status.go: writing the computed conditions, and writing one of them.
use pos_data_showcase.Prelude.{◌≡◌, refl, Option, none, some, List, [], ◌∷◌, map}
use pos_data_showcase.Kube.Objects.{Time}
use pos_data_showcase.Status.{
  RabbitmqClusterCondition, RabbitmqClusterConditionType, all_replicas_ready, cluster_available,
  no_warnings, reconcile_success, other_type, Resource, all_replicas_ready_condition,
  cluster_available_condition, no_warnings_condition, reconcile_success_condition,
}
use pos_data_showcase.Status.Transition.{
  all_replicas_ready_condition_idem, cluster_available_condition_idem, no_warnings_condition_idem,
  all_replicas_ready_condition-type, cluster_available_condition-type, no_warnings_condition-type,
}
use pos_data_showcase.ClusterStatus.{
  RabbitmqClusterStatus, OldConditions, keep_old, collect_old, no_old_conditions, or_initialising,
  compute_conditions, set_conditions,
}

-- What the operator reads of the conditions before it computes them anew.
abbrev pub old_of : RabbitmqClusterStatus → OldConditions
old_of status = collect_old status.conditions no_old_conditions

-- An old ReconcileSuccess condition stands under its type.
abbrev IsReconcile : Option RabbitmqClusterCondition → Type 0
IsReconcile none = Unit
IsReconcile (some c) = c.type ≡ reconcile_success

abbrev ReconcileTyped : OldConditions → Type 0
ReconcileTyped old = IsReconcile old.reconcile

keep_old-ReconcileTyped :
    (t : RabbitmqClusterConditionType) (c : RabbitmqClusterCondition) (old : OldConditions)
    → c.type ≡ t
    → ReconcileTyped old
    → ReconcileTyped (keep_old t c old)
unfolding keep_old
keep_old-ReconcileTyped all_replicas_ready c old e h = h
keep_old-ReconcileTyped cluster_available c old e h = h
keep_old-ReconcileTyped no_warnings c old e h = h
keep_old-ReconcileTyped reconcile_success c old e h = e
keep_old-ReconcileTyped (other_type s) c old e h = h

collect_old-ReconcileTyped :
    (cs : List RabbitmqClusterCondition) (old : OldConditions)
    → ReconcileTyped old
    → ReconcileTyped (collect_old cs old)
unfolding collect_old
collect_old-ReconcileTyped [] old h = h
collect_old-ReconcileTyped (c ∷ rest) old h =
    collect_old-ReconcileTyped rest (keep_old c.type c old)
      (keep_old-ReconcileTyped c.type c old refl h)

or_initialising-type :
    (now : Time) (o : Option RabbitmqClusterCondition)
    → IsReconcile o
    → (or_initialising now o).type ≡ reconcile_success
unfolding reconcile_success_condition
or_initialising-type now none h = refl
or_initialising-type now (some c) h = h

-- After `SetConditions` the status holds exactly the four conditions of the operator, once each, in
-- this order, whatever conditions it held before.
pub set_conditions_types :
    (now : Time) (resources : List Resource) (status : RabbitmqClusterStatus)
    → map (λ c. c.type) (set_conditions now resources status).conditions
      ≡ all_replicas_ready ∷ cluster_available ∷ no_warnings ∷ reconcile_success ∷ []
unfolding set_conditions compute_conditions
set_conditions_types now resources status =
    let old = old_of status in
    cc (
      all_replicas_ready_condition-type now resources old.replicas,
      cluster_available_condition-type now resources old.available,
      no_warnings_condition-type now resources old.warnings,
      or_initialising-type now old.reconcile
          (collect_old-ReconcileTyped status.conditions no_old_conditions tt),
    )

-- Reading back the four conditions gives each where it was written.
collect_old_four :
    (a b c d : RabbitmqClusterCondition)
    → a.type ≡ all_replicas_ready
    → b.type ≡ cluster_available
    → c.type ≡ no_warnings
    → d.type ≡ reconcile_success
    → collect_old (a ∷ b ∷ c ∷ d ∷ []) no_old_conditions
      ≡ record { replicas = some a; available = some b; warnings = some c; reconcile = some d }
unfolding collect_old keep_old
collect_old_four a b c d ea eb ec ed = rw (ea, eb, ec, ed)

-- Setting the conditions a second time from the same child resources changes nothing, however much
-- later it is done: neither a status nor a transition time moves.
pub set_conditions_idem :
    (now now' : Time) (resources : List Resource) (status : RabbitmqClusterStatus)
    → set_conditions now' resources (set_conditions now resources status)
      ≡ set_conditions now resources status
unfolding set_conditions compute_conditions
set_conditions_idem now now' resources status =
    let old = old_of status in
    let reconcile = or_initialising now old.reconcile in
    rw
      (collect_old_four (all_replicas_ready_condition now resources old.replicas)
        (cluster_available_condition now resources old.available)
        (no_warnings_condition now resources old.warnings) reconcile
        (all_replicas_ready_condition-type now resources old.replicas)
        (cluster_available_condition-type now resources old.available)
        (no_warnings_condition-type now resources old.warnings)
        (or_initialising-type now old.reconcile
          (collect_old-ReconcileTyped status.conditions no_old_conditions tt)))
      (rw (
        all_replicas_ready_condition_idem now now' resources old.replicas,
        cluster_available_condition_idem now now' resources old.available,
        no_warnings_condition_idem now now' resources old.warnings,
      ))
