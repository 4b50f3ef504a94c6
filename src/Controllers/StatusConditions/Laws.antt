-- ===== src/Controllers/StatusConditions/Laws.antt =====
-- controllers/rabbitmqcluster_controller.go: when `updateStatusConditions` writes to the server.
use pos_data_showcase.Prelude.{true, List, [], ◌∷◌, ◌≡◌, refl, sym, ap, ◌∙◌, arith, eq_refl}
use pos_data_showcase.Kube.Objects.{Time}
use pos_data_showcase.Kube.Exec.{ok}
use pos_data_showcase.Status.{
  Resource, RabbitmqClusterCondition, ConditionStatus, status_eq, condition_true, condition_false,
  condition_unknown,
}
use pos_data_showcase.ClusterStatus.{set_conditions, RabbitmqClusterStatus}
use pos_data_showcase.ClusterStatus.Laws.{set_conditions_idem}
use pos_data_showcase.ClusterStatus.SetCondition.{type_eq_refl}
use pos_data_showcase.Controllers.{Reconciler, Loop}
use pos_data_showcase.Controllers.StatusConditions.{
  conditions_eq, get_child_resources, write_conditions, update_status_conditions,
}

status_eq_refl : (st : ConditionStatus) → status_eq st st ≡ true
status_eq_refl condition_true = refl
status_eq_refl condition_false = refl
status_eq_refl condition_unknown = refl

conditions_eq_refl : (cs : List RabbitmqClusterCondition) → conditions_eq cs cs ≡ true
unfolding conditions_eq
conditions_eq_refl [] = refl
conditions_eq_refl (c ∷ cs) = ground (
  arith,
  type_eq_refl c.type,
  status_eq_refl c.status,
  eq_refl c.reason,
  eq_refl c.message,
  conditions_eq_refl cs,
)

-- Where the status holds the conditions of an earlier pass for the same child resources, the pass
-- changes neither the object nor the world beyond its reads, and asks for no requeue: nothing is
-- written to the server, however much later it runs.
pub update_status_conditions_quiet :
    {W : Type 0} (r : Reconciler W) (s : Loop W) (resources : List Resource) (w' : W)
    (before : Time) (status : RabbitmqClusterStatus)
    → s.cluster.status ≡ set_conditions before resources status
    → get_child_resources r s.cluster s.world ≡ (ok resources, w')
    → update_status_conditions r s ≡ (ok 0, record s { world = w' })
unfolding update_status_conditions write_conditions
update_status_conditions_quiet r s resources w' before status settled read =
    let now = r.now w' in
    let same : set_conditions now resources s.cluster.status ≡ s.cluster.status =
      ap (set_conditions now resources) settled
      ∙ set_conditions_idem before now resources status
      ∙ sym settled in
    let unchanged : conditions_eq (set_conditions now resources s.cluster.status).conditions
          s.cluster.status.conditions
        ≡ true =
      ap (λ (st : RabbitmqClusterStatus). conditions_eq st.conditions s.cluster.status.conditions)
        same
      ∙ conditions_eq_refl s.cluster.status.conditions in
    rw (read, update_status_conditions)
      (rw (unchanged, write_conditions)
        (ap
          (λ (st : RabbitmqClusterStatus).
            (ok 0, record s { cluster = record s.cluster { status = st }; world = w' }))
          same))
