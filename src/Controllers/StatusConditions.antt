-- ===== src/Controllers/StatusConditions.antt =====
-- controllers/rabbitmqcluster_controller.go: `updateStatusConditions` and the children that it reads.
pub mod Laws
use pos_data_showcase.Prelude.{
  ℕ, String, Bool, true, false, ◌&&◌, Option, none, some, List, [], ◌∷◌, ◌==◌, if◌then◌else◌,
  str_eq,
}
use pos_data_showcase.Kube.Error.{Error, is_not_found}
use pos_data_showcase.Kube.Exec.{Result, ok, err, Exec, pure, ◌>>=◌, ◌>>◌}
use pos_data_showcase.Status.{
  Resource, stateful_set, endpoints, RabbitmqClusterCondition, status_eq,
}
use pos_data_showcase.ClusterStatus.{set_conditions, type_eq}
use pos_data_showcase.Cluster.{RabbitmqCluster, child_resource_name}
use pos_data_showcase.Controllers.{Reconciler, Loop, outside, store, requeue_after}

-- `reflect.DeepEqual` on the conditions.
abbrev pub condition_eq : RabbitmqClusterCondition → RabbitmqClusterCondition → Bool
condition_eq c d =
    type_eq c.type d.type
    && status_eq c.status d.status
    && c.last_transition_time == d.last_transition_time
    && str_eq c.reason d.reason
    && str_eq c.message d.message

unfoldable pub conditions_eq : List RabbitmqClusterCondition → List RabbitmqClusterCondition → Bool
conditions_eq [] [] = true
conditions_eq (c ∷ cs) (d ∷ ds) = condition_eq c d && conditions_eq cs ds
conditions_eq _ _ = false

-- A missing object is nil, and no error.
abbrev pub found_or_nil : {A : Type 0} → Result A → Result (Option A)
found_or_nil (ok a) = ok (some a)
found_or_nil (err e) = if is_not_found e then ok none else err e

abbrev pub or_nil : {W A : Type 0} → Exec W A → Exec W (Option A)
or_nil m w = let (x, w') = m w in (found_or_nil x, w')

module _ {W : Type 0} (r : Reconciler W) where
  unfoldable pub get_child_resources : RabbitmqCluster → Exec W (List Resource)
  get_child_resources rmq = do
    sts ← or_nil (r.get_stateful_set rmq.namespace (child_resource_name rmq "server"))
    end_points ← or_nil (r.get_endpoints rmq.namespace (child_resource_name rmq ""))
    pure (stateful_set sts ∷ endpoints end_points ∷ [])

  -- The conditions are written to the object, and the object's status to the server if they changed.
  unfoldable pub write_conditions : List Resource → Exec (Loop W) ℕ
  write_conditions resources s =
      let new = set_conditions (r.now s.world) resources s.cluster.status in
      let s1 : Loop W = record s { cluster = record s.cluster { status = new } } in
      elim (conditions_eq new.conditions s.cluster.status.conditions) [
        | true ↦ (ok 0, s1)
        | false ↦ let (x, s2) = store r.update_status s1 in requeue_after x s2
      ]

  unfoldable pub update_status_conditions : Exec (Loop W) ℕ
  update_status_conditions s =
      (do resources ← outside (get_child_resources s.cluster); write_conditions resources) s
