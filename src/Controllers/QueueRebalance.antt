-- ===== src/Controllers/QueueRebalance.antt =====
-- controllers/reconcile_cli.go and rabbitmqcluster_controller.go: when the queues are to be
-- rebalanced, and the mark on the cluster for a later pass. `stamp` is the present time, formatted.
pub mod Laws
use pos_data_showcase.Prelude.{
  ℕ, String, Bool, true, false, not, ◌&&◌, Option, none, some, ltb, ◌==◌, str_eq,
}
use mathlib.Core.Option
use pos_data_showcase.Prelude.Dict.{lookup, insert}
use pos_data_showcase.Kube.Objects.{StatefulSet}
use pos_data_showcase.Kube.Exec.{ok, Exec, run_if, ◌>>◌}
use pos_data_showcase.Cluster.{RabbitmqCluster, is_set}
use pos_data_showcase.Controllers.{Reconciler, Loop, modify, store}

abbrev pub queue_rebalance_annotation : String
queue_rebalance_annotation = "rabbitmq.com/queueRebalanceNeededAt"

-- `*Spec.Replicas`, which the API server sets to 1 where it is not given.
abbrev pub replicas_of : Option ℕ → ℕ
replicas_of replicas = Option.get_or replicas 1

unfoldable pub stateful_set_being_updated : StatefulSet → Bool
stateful_set_being_updated sts = not (str_eq sts.current_revision sts.update_revision)

unfoldable pub all_replicas_ready_and_updated : StatefulSet → Bool
all_replicas_ready_and_updated sts =
    sts.ready_replicas == replicas_of sts.replicas && not (stateful_set_being_updated sts)

unfoldable pub stateful_set_needs_queue_rebalance : StatefulSet → RabbitmqCluster → Bool
stateful_set_needs_queue_rebalance sts rmq =
    stateful_set_being_updated sts
    && not rmq.spec.skip_post_deploy_steps
    && ltb 1 (replicas_of rmq.spec.replicas)

-- `len(annotations[…]) > 0`
abbrev pub has_text : Option String → Bool
has_text none = false
has_text (some value) = is_set value

unfoldable pub is_marked : RabbitmqCluster → Bool
is_marked rmq = has_text (lookup queue_rebalance_annotation rmq.annotations)

abbrev pub marked : String → RabbitmqCluster → RabbitmqCluster
marked time rmq = record rmq {
  annotations = insert queue_rebalance_annotation time rmq.annotations;
}

module _ {W : Type 0} (r : Reconciler W) (stamp : W → String) where
  unfoldable pub mark_for_queue_rebalance : Exec (Loop W) (Unit {0})
  mark_for_queue_rebalance s =
      run_if (not (is_marked s.cluster))
        (do modify (marked (stamp s.world)); store r.update_cluster) s
