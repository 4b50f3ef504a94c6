-- ===== src/Controllers/Reconcile.antt =====
-- controllers/rabbitmqcluster_controller.go: Reconcile, over the interface of the builders.
pub mod Grown
pub mod Stops
use pos_data_showcase.Prelude.{
  ℕ, String, ◌<>◌, Bool, true, false, not, Option, none, some, List, [], ◌∷◌, str_eq, if◌then◌else◌,
}
use pos_data_showcase.Prelude.Dict.{lookup}
use pos_data_showcase.Kube.Error.{Error, wrapped, disable_non_tls_config, is_not_found}
use pos_data_showcase.Kube.Exec.{Result, ok, err, Exec}
use pos_data_showcase.Kube.Outcome.{Outcome, returned, failed, panic}
use pos_data_showcase.Kube.Objects.{StatefulSet}
use pos_data_showcase.Status.{no_warnings, condition_true, condition_false}
use pos_data_showcase.Cluster.{RabbitmqCluster}
use pos_data_showcase.Scaling.{ScalerClient, scale, persistence_storage_capacity}
use pos_data_showcase.Resource.Builders.{
  ResourceBuilder, resource_builders, update_may_require_sts_recreate,
}
use pos_data_showcase.Controllers.{
  Reconciler, Loop, outside, modify, store, warn, log_failure, put_condition, set_reconcile_success,
}
use pos_data_showcase.Controllers.Steps.{
  Reply, next, answer, panicked, Step, ◌>>=◌, ◌>>◌, go_on, return, or_return, or_panic, or_requeue,
  return_if,
}
use pos_data_showcase.Controllers.Access.{stateful_set_of}
use pos_data_showcase.Controllers.StatusConditions.{or_nil, update_status_conditions}
use pos_data_showcase.Controllers.OperatorDefaults.{reconcile_operator_defaults}
use pos_data_showcase.Controllers.Deletion.{
  is_deleting, add_finalizer_if_needed, prepare_for_deletion,
}
use pos_data_showcase.Controllers.TlsCheck.{reconcile_tls, message}
use pos_data_showcase.Controllers.ScaleDown.{scale_down}
use pos_data_showcase.Controllers.QueueRebalance.{
  replicas_of, stateful_set_needs_queue_rebalance, mark_for_queue_rebalance,
}
use pos_data_showcase.Controllers.Configurations.{
  OperationResult, unchanged, created, updated, annotate_if_needed, restart_stateful_set_if_needed,
}
use pos_data_showcase.Controllers.Commands.{run_rabbitmq_cli_commands_if_annotated}
use pos_data_showcase.Controllers.UserReferences.{reconcile_status}
use pos_data_showcase.Controllers.Stages.{
  return_if_deleting, return_if_paused, check_tls, mark_rebalance, log_and_record_operation_result,
  reconcile_pvc, give_up, or_give_up, run_cli, finish,
}

-- The interface ResourceBuilder, with objects of a type `O`, and controllerutil's CreateOrUpdate under
-- client-go's RetryOnConflict: it reads the object, has it updated by the given function, and
-- creates or writes it; the operation that it answers stands beside the error.
pub record Children (W O : Type 0) : Type 0 where
  pub build_child : ResourceBuilder → RabbitmqCluster → Outcome O
  pub update_child : ResourceBuilder → RabbitmqCluster → O → Outcome O
  pub as_stateful_set : O → Outcome StatefulSet
  pub name_of : O → String
  pub type_of : O → String
  pub create_or_update : O → (O → Outcome O) → W → (OperationResult × Outcome (Unit {0})) × W

module _ {W O : Type 0} (r : Reconciler W) (client : ScalerClient W) (ch : Children W O) where
  -- A StatefulSet that is there is compared with the wished one, which `Update` fills.
  unfoldable pub refuse_scale_down_of : Option StatefulSet → ResourceBuilder → O → Step W O
  refuse_scale_down_of none b resource s = go_on resource s
  refuse_scale_down_of (some current) b resource s =
      (do
        wished ← or_panic (ch.update_child b s.cluster resource)
        sts ← or_panic (ch.as_stateful_set wished)
        scaled_down ←
            or_return (scale_down r (replicas_of current.replicas) (replicas_of sts.replicas))
        return_if scaled_down (return (ok 0))
        go_on wished)
        s

  -- Before the StatefulSet is written: no scale down, and the claims are large enough.
  unfoldable pub prepare_stateful_set : ResourceBuilder → O → Step W O
  prepare_stateful_set b resource s =
      (do
        current ← or_return (outside (or_nil (stateful_set_of r s.cluster)))
        wished ← refuse_scale_down_of current b resource
        sts ← or_panic (ch.as_stateful_set wished)
        λ t.
            let (x, t') = outside (reconcile_pvc r client t.cluster sts) t in
            (do or_give_up r "FailedReconcilePVC" x; go_on wished) t')
        s

  unfoldable pub prepare : Bool → ResourceBuilder → O → Step W O
  prepare true b resource = prepare_stateful_set b resource
  prepare false b resource = go_on resource

  unfoldable pub written_reply : Outcome (Unit {0}) → Step W (Unit {0})
  written_reply (returned _) s = go_on tt s
  written_reply (failed e) s = give_up r "Error" e s
  written_reply panic s = (panicked, s)

  unfoldable pub write_child : ResourceBuilder → O → Step W (Unit {0})
  write_child b resource s =
      let ((operation, x), w) =
        ch.create_or_update resource (ch.update_child b s.cluster) s.world in
      let recorded =
        log_and_record_operation_result r ch.name_of ch.type_of resource operation x w in
      (do written_reply x; or_return (outside (annotate_if_needed r b operation s.cluster)))
        (record s { world = recorded })

  unfoldable pub reconcile_child : ResourceBuilder → Step W (Unit {0})
  reconcile_child b s =
      (do
        resource ← or_panic (ch.build_child b s.cluster)
        prepared ← prepare (update_may_require_sts_recreate b) b resource
        write_child b prepared)
        s

  unfoldable pub reconcile_children : List ResourceBuilder → Step W (Unit {0})
  reconcile_children [] = go_on tt
  reconcile_children (b ∷ rest) = do reconcile_child b; reconcile_children rest

  -- The steps behind the checks of the cluster object.
  unfoldable pub reconcile_active : Step W (Unit {0})
  reconcile_active = do
    or_requeue (reconcile_operator_defaults r)
    or_return (add_finalizer_if_needed r)
    or_requeue (update_status_conditions r)
    check_tls r
    mark_rebalance r
    λ s. reconcile_children (resource_builders s.cluster) s
    λ s. or_requeue (outside (restart_stateful_set_if_needed r s.cluster)) s
    or_return (reconcile_status r)
    run_cli r
    finish r

  unfoldable pub reconcile_cluster : Step W (Unit {0})
  reconcile_cluster = do return_if_deleting r; return_if_paused r; reconcile_active

  -- Reconcile, for an answer to the read of the cluster. `none` is a panic.
  unfoldable pub reconcile : Result RabbitmqCluster → W → Option (Result ℕ) × W
  reconcile (err e) w = (some (if is_not_found e then ok 0 else err e), w)
  reconcile (ok rmq) w =
      let (x, s) = reconcile_cluster (record { cluster = rmq; world = w }) in
      (elim x [ next _ ↦ some (ok 0) | answer a ↦ some a | panicked ↦ none ], s.world)
