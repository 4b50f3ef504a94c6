-- ===== src/Controllers/Stages.antt =====
-- controllers/rabbitmqcluster_controller.go: the stages of Reconcile that do not touch the children
-- itself, what it records, and reconcilePVC of reconcile_persistence.go.
use pos_data_showcase.Prelude.{
  ℕ, String, ◌<>◌, Bool, true, false, Option, none, some, [], str_eq, if◌then◌else◌,
}
use pos_data_showcase.Prelude.Dict.{lookup}
use pos_data_showcase.Kube.Error.{Error, wrapped, disable_non_tls_config}
use pos_data_showcase.Kube.Exec.{Result, ok, err, Exec}
use pos_data_showcase.Kube.Outcome.{Outcome, returned, failed, panic}
use pos_data_showcase.Kube.Objects.{StatefulSet}
use pos_data_showcase.Status.{no_warnings, condition_true, condition_false}
use pos_data_showcase.Cluster.{RabbitmqCluster}
use pos_data_showcase.Scaling.{ScalerClient, scale, persistence_storage_capacity}
use pos_data_showcase.Controllers.{
  Reconciler, outside, modify, store, warn, log_failure, put_condition, set_reconcile_success,
}
use pos_data_showcase.Controllers.Steps.{
  Reply, next, answer, panicked, Step, ◌>>=◌, ◌>>◌, go_on, return, or_return, or_requeue, return_if,
}
use pos_data_showcase.Controllers.Access.{stateful_set_of}
use pos_data_showcase.Controllers.StatusConditions.{or_nil}
use pos_data_showcase.Controllers.Deletion.{is_deleting, prepare_for_deletion}
use pos_data_showcase.Controllers.TlsCheck.{reconcile_tls, message}
use pos_data_showcase.Controllers.QueueRebalance.{
  stateful_set_needs_queue_rebalance, mark_for_queue_rebalance,
}
use pos_data_showcase.Controllers.Configurations.{OperationResult, unchanged, created, updated}
use pos_data_showcase.Controllers.Commands.{run_rabbitmq_cli_commands_if_annotated}

abbrev pub pause_reconciliation_label : String
pause_reconciliation_label = "rabbitmq.com/pauseReconciliation"

-- `v, ok := Labels[…]; ok && v == "true"`
abbrev pub is_true : Option String → Bool
is_true none = false
is_true (some v) = str_eq v "true"

unfoldable pub is_paused : RabbitmqCluster → Bool
is_paused rmq = is_true (lookup pause_reconciliation_label rmq.labels)

-- `errors.Is(err, disableNonTLSConfigErr)`
unfoldable pub is_disable_non_tls_config : Error → Bool
is_disable_non_tls_config disable_non_tls_config = true
is_disable_non_tls_config (wrapped _ e) = is_disable_non_tls_config e
is_disable_non_tls_config _ = false

-- `operation`, and what `strings.Title` makes of it.
abbrev pub operation_name : OperationResult → String
operation_name unchanged = ""
operation_name created = "create"
operation_name updated = "update"

abbrev pub operation_title : OperationResult → String
operation_title unchanged = ""
operation_title created = "Create"
operation_title updated = "Update"

module _ {W : Type 0} (r : Reconciler W) where
  unfoldable pub return_if_deleting : Step W (Unit {0})
  return_if_deleting s =
      return_if (is_deleting s.cluster.deletion_timestamp)
        (do or_return (prepare_for_deletion r); return (ok 0)) s

  unfoldable pub return_if_paused : Step W (Unit {0})
  return_if_paused s =
      return_if (is_paused s.cluster)
        (do
          or_return (
              warn r "PausedReconciliation"
                ("label '" <> (pause_reconciliation_label <> "' is set to true")))
          or_return (put_condition r no_warnings condition_false "reconciliation paused" [])
          or_return (log_failure (store r.update_status))
          return (ok 0))
        s

  -- A configuration that cannot work is not tried again.
  abbrev pub tls_reply : Result (Unit {0}) → Reply (Unit {0})
  tls_reply (ok _) = next tt
  tls_reply (err e) = if is_disable_non_tls_config e then answer (ok 0) else answer (err e)

  unfoldable pub check_tls : Step W (Unit {0})
  check_tls s = let (x, s') = reconcile_tls r s in (tls_reply x, s')

  -- Before the StatefulSet is created there is nothing to rebalance.
  unfoldable pub mark_if_needed : Option StatefulSet → Step W (Unit {0})
  mark_if_needed none s = go_on tt s
  mark_if_needed (some sts) s =
      return_if (stateful_set_needs_queue_rebalance sts s.cluster)
        (or_return (mark_for_queue_rebalance r r.time_stamp)) s

  unfoldable pub mark_rebalance : Step W (Unit {0})
  mark_rebalance s =
      (do sts ← or_return (outside (or_nil (stateful_set_of r s.cluster))); mark_if_needed sts) s

  unfoldable pub log_and_record_operation_result :
      {O : Type 0} → (O → String) → (O → String) → O → OperationResult → Outcome (Unit {0}) → W → W
  log_and_record_operation_result name_of type_of resource operation (returned _) w =
      elim operation [
        | unchanged ↦ w
        | o ↦
            r.event ("Successful" <> operation_title o)
              (operation_name o
                <> ("d resource " <> (name_of resource <> (" of Type " <> type_of resource))))
              w
      ]
  log_and_record_operation_result name_of type_of resource operation (failed e) w =
      r.event ("Failed" <> operation_title operation)
        ("failed to "
          <> (operation_name operation
              <> (" resource " <> (name_of resource <> (" of Type " <> type_of resource)))))
        w
  log_and_record_operation_result name_of type_of resource operation panic w = w

  unfoldable pub reconcile_pvc : ScalerClient W → RabbitmqCluster → StatefulSet → Exec W (Unit {0})
  reconcile_pvc client rmq desired w =
      let (x, w') =
        scale client rmq (persistence_storage_capacity desired.volume_claim_templates) w in
      elim x [
        | ok _ ↦ (ok tt, w')
        | err e ↦
            (err e, r.event "FailedReconcilePersistence" ("Failed to scale PVCs: " <> message e) w')
      ]

  -- `r.setReconcileSuccess(…, reason, err.Error()); return ctrl.Result{}, err`
  unfoldable pub give_up : {A : Type 0} → String → Error → Step W A
  give_up reason e = do
    or_return (set_reconcile_success r condition_false reason (message e))
    return (err e)

  abbrev pub or_give_up : String → Result (Unit {0}) → Step W (Unit {0})
  or_give_up reason (ok _) = go_on tt
  or_give_up reason (err e) = give_up reason e

  unfoldable pub cli_reply : Result (Option ℕ) → Step W (Unit {0})
  cli_reply (ok none) s = (panicked, s)
  cli_reply (ok (some n)) s = or_requeue (λ t. (ok n, t)) s
  cli_reply (err e) s = give_up "FailedCLICommand" e s

  unfoldable pub run_cli : Step W (Unit {0})
  run_cli s = let (x, s') = run_rabbitmq_cli_commands_if_annotated r s in cli_reply x s'

  unfoldable pub finish : Step W (Unit {0})
  finish = do
    or_return
        (modify (λ c. record c { status = record c.status { observed_generation = c.generation } }))
    or_return (set_reconcile_success r condition_true "Success" "Finish reconciling")
    return (ok 0)
