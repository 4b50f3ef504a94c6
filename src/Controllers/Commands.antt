-- ===== src/Controllers/Commands.antt =====
-- controllers/reconcile_cli.go: the commands that are run in the pods once the cluster is up.
pub mod Plugins
use pos_data_showcase.Prelude.{
  ℕ, zero, suc, ◌+◌, String, ◌<>◌, Bool, true, false, Option, none, some, List, [], ◌∷◌,
  if◌then◌else◌,
}
use pos_data_showcase.Prelude.Decimal.{decimal}
use pos_data_showcase.Prelude.Dict.{lookup, erase}
use pos_data_showcase.Kube.Error.{Error, wrapped, is_not_found}
use pos_data_showcase.Kube.Objects.{StatefulSet, ConfigMap}
use pos_data_showcase.Kube.Exec.{Result, ok, err, Exec, pure, run_if, ◌>>=◌, ◌>>◌}
use pos_data_showcase.Cluster.{RabbitmqCluster, child_resource_name}
use pos_data_showcase.Resource.Plugins.{new_rabbitmq_plugins, as_string}
use pos_data_showcase.Controllers.{Reconciler, Loop, outside, modify, store}
use pos_data_showcase.Controllers.Access.{
  stateful_set_of, config_map_of, delete_annotation, annotated_config_map, annotated_stateful_set,
}
use pos_data_showcase.Controllers.StatusConditions.{or_nil}
use pos_data_showcase.Controllers.Configurations.{
  plugins_update_annotation, sts_create_annotation, plugins_config_updated_recently,
}
use pos_data_showcase.Controllers.QueueRebalance.{
  queue_rebalance_annotation, has_text, is_marked, replicas_of, all_replicas_ready_and_updated,
}

abbrev pub pod_name : RabbitmqCluster → ℕ → String
pod_name rmq i = child_resource_name rmq "server" <> ("-" <> decimal i)

abbrev pub feature_flags_command : String
feature_flags_command =
    "set -eo pipefail; rabbitmqctl -s list_feature_flags name state stability | (grep 'disabled\\sstable$' || true) | cut -f 1 | xargs -r -n1 rabbitmqctl enable_feature_flag"

-- `fmt.Sprintf("rabbitmq-plugins set %s", plugins.AsString(" "))`
unfoldable pub set_plugins_command : RabbitmqCluster → String
set_plugins_command rmq =
    "rabbitmq-plugins set "
    <> as_string (new_rabbitmq_plugins rmq.spec.rabbitmq.additional_plugins) " "

module _ {W : Type 0} (r : Reconciler W) where
  -- A failure on a pod is recorded and returned.
  unfoldable pub report_pod : String → Result (Unit {0}) → Exec W (Unit {0})
  report_pod msg (ok _) w = (ok tt, w)
  report_pod msg (err e) w = (err (wrapped msg e), r.event "FailedReconcile" msg w)

  -- A command in the RabbitMQ container of a pod.
  unfoldable pub run_on_pod :
      RabbitmqCluster → String → String → String → String → Exec W (Unit {0})
  run_on_pod rmq msg pod shell cmd w =
      let (x, w') = r.exec rmq.namespace pod "rabbitmq" (shell ∷ "-c" ∷ cmd ∷ []) w in
      report_pod (msg <> (" " <> pod)) x w'

  unfoldable pub run_enable_feature_flags_command :
      RabbitmqCluster → StatefulSet → Exec W (Unit {0})
  run_enable_feature_flags_command rmq sts = do
    run_on_pod rmq "failed to enable all feature flags on pod" (pod_name rmq 0) "bash"
        feature_flags_command
    delete_annotation annotated_stateful_set r.update_stateful_set sts sts_create_annotation

  -- The loop of `runSetPluginsCommand` from pod `i` on, for `n` pods.
  unfoldable pub set_plugins_from : RabbitmqCluster → ℕ → ℕ → Exec W (Unit {0})
  set_plugins_from rmq zero i = pure tt
  set_plugins_from rmq (suc n) i = do
    run_on_pod rmq "failed to set plugins on pod" (pod_name rmq i) "sh" (set_plugins_command rmq)
    set_plugins_from rmq n (i + 1)

  unfoldable pub run_set_plugins_command : RabbitmqCluster → ConfigMap → Exec W (Unit {0})
  run_set_plugins_command rmq config_map = do
    set_plugins_from rmq (replicas_of rmq.spec.replicas) 0
    delete_annotation annotated_config_map r.update_config_map config_map plugins_update_annotation

  -- The mark is on the cluster object itself.
  unfoldable pub run_queue_rebalance_command : Exec (Loop W) (Unit {0})
  run_queue_rebalance_command s =
      (do
        outside (
            run_on_pod s.cluster "failed to run queue rebalance on pod" (pod_name s.cluster 0) "sh"
              "rabbitmq-queues rebalance all")
        modify (λ c. record c { annotations = erase queue_rebalance_annotation c.annotations })
        store r.update_cluster)
        s

  -- The three commands, each where its annotation is there.
  unfoldable pub run_commands : StatefulSet → ConfigMap → Exec (Loop W) (Unit {0})
  run_commands sts plugins_config s =
      (do
        run_if (has_text (lookup plugins_update_annotation plugins_config.annotations))
            (outside (run_set_plugins_command s.cluster plugins_config))
        run_if (has_text (lookup sts_create_annotation sts.annotations))
            (outside (run_enable_feature_flags_command s.cluster sts))
        run_if (is_marked s.cluster) run_queue_rebalance_command)
        s

  -- `none` is a panic: a plugins config map that was not found is a nil pointer, which the next call
  -- follows.
  unfoldable pub run_with_plugins : StatefulSet → Option ConfigMap → Exec (Loop W) (Option ℕ)
  run_with_plugins sts none = pure none
  run_with_plugins sts (some plugins_config) = do
    updated_recently ← outside (plugins_config_updated_recently r plugins_config)
    if updated_recently then pure (some 2) else (do run_commands sts plugins_config; pure (some 0))

  -- In how many seconds the request is queued again.
  unfoldable pub run_rabbitmq_cli_commands_if_annotated : Exec (Loop W) (Option ℕ)
  run_rabbitmq_cli_commands_if_annotated s =
      (do
        sts ← outside (stateful_set_of r s.cluster)
        if all_replicas_ready_and_updated sts
            then (do
              plugins_config ← outside (
                  or_nil (config_map_of r s.cluster (child_resource_name s.cluster "plugins-conf")))
              run_with_plugins sts plugins_config)
            else pure (some 15))
        s
