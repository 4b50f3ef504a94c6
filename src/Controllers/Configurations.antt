-- ===== src/Controllers/Configurations.antt =====
-- controllers/reconcile_rabbitmq_configurations.go: the annotations that mark what a later pass has to
-- do, and the restart of the StatefulSet for a changed configuration.
pub mod Restarts
use pos_data_showcase.Prelude.{
  ℕ, ◌+◌, String, ◌<>◌, Bool, true, false, Option, none, some, ltb, if◌then◌else◌,
}
use Prim.Native.String.{compare}
use Prim.Native.Nat.{Ordering}
use pos_data_showcase.Prelude.Dict.{lookup, insert}
use pos_data_showcase.Kube.Error.{is_not_found}
use pos_data_showcase.Kube.Objects.{ConfigMap}
use pos_data_showcase.Kube.Exec.{ok, err, Exec, pure, ◌>>=◌}
use pos_data_showcase.Cluster.{RabbitmqCluster, child_resource_name}
use pos_data_showcase.Resource.Builders.{
  ResourceBuilder, rabbitmq_plugins_config_map, server_config_map, stateful_set_builder,
}
use pos_data_showcase.Controllers.{Reconciler}
use pos_data_showcase.Controllers.Access.{
  stateful_set_of, config_map_of, update_annotation, annotated_config_map, annotated_stateful_set,
}

abbrev pub plugins_update_annotation : String
plugins_update_annotation = "rabbitmq.com/pluginsUpdatedAt"

abbrev pub server_conf_annotation : String
server_conf_annotation = "rabbitmq.com/serverConfUpdatedAt"

abbrev pub sts_restart_annotation : String
sts_restart_annotation = "rabbitmq.com/lastRestartAt"

abbrev pub sts_create_annotation : String
sts_create_annotation = "rabbitmq.com/createdAt"

-- controllerutil.OperationResult, as far as the operator looks at it.
pub data OperationResult : Type 0 where
  unchanged created updated : OperationResult

-- The texts are compared byte by byte: `a > b`.
abbrev pub is_later : String → String → Bool
is_later a b = elim (compare a b) [ Ordering.gt ↦ true | _ ↦ false ]

-- Whether the StatefulSet has been restarted since the configuration was written.
unfoldable pub restarted_since : String → Option String → Bool
restarted_since updated_at none = false
restarted_since updated_at (some restarted_at) = is_later restarted_at updated_at

module _ {W : Type 0} (r : Reconciler W) where
  -- A failure is recorded and returned.
  unfoldable pub recorded : String → Exec W (Unit {0}) → Exec W (Unit {0})
  recorded msg m w =
      let (x, w') = m w in
      elim x [ ok _ ↦ (ok tt, w') | err e ↦ (err e, r.event "FailedUpdate" msg w') ]

  unfoldable pub annotate_config_map : RabbitmqCluster → String → String → Exec W (Unit {0})
  annotate_config_map rmq name key w =
      recorded ("failed to annotate " <> name)
        (update_annotation annotated_config_map r.update_config_map r
          (r.get_config_map rmq.namespace name) key (r.time_stamp w))
        w

  unfoldable pub annotate_stateful_set : RabbitmqCluster → Exec W (Unit {0})
  annotate_stateful_set rmq w =
      let name = child_resource_name rmq "server" in
      recorded ("failed to annotate " <> name)
        (update_annotation annotated_stateful_set r.update_stateful_set r
          (r.get_stateful_set rmq.namespace name) sts_create_annotation (r.time_stamp w))
        w

  unfoldable pub annotate_if_needed :
      ResourceBuilder → OperationResult → RabbitmqCluster → Exec W (Unit {0})
  annotate_if_needed rabbitmq_plugins_config_map updated rmq =
      annotate_config_map rmq (child_resource_name rmq "plugins-conf") plugins_update_annotation
  annotate_if_needed server_config_map updated rmq =
      annotate_config_map rmq (child_resource_name rmq "server-conf") server_conf_annotation
  annotate_if_needed stateful_set_builder created rmq = annotate_stateful_set rmq
  annotate_if_needed _ _ rmq = pure tt

  -- The function that `restartStatefulSetIfNeeded` retries.
  unfoldable pub restart_once : RabbitmqCluster → Exec W (Unit {0})
  restart_once rmq = do
    sts ← r.get_stateful_set rmq.namespace (child_resource_name rmq "server")
    λ w.
        r.update_stateful_set
          (record sts {
            template = record sts.template {
              annotations = insert sts_restart_annotation (r.time_stamp w) sts.template.annotations;
            };
          })
          w

  -- A missing object is asked for again after 10 seconds, another error returned. Reconcile answers
  -- with the duration beside the error; controller-runtime looks at it only without one.
  abbrev pub or_later : {A : Type 0} → Exec W A → (A → Exec W ℕ) → Exec W ℕ
  or_later m f w =
      let (x, w') = m w in
      elim x [ ok a ↦ f a w' | err e ↦ (if is_not_found e then ok 10 else err e, w') ]

  unfoldable pub restart : RabbitmqCluster → Exec W ℕ
  restart rmq w =
      let name = child_resource_name rmq "server" in
      let (x, w') = r.retry_on_conflict (restart_once rmq) w in
      elim x [
        | ok _ ↦ (ok 0, r.event "SuccessfulUpdate" ("restarted StatefulSet " <> name) w')
        | err e ↦ (
          err e,
          r.event "FailedUpdate"
              ("failed to restart StatefulSet "
                <> (name <> "; rabbitmq.conf configuration may be outdated"))
              w',
        )
      ]

  -- What is done for the time at which the configuration was written, if it was.
  unfoldable pub restart_for : RabbitmqCluster → Option String → Exec W ℕ
  restart_for rmq none = pure 0
  restart_for rmq (some updated_at) = or_later (stateful_set_of r rmq) (λ sts w.
      elim (restarted_since updated_at (lookup sts_restart_annotation sts.template.annotations)) [
        | true ↦ (ok 0, w)
        | false ↦ restart rmq w
      ])

  -- In how many seconds the request is queued again.
  unfoldable pub restart_stateful_set_if_needed : RabbitmqCluster → Exec W ℕ
  restart_stateful_set_if_needed rmq =
      or_later (config_map_of r rmq (child_resource_name rmq "server-conf"))
        (λ server_conf. restart_for rmq (lookup server_conf_annotation server_conf.annotations))

  -- The plugins were written less than 2 seconds ago.
  unfoldable pub plugins_config_updated_recently : ConfigMap → Exec W Bool
  plugins_config_updated_recently cfg w = elim (lookup plugins_update_annotation cfg.annotations) [
    | none ↦ (ok false, w)
    | some updated_at ↦ elim (r.parse_time updated_at) [
      | err e ↦ (err e, w)
      | ok t ↦ (ok (ltb (r.now w) (t + 2)), w)
    ]
  ]
