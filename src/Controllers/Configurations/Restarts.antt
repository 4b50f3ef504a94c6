-- ===== src/Controllers/Configurations/Restarts.antt =====
-- controllers/reconcile_rabbitmq_configurations.go: the restart for a changed configuration, and
-- when it ends.
use pos_data_showcase.Prelude.{
  ℕ, String, ◌<>◌, true, false, some, ◌≡◌, refl, ap, ◌∙◌, if◌then◌else◌,
}
use pos_data_showcase.Prelude.Dict.{lookup, insert, lookup-insert}
use pos_data_showcase.Kube.Error.{is_not_found}
use pos_data_showcase.Kube.Objects.{ConfigMap, StatefulSet}
use pos_data_showcase.Kube.Exec.{Result, ok, err, Exec}
use pos_data_showcase.Cluster.{RabbitmqCluster, child_resource_name}
use pos_data_showcase.Controllers.{Reconciler}
use pos_data_showcase.Controllers.Access.{stateful_set_of, config_map_of}
use pos_data_showcase.Controllers.Configurations.{
  or_later, is_later, restarted_since, restart_once, restart, restart_for,
  restart_stateful_set_if_needed, server_conf_annotation, sts_restart_annotation,
}

-- What an API server that answers every call does for the StatefulSet and the server's config map of a
-- cluster, which `sts_of` and `conf_of` are in a world.
pub record RestartLaws {W : Type 0} (r : Reconciler W) (sts_of : W → StatefulSet)
    (conf_of : W → ConfigMap) (c : RabbitmqCluster) : Type 0 where
  pub get_sts :
      (w : W)
      → r.get_stateful_set c.namespace (child_resource_name c "server") w ≡ (ok (sts_of w), w)
  pub get_conf :
      (w : W)
      → r.get_config_map c.namespace (child_resource_name c "server-conf") w ≡ (ok (conf_of w), w)
  pub put_sts :
      (s : StatefulSet) (w : W)
      → (w' : W) × (r.update_stateful_set s w ≡ (ok tt, w'))
        × (sts_of w' ≡ s)
        × (conf_of w' ≡ conf_of w)
  pub event_sts : (reason msg : String) (w : W) → sts_of (r.event reason msg w) ≡ sts_of w
  pub event_conf : (reason msg : String) (w : W) → conf_of (r.event reason msg w) ≡ conf_of w
  pub retry_first :
      (m : Exec W (Unit {0})) (w w' : W) → m w ≡ (ok tt, w') → r.retry_on_conflict m w ≡ (ok tt, w')

or_later-ok :
    {W A : Type 0} (r : Reconciler W) (m : Exec W A) (f : A → Exec W ℕ) (w : W) {a : A} {w' : W}
    → m w ≡ (ok a, w')
    → or_later r m f w ≡ f a w'
or_later-ok {W} {A} r m f w e =
    ap
      (λ (p : Result A × W). elim p.0 [
        | ok a ↦ f a p.1
        | err x ↦ (if is_not_found x then ok 10 else err x, p.1)
      ])
      e

-- The StatefulSet with the time of its last restart.
abbrev pub restarted : String → StatefulSet → StatefulSet
restarted stamp sts = record sts {
  template = record sts.template {
    annotations = insert sts_restart_annotation stamp sts.template.annotations;
  };
}

module _ {W : Type 0} (r : Reconciler W) (sts_of : W → StatefulSet) (conf_of : W → ConfigMap)
    (c : RabbitmqCluster) (laws : RestartLaws r sts_of conf_of c) where
  open laws use {get_sts, get_conf, put_sts, event_sts, event_conf, retry_first}

  restart_lem :
      (w : W)
      → (w' : W) × (restart r c w ≡ (ok 0, w'))
        × (sts_of w' ≡ restarted (r.time_stamp w) (sts_of w))
        × (conf_of w' ≡ conf_of w)
  unfolding restart restart_once
  restart_lem w =
      let (w1, put, same, conf) = put_sts (restarted (r.time_stamp w) (sts_of w)) w in
      let once : restart_once r c w ≡ (ok tt, w1) = rw (get_sts w, restart_once) put in
      (
        r.event "SuccessfulUpdate" ("restarted StatefulSet " <> child_resource_name c "server") w1,
        rw (retry_first (restart_once r c) w w1 once, restart)
            (rw (retry_first (restart_once r c) w w1 once) refl),
        event_sts _ _ w1 ∙ same,
        event_conf _ _ w1 ∙ conf,
      )

  -- What `restart_for` does once it has the StatefulSet.
  abbrev unless_restarted : String → StatefulSet → Exec W ℕ
  unless_restarted updated_at sts w =
      elim (restarted_since updated_at (lookup sts_restart_annotation sts.template.annotations)) [
        | true ↦ (ok 0, w)
        | false ↦ restart r c w
      ]

  -- Which way the code takes, by the two annotations.
  decided :
      (w : W) (updated_at : String)
      → lookup server_conf_annotation (conf_of w).annotations ≡ some updated_at
      → restart_stateful_set_if_needed r c w ≡ unless_restarted updated_at (sts_of w) w
  unfolding restart_stateful_set_if_needed restart_for stateful_set_of config_map_of
  decided w updated_at written =
      or_later-ok r (config_map_of r c (child_resource_name c "server-conf"))
        (λ conf. restart_for r c (lookup server_conf_annotation conf.annotations)) w (get_conf w)
      ∙ ap (λ at. restart_for r c at w) written
      ∙ or_later-ok r (stateful_set_of r c) (unless_restarted updated_at) w (get_sts w)

  -- With `RestartLaws`: where the server's configuration was written and the StatefulSet has not
  -- been restarted since, the step restarts it: its pod template gets the present time as the time
  -- of the last restart and nothing else of it changes. From there the same step does nothing and
  -- asks for nothing more, if the present time is a later text than that of the configuration;
  -- else, as within one second, it restarts once more.
  pub restart_stateful_set_if_needed-settles :
      (w : W) (updated_at : String)
      → lookup server_conf_annotation (conf_of w).annotations ≡ some updated_at
      → restarted_since updated_at (lookup sts_restart_annotation (sts_of w).template.annotations)
        ≡ false
      → (w' : W) × (restart_stateful_set_if_needed r c w ≡ (ok 0, w'))
        × (sts_of w' ≡ restarted (r.time_stamp w) (sts_of w))
        × (restart_stateful_set_if_needed r c w' ≡ (elim (is_later (r.time_stamp w) updated_at) [
          | true ↦ (ok 0, w')
          | false ↦ restart r c w'
        ]))
  unfolding restarted_since
  restart_stateful_set_if_needed-settles w updated_at written stale =
      let (w', done, same, conf) = restart_lem w in
      let stamp =
        ap (λ (s : StatefulSet). lookup sts_restart_annotation s.template.annotations) same
        ∙ lookup-insert sts_restart_annotation sts_restart_annotation (r.time_stamp w)
            (sts_of w).template.annotations in
      (
        w',
        decided w updated_at written ∙ rw (unless_restarted, stale) done,
        same,
        decided w' updated_at
              (ap (λ (m : ConfigMap). lookup server_conf_annotation m.annotations) conf ∙ written)
            ∙ rw (unless_restarted, stamp) refl,
      )
