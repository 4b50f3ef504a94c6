-- ===== src/Tests/RestartRuns.antt =====
-- The restart for a changed configuration, on a server that keeps one StatefulSet and the config map of
-- the server.
use pos_data_showcase.Prelude.{false, none, some, [], ◌∷◌, ◌≡◌, refl}
use pos_data_showcase.Prelude.Dict.{lookup}
use pos_data_showcase.Kube.Objects.{ConfigMap, StatefulSet}
use pos_data_showcase.Kube.Exec.{ok}
use pos_data_showcase.Controllers.{Reconciler}
use pos_data_showcase.Controllers.Configurations.{
  restarted_since, restart_stateful_set_if_needed, server_conf_annotation, sts_restart_annotation,
}
use pos_data_showcase.Controllers.Configurations.Restarts.{
  RestartLaws, restarted, restart_stateful_set_if_needed-settles,
}
use pos_data_showcase.Tests.Sample.{plain_cluster, sample_sts}
use pos_data_showcase.Tests.Reconcilers.{idle_reconciler}

record Server : Type 0 where
  sts : StatefulSet
  conf : ConfigMap

abbrev server_reconciler : Reconciler Server
server_reconciler = record (idle_reconciler Server) {
  get_stateful_set = λ ns n w. (ok w.sts, w);
  get_config_map = λ ns n w. (ok w.conf, w);
  update_config_map = λ m w. (ok tt, record w { conf = m });
  update_stateful_set = λ sts w. (ok tt, record w { sts = sts });
}

abbrev changed : Server
changed = record {
  sts = sample_sts 10;
  conf = record {
    name = "pos-server-conf";
    namespace = "shop";
    labels = [];
    annotations = (server_conf_annotation, "2022-01-01T00:00:00Z") ∷ [];
    content = [];
    controller = none;
  };
}

abbrev server_laws : RestartLaws server_reconciler (λ w. w.sts) (λ w. w.conf) plain_cluster
server_laws = record {
  get_sts = λ w. refl;
  get_conf = λ w. refl;
  put_sts = λ s w. (record w { sts = s }, refl, refl, refl);
  event_sts = λ reason msg w. refl;
  event_conf = λ reason msg w. refl;
  retry_first = λ m w w' e. e;
}

was_written : lookup server_conf_annotation changed.conf.annotations ≡ some "2022-01-01T00:00:00Z"
unfolding lookup
was_written = refl

not_restarted :
    restarted_since "2022-01-01T00:00:00Z"
      (lookup sts_restart_annotation changed.sts.template.annotations)
    ≡ false
unfolding restarted_since lookup
not_restarted = refl

restart_stateful_set_if_needed-settles_example :
    (w' : Server) × (restart_stateful_set_if_needed server_reconciler plain_cluster changed
      ≡ (ok 0, w'))
    × (w'.sts ≡ restarted "2022-01-02T00:00:00Z" changed.sts)
    × (restart_stateful_set_if_needed server_reconciler plain_cluster w' ≡ (ok 0, w'))
restart_stateful_set_if_needed-settles_example =
    restart_stateful_set_if_needed-settles server_reconciler (λ w. w.sts) (λ w. w.conf)
      plain_cluster server_laws changed "2022-01-01T00:00:00Z" was_written not_restarted
