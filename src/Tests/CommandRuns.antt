-- ===== src/Tests/CommandRuns.antt =====
-- The commands in the pods, on a server that remembers them and the mark on the config map.
use pos_data_showcase.Prelude.{
  String, true, false, Option, none, some, List, [], ◌∷◌, ◌++◌, ◌≡◌, refl, sym, ap, arith,
}
use pos_data_showcase.Prelude.Dict.{lookup}
use pos_data_showcase.Kube.Error.{Error, api, not_found, other_reason}
use pos_data_showcase.Kube.Objects.{ConfigMap}
use pos_data_showcase.Kube.Exec.{Result, ok, err}
use pos_data_showcase.Cluster.{RabbitmqCluster}
use pos_data_showcase.Controllers.{Reconciler, Loop}
use pos_data_showcase.Controllers.Access.{delete_annotation, delete_if_any, annotated_config_map}
use pos_data_showcase.Controllers.Configurations.{plugins_update_annotation}
use pos_data_showcase.Controllers.Commands.{
  run_on_pod, report_pod, set_plugins_from, run_set_plugins_command,
}
use pos_data_showcase.Controllers.Commands.Plugins.{
  PodLaws, on_each_pod, run_set_plugins_command-each, run_set_plugins_command-retried,
}
use pos_data_showcase.Controllers.UserReferences.{has_references, reconcile_status, pointer_eq}
use pos_data_showcase.Controllers.UserReferences.Settled.{
  StoresStatus, ServerStatus, reconcile_status_settles,
}
use pos_data_showcase.Tests.Sample.{plain_cluster, sample_sts}
use pos_data_showcase.Tests.Reconcilers.{object_reconciler}
use pos_data_showcase.Tests.ReconcilerRuns.{cc_ok}

record PodWorld : Type 0 where
  commands : List (String × List String)
  mark : Option String

-- The first argument is whether the pods can be reached.
abbrev exec_in : Option Error → String → List String → PodWorld → Result (Unit {0}) × PodWorld
exec_in none pod cmd w = (ok tt, record w { commands = w.commands ++ (pod, cmd) ∷ [] })
exec_in (some e) pod cmd w = (err e, w)

abbrev pod_reconciler : Option Error → Reconciler PodWorld
pod_reconciler fault = record {
  default_rabbitmq_image = "rabbitmq:3";
  default_user_updater_image = "updater:1";
  default_image_pull_secrets = "";
  get_stateful_set = λ ns n w. (ok (sample_sts 10), w);
  get_endpoints = λ ns n w. (err (api not_found "no endpoints"), w);
  get_secret = λ ns n w. (err (api not_found "no secret"), w);
  update_cluster = λ c w. (ok c, w);
  update_status = λ c w. (ok c, w);
  list_pods = λ selector w. (ok [], w);
  update_pod = λ pod w. (ok tt, w);
  delete_stateful_set = λ ns n uid w. (ok tt, w);
  retry_on_conflict = λ m. m;
  get_config_map = λ ns n w. (err (api not_found "no config map"), w);
  update_config_map =
      λ m w. (ok tt, record w { mark = lookup plugins_update_annotation m.annotations });
  update_stateful_set = λ sts w. (ok tt, w);
  exec = λ ns pod c cmd w. exec_in fault pod cmd w;
  retry_on_error = λ retriable m. m;
  parse_time = λ text. ok 1;
  time_stamp = λ w. "2022-01-01T00:00:00Z";
  event = λ reason msg w. w;
  now = λ w. 9;
  contains_finalizer = λ c f. false;
  with_finalizer = λ c f. c;
  without_finalizer = λ c f. c;
}

exec_in-logs :
    (fault : Option Error) (pod : String) (cmd : List String) (w w' : PodWorld)
    → exec_in fault pod cmd w ≡ (ok tt, w')
    → w'.commands ≡ w.commands ++ (pod, cmd) ∷ []
exec_in-logs none pod cmd w w' e = ap (λ (p : Result (Unit {0}) × PodWorld). p.1.commands) (sym e)
exec_in-logs (some x) pod cmd w w' e =
    absurd (cc (ap (λ (p : Result (Unit {0}) × PodWorld). p.0) e))

exec_in-mark :
    (fault : Option Error) (pod : String) (cmd : List String) (w : PodWorld)
    → (exec_in fault pod cmd w).1.mark ≡ w.mark
exec_in-mark none pod cmd w = refl
exec_in-mark (some x) pod cmd w = refl

abbrev pod_laws : (fault : Option Error) → PodLaws (pod_reconciler fault)
pod_laws fault = record {
  commands = λ (w : PodWorld). w.commands;
  mark = λ (w : PodWorld). w.mark;
  exec_logs = λ ns pod c cmd w w' e. exec_in-logs fault pod cmd w w' e;
  exec_mark = λ ns pod c cmd w. exec_in-mark fault pod cmd w;
  event_mark = λ reason msg w. refl;
  update_commands = λ m w. refl;
  update_mark = λ m w w' e. ap (λ (p : Result (Unit {0}) × PodWorld). p.1.mark) (sym e);
  failed_update_mark = λ m w w' x e. absurd (cc (ap (λ (p : Result (Unit {0}) × PodWorld). p.0) e));
}

abbrev two_nodes : RabbitmqCluster
two_nodes = record plain_cluster { spec = record plain_cluster.spec { replicas = some 2 } }

abbrev marked_plugins : ConfigMap
marked_plugins = record {
  name = "pos-plugins-conf";
  namespace = "shop";
  labels = [];
  annotations = ("rabbitmq.com/pluginsUpdatedAt", "1") ∷ [];
  content = [];
  controller = none;
}

abbrev idle : PodWorld
idle = record { commands = []; mark = some "1" }

abbrev plugins_set : Result (Unit {0}) × PodWorld
plugins_set = run_set_plugins_command (pod_reconciler none) two_nodes marked_plugins idle

plugins_set_ok : plugins_set.0 ≡ ok tt
unfolding run_set_plugins_command set_plugins_from run_on_pod report_pod delete_annotation
    delete_if_any
plugins_set_ok = refl

run_set_plugins_command-each_example :
    (w1 : PodWorld) × (w1.commands ≡ [] ++ on_each_pod two_nodes 2 0)
    × (w1.mark ≡ idle.mark)
    × (delete_annotation annotated_config_map
          (pod_reconciler none).update_config_map
          marked_plugins
          plugins_update_annotation
          w1
        ≡ (ok tt, plugins_set.1))
    × (plugins_set.1.mark ≡ none)
    × (plugins_set.1.commands ≡ w1.commands)
run_set_plugins_command-each_example =
    run_set_plugins_command-each (pod_reconciler none) (pod_laws none) two_nodes marked_plugins idle
      plugins_set.1 (omega arith) (λ i. (plugins_set_ok i, plugins_set.1))

abbrev out_of_reach : Error
out_of_reach = api other_reason "out of reach"

abbrev plugins_failed : Result (Unit {0}) × PodWorld
plugins_failed =
    run_set_plugins_command (pod_reconciler (some out_of_reach)) two_nodes marked_plugins idle

abbrev error_of : Result (Unit {0}) → Error
error_of (ok _) = out_of_reach
error_of (err e) = e

plugins_failed_lem : plugins_failed.0 ≡ err (error_of plugins_failed.0)
unfolding run_set_plugins_command set_plugins_from run_on_pod report_pod
plugins_failed_lem = refl

run_set_plugins_command-retried_example : plugins_failed.1.mark ≡ some "1"
run_set_plugins_command-retried_example =
    run_set_plugins_command-retried (pod_reconciler (some out_of_reach))
      (pod_laws (some out_of_reach)) two_nodes marked_plugins idle plugins_failed.1
      (error_of plugins_failed.0) (λ i. (plugins_failed_lem i, plugins_failed.1))

abbrev stores_status : StoresStatus object_reconciler
stores_status = record {
  status_stored = λ c c' w e. ap (λ (d : RabbitmqCluster). d.status) (sym (cc_ok c c' e));
  name_kept = λ c c' w e. ap (λ (d : RabbitmqCluster). d.name) (sym (cc_ok c c' e));
  namespace_kept = λ c c' w e. ap (λ (d : RabbitmqCluster). d.namespace) (sym (cc_ok c c' e));
  spec_kept = λ c c' w e. ap (λ (d : RabbitmqCluster). d.spec) (sym (cc_ok c c' e));
}

abbrev referred : Result (Unit {0}) × Loop RabbitmqCluster
referred =
    reconcile_status object_reconciler (record { cluster = plain_cluster; world = plain_cluster })

referred_ok : referred.0 ≡ ok tt
unfolding reconcile_status has_references pointer_eq
referred_ok = refl

abbrev server_status : ServerStatus object_reconciler
server_status = record {
  kept = λ w. w.status;
  update_keeps =
      λ c c' w w' e. ap (λ (p : Result RabbitmqCluster × RabbitmqCluster). p.1.status) (sym e);
}

reconcile_status_settles_example :
    (has_references referred.1.cluster ≡ true)
    × (referred.1.world.status ≡ referred.1.cluster.status)
    × (reconcile_status object_reconciler referred.1 ≡ (ok tt, referred.1))
reconcile_status_settles_example =
    reconcile_status_settles object_reconciler stores_status server_status
      (record { cluster = plain_cluster; world = plain_cluster }) referred.1 refl
      (λ i. (referred_ok i, referred.1))
