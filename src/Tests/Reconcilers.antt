-- ===== src/Tests/Reconcilers.antt =====
-- The operator's record over an API server that has one StatefulSet and one kind of secret, and keeps a
-- log of what was written; and over one that does nothing.
use pos_data_showcase.Prelude.{String, none, List, [], ◌∷◌, str_eq, if◌then◌else◌}
use pos_data_showcase.Prelude.Dict.{Dict}
use pos_data_showcase.Kube.Error.{api, not_found}
use pos_data_showcase.Kube.Exec.{ok, err}
use pos_data_showcase.Cluster.{RabbitmqCluster, contains_plugin}
use pos_data_showcase.Controllers.{Reconciler, Loop}
use pos_data_showcase.Tests.Sample.{sample_sts}

abbrev pub without : String → List String → List String
without f [] = []
without f (g ∷ rest) = if str_eq g f then without f rest else g ∷ without f rest

abbrev pub secret_data : Dict String
secret_data = ("tls.crt", "c") ∷ ("tls.key", "k") ∷ ("ca.crt", "a") ∷ []

abbrev pub test_reconciler : Reconciler (List String)
test_reconciler = record {
  default_rabbitmq_image = "rabbitmq:3";
  default_user_updater_image = "updater:1";
  default_image_pull_secrets = "one,,two";
  get_stateful_set = λ ns n w. (ok (sample_sts 10), w);
  get_endpoints = λ ns n w. (err (api not_found "no endpoints"), w);
  get_secret = λ ns n w. (ok secret_data, w);
  update_cluster = λ c w. (ok c, "update cluster" ∷ w);
  update_status = λ c w. (ok c, "update status" ∷ w);
  list_pods = λ selector w. (ok [], w);
  update_pod = λ pod w. (ok tt, "update pod" ∷ w);
  delete_stateful_set = λ ns n uid w. (ok tt, "delete" ∷ w);
  retry_on_conflict = λ m. m;
  get_config_map = λ ns n w. (
    ok (record {
      name = n;
      namespace = ns;
      labels = [];
      annotations = ("rabbitmq.com/pluginsUpdatedAt", "1") ∷ [];
      content = [];
      controller = none;
    }),
    w,
  );
  update_config_map = λ m w. (ok tt, "update config map" ∷ w);
  update_stateful_set = λ sts w. (ok tt, "update stateful set" ∷ w);
  exec = λ ns pod container command w. (ok tt, pod ∷ w);
  retry_on_error = λ retriable m. m;
  parse_time = λ text. ok 1;
  time_stamp = λ w. "2022-01-01T00:00:00Z";
  event = λ reason msg w. reason ∷ w;
  now = λ w. 9;
  contains_finalizer = λ c f. contains_plugin c.finalizers f;
  with_finalizer = λ c f. record c { finalizers = f ∷ c.finalizers };
  without_finalizer = λ c f. record c { finalizers = without f c.finalizers };
}

-- Answers every call without an effect, over any world.
abbrev pub idle_reconciler : (W : Type 0) → Reconciler W
idle_reconciler W = record {
  default_rabbitmq_image = test_reconciler.default_rabbitmq_image;
  default_user_updater_image = test_reconciler.default_user_updater_image;
  default_image_pull_secrets = test_reconciler.default_image_pull_secrets;
  get_stateful_set = λ ns n w. (ok (sample_sts 10), w);
  get_endpoints = λ ns n w. (ok (record { subsets = [] }), w);
  get_secret = λ ns n w. (ok [], w);
  update_cluster = λ c w. (ok c, w);
  update_status = λ c w. (ok c, w);
  list_pods = λ selector w. (ok [], w);
  update_pod = λ pod w. (ok tt, w);
  delete_stateful_set = λ ns n uid w. (ok tt, w);
  retry_on_conflict = λ m. m;
  get_config_map = λ ns n w. (
    ok (record {
      name = n;
      namespace = ns;
      labels = [];
      annotations = [];
      content = [];
      controller = none;
    }),
    w,
  );
  update_config_map = λ m w. (ok tt, w);
  update_stateful_set = λ sts w. (ok tt, w);
  exec = λ ns pod container command w. (ok tt, w);
  retry_on_error = λ retriable m. m;
  parse_time = test_reconciler.parse_time;
  time_stamp = λ w. "2022-01-02T00:00:00Z";
  event = λ reason msg w. w;
  now = λ w. 9;
  contains_finalizer = test_reconciler.contains_finalizer;
  with_finalizer = test_reconciler.with_finalizer;
  without_finalizer = test_reconciler.without_finalizer;
}

-- The world is the cluster object that the server keeps.
abbrev pub object_reconciler : Reconciler RabbitmqCluster
object_reconciler = record (idle_reconciler RabbitmqCluster) {
  update_cluster = λ c w. (ok c, c);
  update_status = λ c w. (ok c, record w { status = c.status });
}

abbrev pub started : RabbitmqCluster → Loop (List String)
started c = record { cluster = c; world = [] }
