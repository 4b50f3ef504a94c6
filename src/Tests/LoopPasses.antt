-- ===== src/Tests/LoopPasses.antt =====
-- Passes of Reconcile over builders that only make StatefulSets.
use pos_data_showcase.Prelude.{String, some, List, [], ◌∷◌, ◌≡◌, refl, arith}
use pos_data_showcase.Prelude.Dict.{lookup}
use pos_data_showcase.Kube.Error.{api, not_found}
use pos_data_showcase.Kube.Exec.{ok, err}
use pos_data_showcase.Kube.Outcome.{Outcome, returned}
use pos_data_showcase.Kube.Objects.{StatefulSet}
use pos_data_showcase.Cluster.{RabbitmqCluster}
use pos_data_showcase.Scaling.{ScalerClient}
use pos_data_showcase.Resource.Builders.{stateful_set_builder}
use pos_data_showcase.Controllers.Steps.{answer}
use pos_data_showcase.Controllers.Access.{stateful_set_of}
use pos_data_showcase.Controllers.Configurations.{OperationResult, created, updated}
use pos_data_showcase.Controllers.Reconcile.{Children, reconcile_cluster, reconcile_child}
use pos_data_showcase.Controllers.Reconcile.Stops.{
  reconcile_cluster-paused, reconcile_child-scale_down,
}
use pos_data_showcase.Tests.Sample.{plain_cluster, sample_sts}
use pos_data_showcase.Tests.Reconcilers.{test_reconciler, started}

abbrev no_claims : ScalerClient (List String)
no_claims = record {
  get_stateful_set = λ ns n w. (ok (sample_sts 10), w);
  delete_stateful_set = λ ns n w. (ok tt, "delete stateful set" ∷ w);
  get_pvc = λ ns n w. (err (api not_found "no claim"), w);
  update_pvc = λ ns p w. (ok tt, "update claim" ∷ w);
  sleep = λ t w. w;
}

abbrev other_client : ScalerClient (List String)
other_client = record no_claims { sleep = λ t w. "sleep" ∷ w }

-- A StatefulSet of no nodes is wished.
abbrev emptied : StatefulSet
emptied = record (sample_sts 10) { replicas = some 0 }

abbrev test_children : Children (List String) StatefulSet
test_children = record {
  build_child = λ b c. returned (sample_sts 10);
  update_child = λ b c sts. returned emptied;
  as_stateful_set = λ sts. returned sts;
  name_of = λ (sts : StatefulSet). sts.name;
  type_of = λ sts. "*v1.StatefulSet";
  create_or_update = λ sts f w. ((updated, returned tt), "update stateful set" ∷ w);
}

abbrev other_put :
    StatefulSet
    → (StatefulSet → Outcome StatefulSet)
    → List String
    → (OperationResult × Outcome (Unit {0})) × List String
other_put sts f w = ((created, returned tt), "create stateful set" ∷ w)

abbrev other_children : Children (List String) StatefulSet
other_children = record test_children { create_or_update = other_put }

abbrev paused_cluster : RabbitmqCluster
paused_cluster = record plain_cluster { labels = ("rabbitmq.com/pauseReconciliation", "true") ∷ [] }

has_label : lookup "rabbitmq.com/pauseReconciliation" paused_cluster.labels ≡ some "true"
unfolding lookup
has_label = refl

reconcile_cluster-paused_example :
    ((reconcile_cluster test_reconciler no_claims test_children (started paused_cluster)).0
      ≡ answer (ok 0))
    × (reconcile_cluster test_reconciler no_claims test_children (started paused_cluster)
        ≡ reconcile_cluster test_reconciler other_client other_children (started paused_cluster))
reconcile_cluster-paused_example =
    reconcile_cluster-paused test_reconciler (started paused_cluster) no_claims other_client
      test_children other_children refl has_label

sts_read : stateful_set_of test_reconciler plain_cluster [] ≡ (ok (sample_sts 10), [])
unfolding stateful_set_of
sts_read = refl

reconcile_child-scale_down_example :
    ((reconcile_child test_reconciler no_claims test_children stateful_set_builder
        (started plain_cluster)).0
      ≡ answer (ok 0))
    × (reconcile_child test_reconciler no_claims test_children stateful_set_builder
          (started plain_cluster)
        ≡ reconcile_child test_reconciler other_client other_children stateful_set_builder
            (started plain_cluster))
reconcile_child-scale_down_example =
    reconcile_child-scale_down test_reconciler (started plain_cluster) no_claims other_client
      test_children other_put (sample_sts 10) emptied (sample_sts 10) emptied [] refl sts_read refl
      refl (omega arith)
