-- ===== src/Tests/LoopRuns.antt =====
-- Further steps of the reconcile loop on the server of Tests.ReconcilerRuns.
use pos_data_showcase.Prelude.{String, false, List, [], ◌∷◌, ◌≡◌, refl, sym, ap}
use pos_data_showcase.Prelude.Strings.{split, split_from}
use pos_data_showcase.Prelude.Dict.{lookup}
use pos_data_showcase.Kube.Exec.{Result, ok}
use pos_data_showcase.Cluster.{RabbitmqCluster, vault_default_user_secret_enabled}
use pos_data_showcase.Controllers.{Loop}
use pos_data_showcase.Controllers.QueueRebalance.{is_marked, mark_for_queue_rebalance}
use pos_data_showcase.Controllers.QueueRebalance.Laws.{StoresAnnotations}
use pos_data_showcase.Tests.Sample.{plain_cluster}
use pos_data_showcase.Tests.Reconcilers.{test_reconciler, started}
use pos_data_showcase.Tests.ReconcilerRuns.{cc_ok}

split_test : split "a,,b" "," ≡ "a" ∷ "" ∷ "b" ∷ []
unfolding split split_from
split_test = refl

no_vault : vault_default_user_secret_enabled plain_cluster ≡ false
unfolding vault_default_user_secret_enabled
no_vault = refl

abbrev test_stamp : List String → String
test_stamp w = "2022-01-01T00:00:00Z"

abbrev test_annotations : StoresAnnotations test_reconciler
test_annotations = λ c c' w e. ap (λ (d : RabbitmqCluster). d.annotations) (sym (cc_ok c c' e))

abbrev marking : Result (Unit {0}) × Loop (List String)
marking = mark_for_queue_rebalance test_reconciler test_stamp (started plain_cluster)

marking_is_ok : marking.0 ≡ ok tt
unfolding mark_for_queue_rebalance is_marked lookup
marking_is_ok = refl
