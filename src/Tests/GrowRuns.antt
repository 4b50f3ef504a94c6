-- ===== src/Tests/GrowRuns.antt =====
-- A pass over the StatefulSet whose claim is too small, on the server of Tests.ScaleRuns.
use mathlib.Core.Option
use pos_data_showcase.Prelude.{◌≤◌, true, some, ◌≡◌, refl, arith}
use pos_data_showcase.Prelude.Dict.{lookup, insert}
use pos_data_showcase.Prelude.Decimal.{decimal}
use pos_data_showcase.Prelude.Strings.{trim_suffix}
use pos_data_showcase.Kube.Error.{is_not_found, reason_for_error}
use pos_data_showcase.Kube.Exec.{ok}
use pos_data_showcase.Kube.Outcome.{returned}
use pos_data_showcase.Kube.Objects.{StatefulSet}
use pos_data_showcase.Cluster.{child_resource_name, pvc_name}
use pos_data_showcase.Scaling.{
  storage, scale, scale_pvcs, existing_capacity, get_sts, persistence_storage_capacity,
  guard_capacity, get_cluster_pvcs, get_pvcs_from, pvcs_needing_scaling, delete_and_scale,
  delete_sts, after_get_sts, delete_and_wait, retry_with_interval, sts_gone, scale_up_pvcs,
  scale_up_pvc, get_latest, set_capacity,
}
use pos_data_showcase.Resource.Builders.{stateful_set_builder}
use pos_data_showcase.Controllers.{Reconciler, Loop}
use pos_data_showcase.Controllers.Access.{stateful_set_of}
use pos_data_showcase.Controllers.Configurations.{updated}
use pos_data_showcase.Controllers.ScaleDown.{scale_down}
use pos_data_showcase.Controllers.Stages.{reconcile_pvc}
use pos_data_showcase.Controllers.Steps.{Reply, next}
use pos_data_showcase.Controllers.Reconcile.{
  Children, reconcile_child, prepare_stateful_set, refuse_scale_down_of, write_child,
}
use pos_data_showcase.Controllers.Reconcile.Grown.{reconcile_child-grows}
use pos_data_showcase.Tests.Sample.{plain_cluster, sample_sts, claim}
use pos_data_showcase.Tests.Reconcilers.{idle_reconciler}
use pos_data_showcase.Tests.ScaleRuns.{Server, stored_claim, test_client, test_laws, server_of}

abbrev claim_reconciler : Reconciler Server
claim_reconciler = record (idle_reconciler Server) {
  get_stateful_set = test_client.get_stateful_set;
  delete_stateful_set = λ ns n uid w. test_client.delete_stateful_set ns n w;
  update_stateful_set = λ sts w. (ok tt, record w { sts = some sts });
}

-- Only StatefulSets are made, and the server takes them as they are.
abbrev set_children : Children Server StatefulSet
set_children = record {
  build_child = λ b c. returned (sample_sts 1);
  update_child = λ b c sts. returned (sample_sts 10);
  as_stateful_set = λ sts. returned sts;
  name_of = λ (sts : StatefulSet). sts.name;
  type_of = λ sts. "*v1.StatefulSet";
  create_or_update = λ sts f w. ((updated, returned tt), record w { sts = some (sample_sts 10) });
}

abbrev small : Loop Server
small = record { cluster = plain_cluster; world = server_of true 5 }

abbrev prepared : Reply StatefulSet × Loop Server
prepared =
    prepare_stateful_set claim_reconciler test_client set_children stateful_set_builder
      (sample_sts 1) small

goes_on : prepared.0 ≡ next (sample_sts 10)
unfolding prepare_stateful_set refuse_scale_down_of stateful_set_of scale_down reconcile_pvc scale
    existing_capacity get_sts persistence_storage_capacity guard_capacity scale_pvcs
    get_cluster_pvcs get_pvcs_from pvcs_needing_scaling delete_and_scale delete_sts after_get_sts
    delete_and_wait retry_with_interval sts_gone scale_up_pvcs scale_up_pvc get_latest set_capacity
    child_resource_name pvc_name decimal lookup insert is_not_found reason_for_error trim_suffix
goes_on = refl

prepared_state :
    (Option.get_or prepared.1.cluster.spec.replicas 1 ≡ 1)
    × (stored_claim prepared.1.world prepared.1.cluster.namespace (pvc_name prepared.1.cluster 0)
        ≡ some (claim "persistence-pos-server-0" 10))
unfolding prepare_stateful_set refuse_scale_down_of stateful_set_of scale_down reconcile_pvc scale
    existing_capacity get_sts persistence_storage_capacity guard_capacity scale_pvcs
    get_cluster_pvcs get_pvcs_from pvcs_needing_scaling delete_and_scale delete_sts after_get_sts
    delete_and_wait retry_with_interval sts_gone scale_up_pvcs scale_up_pvc get_latest set_capacity
    child_resource_name pvc_name decimal lookup insert is_not_found reason_for_error trim_suffix
prepared_state = (refl, refl)

current_read :
    stateful_set_of claim_reconciler plain_cluster small.world ≡ (ok (sample_sts 5), small.world)
unfolding stateful_set_of
current_read = refl

reconcile_child-grows_example :
    (set_children.update_child stateful_set_builder plain_cluster (sample_sts 1)
      ≡ returned (sample_sts 10))
    × (reconcile_child claim_reconciler test_client set_children stateful_set_builder small
        ≡ write_child claim_reconciler test_client set_children stateful_set_builder
            (sample_sts 10)
            prepared.1)
    × (persistence_storage_capacity (sample_sts 10).volume_claim_templates
        ≤ storage (claim "persistence-pos-server-0" 10))
reconcile_child-grows_example =
    reconcile_child-grows claim_reconciler test_client test_laws set_children small prepared.1
      (sample_sts 5) small.world (sample_sts 1) (sample_sts 10) (sample_sts 10) 0
      (claim "persistence-pos-server-0" 10) current_read refl (λ i. (goes_on i, prepared.1)) refl
      (rw prepared_state.0 (omega arith)) prepared_state.1
