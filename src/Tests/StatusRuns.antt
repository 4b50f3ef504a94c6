-- ===== src/Tests/StatusRuns.antt =====
-- The conditions of the sample cluster, and the labels and annotations of its child resources.
use pos_data_showcase.Prelude.{String, none, some, List, [], ◌∷◌, ◌≡◌, refl, map, All, ◌↔◌}
use pos_data_showcase.Prelude.Dict.{Dict, lookup, NodupKeys}
use pos_data_showcase.Kube.Objects.{Endpoints}
use pos_data_showcase.Metadata.{
  reconcile_and_filter_annotations, get_labels, label, is_kubernetes_annotation,
}
use pos_data_showcase.Metadata.Laws.{
  lookup-get_labels, lookup-reconcile_and_filter_annotations, last_value,
}
use pos_data_showcase.Status.{
  RabbitmqClusterCondition, all_replicas_ready, cluster_available, no_warnings, reconcile_success,
  condition_true, condition_false, condition_unknown, all_replicas_ready_condition,
  cluster_available_condition, no_warnings_condition,
}
use pos_data_showcase.Status.Reports.{
  children, stateful_set_statuses, cluster_available_status, SomeAddress,
}
use pos_data_showcase.Status.Transition.{condition_times, KeepsTime}
use pos_data_showcase.ClusterStatus.{set_conditions}
use pos_data_showcase.ClusterStatus.Laws.{set_conditions_types, set_conditions_idem}
use pos_data_showcase.Tests.Sample.{ready_condition, sample_status, sample_sts}

abbrev sample_endpoints : Endpoints
sample_endpoints = record { subsets = record { addresses = "10.0.0.1" ∷ [] } ∷ [] }

set_conditions_idem_example :
    set_conditions 20
      (children (some (sample_sts 10)) (some sample_endpoints))
      (set_conditions 10 (children (some (sample_sts 10)) (some sample_endpoints)) sample_status)
    ≡ set_conditions 10 (children (some (sample_sts 10)) (some sample_endpoints)) sample_status
set_conditions_idem_example =
    set_conditions_idem 10 20 (children (some (sample_sts 10)) (some sample_endpoints))
      sample_status

set_conditions_types_example :
    map
      (λ (c : RabbitmqClusterCondition). c.type)
      (set_conditions 10 (children none none) sample_status).conditions
    ≡ all_replicas_ready ∷ cluster_available ∷ no_warnings ∷ reconcile_success ∷ []
set_conditions_types_example = set_conditions_types 10 (children none none) sample_status

condition_times_example :
    KeepsTime 10 ready_condition (
      all_replicas_ready_condition 10 (children (some (sample_sts 10)) none) (some ready_condition))
    × KeepsTime 10 ready_condition (
        cluster_available_condition 10
          (children (some (sample_sts 10)) none)
          (some ready_condition))
    × KeepsTime 10 ready_condition
        (no_warnings_condition 10 (children (some (sample_sts 10)) none) (some ready_condition))
condition_times_example = condition_times 10 (children (some (sample_sts 10)) none) ready_condition

stateful_set_statuses_example :
    ((all_replicas_ready_condition 10 (children (some (sample_sts 10)) none) none).status
      ≡ condition_true)
    × ((no_warnings_condition 10 (children (some (sample_sts 10)) none) none).status
        ≡ condition_true)
unfolding lookup
stateful_set_statuses_example = stateful_set_statuses 10 (some (sample_sts 10)) none none none

cluster_available_status_example :
    ((cluster_available_condition 10 (children none none) none).status ≡ condition_unknown)
    × (((cluster_available_condition 10 (children none (some sample_endpoints)) none).status
          ≡ condition_true)
        ↔ SomeAddress sample_endpoints.subsets)
    × (((cluster_available_condition 10 (children none (some sample_endpoints)) none).status
          ≡ condition_false)
        ↔ (¬ SomeAddress sample_endpoints.subsets))
cluster_available_status_example = cluster_available_status 10 none sample_endpoints none

abbrev instance_labels : Dict String
instance_labels = ("team", "sales") ∷ ("app.kubernetes.io/name", "other") ∷ []

labels_nodup : NodupKeys instance_labels
unfolding lookup
labels_nodup = (refl, (refl, tt))

lookup-get_labels_example :
    lookup "app.kubernetes.io/name" (get_labels "pos" instance_labels)
    ≡ lookup "app.kubernetes.io/name" (label "pos")
lookup-get_labels_example =
    lookup-get_labels "pos" instance_labels "app.kubernetes.io/name" labels_nodup

abbrev given_annotations : List (Dict String)
given_annotations = (("note", "a") ∷ []) ∷ (("note", "b") ∷ []) ∷ []

given_nodup : All NodupKeys given_annotations
unfolding lookup
given_nodup = ((refl, tt), ((refl, tt), tt))

lookup-reconcile_and_filter_annotations_example :
    lookup "note" (reconcile_and_filter_annotations (("note", "old") ∷ []) given_annotations)
    ≡ last_value "note" given_annotations (lookup "note" (("note", "old") ∷ []))
unfolding lookup is_kubernetes_annotation
lookup-reconcile_and_filter_annotations_example =
    lookup-reconcile_and_filter_annotations (("note", "old") ∷ []) given_annotations "note"
      given_nodup
