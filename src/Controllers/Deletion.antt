-- ===== src/Controllers/Deletion.antt =====
-- controllers/reconcile_finalizer.go and the part of utils.go that it calls.
pub mod Laws
use pos_data_showcase.Prelude.{
  String, ◌<>◌, Bool, true, false, not, ◌&&◌, Option, none, some, List, [], ◌∷◌, if◌then◌else◌,
  str_eq,
}
use pos_data_showcase.Prelude.Dict.{insert}
use pos_data_showcase.Kube.Objects.{StatefulSet, OwnerReference, Time}
use pos_data_showcase.Kube.Error.{Error, plain, wrapped, is_not_found}
use pos_data_showcase.Kube.Exec.{
  Result, ok, err, Exec, pure, fail, attempt, or_fail, run_if, ◌>>=◌, ◌>>◌,
}
use pos_data_showcase.Cluster.{RabbitmqCluster, child_resource_name}
use pos_data_showcase.Controllers.Access.{stateful_set_of}
use pos_data_showcase.Controllers.{Reconciler, Loop, Pod, modify, store, outside, log_failure}

abbrev pub deletion_finalizer : String
deletion_finalizer = "deletion.finalizers.rabbitmqclusters.rabbitmq.com"

-- `resource.DeletionMarker`
abbrev pub deletion_marker : String
deletion_marker = "skipPreStopChecks"

-- `client.IgnoreNotFound(err)`, and the wrapping of what is left.
abbrev pub ignore_not_found : (Error → Error) → Result (Unit {0}) → Result (Unit {0})
ignore_not_found f (ok _) = ok tt
ignore_not_found f (err e) = if is_not_found e then ok tt else err (f e)

-- `!DeletionTimestamp.IsZero()`
abbrev pub is_deleting : Option Time → Bool
is_deleting none = false
is_deleting (some _) = true

-- The tests of `statefulSetUID` on the StatefulSet that was read.
unfoldable pub owned_uid : RabbitmqCluster → StatefulSet → Option OwnerReference → Result String
owned_uid rmq sts none =
    err (plain ("failed to get controller reference for statefulSet " <> sts.name))
owned_uid rmq sts (some ref) =
    if not (str_eq rmq.uid ref.uid)
    then err (
        plain
          ("statefulSet " <> (sts.name <> (" not owned by current RabbitmqCluster " <> rmq.name))))
    else ok sts.uid

module _ {W : Type 0} (r : Reconciler W) where
  unfoldable pub stateful_set_uid : RabbitmqCluster → Exec W String
  stateful_set_uid rmq = do
    sts ← or_fail (wrapped "failed to get statefulSet") (stateful_set_of r rmq)
    λ w. (owned_uid rmq sts sts.controller, w)

  unfoldable pub mark_pod : Pod → Exec W (Unit {0})
  mark_pod pod w =
      let (x, w') =
        r.update_pod (record pod { labels = insert deletion_marker "true" pod.labels }) w in
      (
        ignore_not_found
            (wrapped ("cannot Update Pod " <> (pod.name <> (" in Namespace " <> pod.namespace)))) x,
        w',
      )

  unfoldable pub mark_pods : List Pod → Exec W (Unit {0})
  mark_pods [] = pure tt
  mark_pods (pod ∷ rest) = do mark_pod pod; mark_pods rest

  -- `list_pods` takes the text of the label selector, and fails where it cannot be parsed.
  unfoldable pub add_rabbitmq_deletion_label : RabbitmqCluster → Exec W (Unit {0})
  add_rabbitmq_deletion_label rmq = do
    pods ← r.list_pods ("app.kubernetes.io/name=" <> rmq.name)
    mark_pods pods

  unfoldable pub delete_stateful_set_of : RabbitmqCluster → String → Exec W (Unit {0})
  delete_stateful_set_of rmq uid w =
      let (x, w') = r.delete_stateful_set rmq.namespace (child_resource_name rmq "server") uid w in
      (ignore_not_found (wrapped "cannot delete StatefulSet") x, w')

  -- The function that `prepareForDeletion` retries.
  unfoldable pub delete_once : RabbitmqCluster → Exec W (Unit {0})
  delete_once rmq = do
    uid ← stateful_set_uid rmq
    or_fail (wrapped "failed to add deletion markers to RabbitmqCluster Pods")
        (add_rabbitmq_deletion_label rmq)
    delete_stateful_set_of rmq uid

  unfoldable pub add_finalizer_if_needed : Exec (Loop W) (Unit {0})
  add_finalizer_if_needed s =
      run_if
        (not (is_deleting s.cluster.deletion_timestamp)
          && not (r.contains_finalizer s.cluster deletion_finalizer))
        (do modify (λ c. r.with_finalizer c deletion_finalizer); store r.update_cluster) s

  unfoldable pub remove_finalizer : Exec (Loop W) (Unit {0})
  remove_finalizer = do
    modify (λ c. r.without_finalizer c deletion_finalizer)
    store r.update_cluster

  unfoldable pub prepare_for_deletion : Exec (Loop W) (Unit {0})
  prepare_for_deletion s =
      run_if (r.contains_finalizer s.cluster deletion_finalizer)
        (do log_failure (outside (r.retry_on_conflict (delete_once s.cluster))); remove_finalizer) s
