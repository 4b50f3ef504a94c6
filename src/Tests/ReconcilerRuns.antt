-- ===== src/Tests/ReconcilerRuns.antt =====
-- Steps of the reconcile loop against an API server that has one StatefulSet and one kind of secret,
-- and keeps a log of what was written.
use pos_data_showcase.Prelude.{
  ℕ, String, true, false, none, some, List, [], ◌∷◌, ◌≡◌, refl, sym, ap, str_eq, eq_refl,
  Bool-cases, inl, inr,
}
use pos_data_showcase.Prelude.Strings.{split, split_from}
use pos_data_showcase.Prelude.Dict.{Dict, lookup}
use pos_data_showcase.Kube.Objects.{StatefulSet, OwnerReference}
use pos_data_showcase.Kube.Error.{is_not_found, reason_for_error}
use pos_data_showcase.Kube.Exec.{Result, ok}
use pos_data_showcase.Status.{Resource, stateful_set, endpoints}
use pos_data_showcase.ClusterStatus.{set_conditions}
use pos_data_showcase.Cluster.{
  RabbitmqCluster, contains_plugin, tls_enabled, secret_tls_enabled, vault_tls_enabled,
  mutual_tls_enabled, single_tls_secret, disable_non_tls_listeners, uses_default_user_updater_image,
}
use pos_data_showcase.Resource.ContainerPorts.{update_container_ports}
use pos_data_showcase.Resource.ContainerPorts.Reached.{has_port}
use pos_data_showcase.Controllers.{Loop}
use pos_data_showcase.Controllers.OperatorDefaults.{
  reconcile_operator_defaults, default_if, write_default, update_rabbitmq_cluster,
  append_references,
}
use pos_data_showcase.Controllers.OperatorDefaults.Laws.{
  StoresSpec, or_default_references, updater_images, or_image, reconcile_operator_defaults-fields,
}
use pos_data_showcase.Controllers.TlsCheck.{
  has_key, has_key_pair, reconcile_tls, check_and_report, check_tls_secrets, check_keys,
  check_ca_secret, check_ca, read_secret,
}
use pos_data_showcase.Controllers.TlsCheck.Passed.{
  reconcile_tls-service_ports, reconcile_tls-HasKeys,
}
use pos_data_showcase.Controllers.Access.{stateful_set_of}
use pos_data_showcase.Controllers.Deletion.{
  deletion_finalizer, stateful_set_uid, owned_uid, add_finalizer_if_needed, prepare_for_deletion,
  remove_finalizer,
}
use pos_data_showcase.Controllers.Deletion.Laws.{
  FinalizerLaws, ServerFinalizers, stateful_set_uid-owned, prepare_for_deletion-contains,
}
use pos_data_showcase.Controllers.StatusConditions.{get_child_resources, update_status_conditions}
use pos_data_showcase.Controllers.StatusConditions.Laws.{update_status_conditions_quiet}
use pos_data_showcase.Tests.Sample.{
  plain_cluster, tls_cluster, sample_cluster, only_tls_listeners, sample_sts, sample_status,
}
use pos_data_showcase.Tests.ResourceRuns.{amqps, tls_has_amqps}
use pos_data_showcase.Tests.Reconcilers.{
  object_reconciler, test_reconciler, started, without, secret_data,
}

without_lem : (f : String) (fs : List String) → contains_plugin (without f fs) f ≡ false
unfolding contains_plugin
without_lem f [] = refl
without_lem f (g ∷ rest) = elim (Bool-cases (str_eq g f)) [
  | inl h ↦ rw h (without_lem f rest)
  | inr h ↦ rw h (rw h (without_lem f rest))
]

pub cc_ok : {A : Type 0} (a b : A) → ok a ≡ ok b → a ≡ b
cc_ok a b e = cc e

abbrev test_stores : StoresSpec test_reconciler
test_stores = λ c c' w e. ap (λ (d : RabbitmqCluster). d.spec) (sym (cc_ok c c' e))

contains_first : (f : String) (fs : List String) → contains_plugin (f ∷ fs) f ≡ true
unfolding contains_plugin
contains_first f fs = rw eq_refl

abbrev test_finalizers : FinalizerLaws object_reconciler
test_finalizers = record {
  contains-add = λ c f. contains_first f c.finalizers;
  contains-remove = λ c f. without_lem f c.finalizers;
  update_stores = λ c c' w f e.
      ap (λ (d : RabbitmqCluster). contains_plugin d.finalizers f) (sym (cc_ok c c' e));
}

abbrev defaulted : Result ℕ × Loop (List String)
defaulted = reconcile_operator_defaults test_reconciler (started plain_cluster)

defaulted_is_ok : defaulted.0 ≡ ok 0
unfolding reconcile_operator_defaults default_if write_default update_rabbitmq_cluster
    append_references split split_from uses_default_user_updater_image
defaulted_is_ok = refl

reconcile_operator_defaults-fields_example :
    (Path ℕ 0 0)
    × (defaulted.1.cluster.spec.image ≡ "rabbitmq:3")
    × (defaulted.1.cluster.spec.image_pull_secrets
        ≡ or_default_references (split "one,,two" ",") none)
    × (updater_images (λ i. i) defaulted.1.cluster.spec
        ≡ updater_images (or_image "updater:1") plain_cluster.spec)
    × (uses_default_user_updater_image defaulted.1.cluster ≡ false)
reconcile_operator_defaults-fields_example =
    reconcile_operator_defaults-fields test_reconciler test_stores (started plain_cluster)
      defaulted.1 0 (λ i. (defaulted_is_ok i, defaulted.1))

abbrev checked : Result (Unit {0}) × Loop (List String)
checked = reconcile_tls test_reconciler (started tls_cluster)

checked_is_ok : checked.0 ≡ ok tt
unfolding reconcile_tls disable_non_tls_listeners tls_enabled secret_tls_enabled mutual_tls_enabled
    single_tls_secret check_and_report check_tls_secrets read_secret check_keys has_key_pair
    check_ca_secret check_ca lookup
checked_is_ok = refl

names_secret : secret_tls_enabled tls_cluster ≡ true
unfolding secret_tls_enabled
names_secret = refl

is_mutual : mutual_tls_enabled tls_cluster ≡ true
unfolding mutual_tls_enabled secret_tls_enabled
is_mutual = refl

reconcile_tls-service_ports_example :
    (amqps.name ≡ "amqps")
    × (has_port amqps.name amqps.target_port (update_container_ports tls_cluster) ≡ true)
reconcile_tls-service_ports_example =
    reconcile_tls-service_ports test_reconciler (started tls_cluster) checked.1
      (λ i. (checked_is_ok i, checked.1)) "amqps" amqps tls_has_amqps

reconcile_tls-HasKeys_example :
    (entries : Dict String) × (Path (Result (Dict String)) (ok secret_data) (ok entries))
    × (has_key "tls.crt" entries ≡ true)
    × (has_key "tls.key" entries ≡ true)
reconcile_tls-HasKeys_example =
    reconcile_tls-HasKeys test_reconciler (started tls_cluster) checked.1
      (λ i. (checked_is_ok i, checked.1)) names_secret

abbrev broken_cluster : RabbitmqCluster
broken_cluster = sample_cluster only_tls_listeners none

broken_off : disable_non_tls_listeners broken_cluster ≡ true
unfolding disable_non_tls_listeners
broken_off = refl

broken_plain : tls_enabled broken_cluster ≡ false
unfolding tls_enabled secret_tls_enabled vault_tls_enabled
broken_plain = refl

uid_read : stateful_set_uid test_reconciler plain_cluster [] ≡ (ok "sts-uid", [])
unfolding stateful_set_uid stateful_set_of owned_uid
uid_read = refl

stateful_set_uid-owned_example :
    (sts : StatefulSet) × (ref : OwnerReference) × (Path
      (Result StatefulSet)
      (ok (sample_sts 10))
      (ok sts))
    × (sts.controller ≡ some ref)
    × (ref.uid ≡ "uid")
    × ("sts-uid" ≡ sts.uid)
unfolding stateful_set_of
stateful_set_uid-owned_example =
    stateful_set_uid-owned test_reconciler plain_cluster "sts-uid" [] [] uid_read

abbrev finalized : Result (Unit {0}) × Loop (List String)
finalized = add_finalizer_if_needed test_reconciler (started plain_cluster)

finalized_is_ok : finalized.0 ≡ ok tt
unfolding add_finalizer_if_needed contains_plugin
finalized_is_ok = refl

abbrev finalizing_cluster : RabbitmqCluster
finalizing_cluster = record plain_cluster { finalizers = deletion_finalizer ∷ [] }

abbrev removed : Result (Unit {0}) × Loop RabbitmqCluster
removed =
    prepare_for_deletion object_reconciler
      (record { cluster = finalizing_cluster; world = finalizing_cluster })

removed_is_ok : removed.0 ≡ ok tt
unfolding prepare_for_deletion remove_finalizer contains_plugin
removed_is_ok = refl

abbrev server_finalizers : ServerFinalizers object_reconciler
server_finalizers = record {
  kept = λ w f. contains_plugin w.finalizers f;
  update_keeps = λ c c' w w' f e.
      ap (λ (p : Result RabbitmqCluster × RabbitmqCluster). contains_plugin p.1.finalizers f)
        (sym e);
}

prepare_for_deletion-contains_example :
    (contains_plugin removed.1.cluster.finalizers deletion_finalizer ≡ false)
    × (contains_plugin removed.1.world.finalizers deletion_finalizer ≡ false)
prepare_for_deletion-contains_example =
    prepare_for_deletion-contains object_reconciler test_finalizers server_finalizers
      (record { cluster = finalizing_cluster; world = finalizing_cluster }) removed.1 refl
      (λ i. (removed_is_ok i, removed.1))

abbrev children : List Resource
children = stateful_set (some (sample_sts 10)) ∷ endpoints none ∷ []

abbrev settled_cluster : RabbitmqCluster
settled_cluster = record plain_cluster { status = set_conditions 4 children sample_status }

children_read : get_child_resources test_reconciler settled_cluster [] ≡ (ok children, [])
unfolding get_child_resources is_not_found reason_for_error
children_read = refl

update_status_conditions_quiet_example :
    update_status_conditions test_reconciler (started settled_cluster)
    ≡ (ok 0, started settled_cluster)
update_status_conditions_quiet_example =
    update_status_conditions_quiet test_reconciler (started settled_cluster) children [] 4
      sample_status refl children_read
