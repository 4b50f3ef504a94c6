-- ===== src/Tests/StatefulSetRuns.antt =====
-- The StatefulSet of a sample cluster with Vault, storage and a container for the default user.
use pos_data_showcase.Prelude.{true, some, [], ◌∷◌, ◌≡◌, refl, str_eq, if◌then◌else◌}
use mathlib.Core.Path.{subst}
use pos_data_showcase.Kube.Exec.{ok}
use pos_data_showcase.Kube.Outcome.{Outcome, returned, failed, panic}
use pos_data_showcase.Kube.Objects.{OwnerReference, PersistentVolumeClaim, StatefulSet}
use pos_data_showcase.Cluster.{RabbitmqCluster, VaultSpec}
use pos_data_showcase.Resource.PodTemplate.{pod_template_spec, template_from}
use pos_data_showcase.Resource.StatefulSets.{
  Packages, new_stateful_set, new_claim, disable_block_owner_deletion, build, update, update_fields,
  written_fields, has_requests, apply_sts_override, persistent_volume_claim, claims_for,
  owned_claim, override_fixed,
}
use pos_data_showcase.Resource.StatefulSets.Startable.{
  PackageLaws, IsFitting, IsStartable, update-IsStartable,
}
use pos_data_showcase.Resource.StatefulSets.Built.{build-update-IsStartable}
use pos_data_showcase.Tests.Sample.{
  sample_cluster, only_tls_listeners, vault_with_tls, resources_of,
}
use pos_data_showcase.Tests.ReconcilerRuns.{cc_ok}

abbrev user_vault : VaultSpec
user_vault = record vault_with_tls {
  annotations = ("vault.hashicorp.com/role", "mine") ∷ [];
  default_user_path = "secret/data/user";
  default_user_updater_image = some "updater:1";
}

abbrev pub full_cluster : RabbitmqCluster
full_cluster =
    let c = sample_cluster only_tls_listeners (some user_vault) in
    record c {
      spec = record c.spec {
        resources = some (resources_of 4 4);
        termination_grace_period_seconds = some 60;
      };
    }

abbrev pub owner_of : RabbitmqCluster → OwnerReference
owner_of c = record {
  api_version = "rabbitmq.com/v1beta1";
  kind = "RabbitmqCluster";
  name = c.name;
  uid = c.uid;
  block_owner_deletion = some true;
}

abbrev owned : RabbitmqCluster → PersistentVolumeClaim → PersistentVolumeClaim
owned c p = record p { owner_references = owner_of c ∷ [] }

abbrev pub controlled : RabbitmqCluster → StatefulSet → StatefulSet
controlled c s = record s { controller = some (owner_of c) }

abbrev pub test_packages : Packages
test_packages = record {
  parse_quantity = λ text. if str_eq text "0Gi" then 0 else 1;
  set_claim_controller = λ c p. ok (owned c p);
  set_controller = λ c s. ok (controlled c s);
  merge_pod_spec = λ spec given. ok spec;
}

abbrev pub test_package_laws : PackageLaws test_packages
test_package_laws = record {
  zero_storage = refl;
  claim_kept = λ c p p' e.
      subst (λ (x : PersistentVolumeClaim). x ≡ record p { owner_references = x.owner_references })
        (cc_ok (owned c p) p' e) refl;
  kept = λ c s s' e.
      subst (λ (x : StatefulSet). x ≡ record s { controller = x.controller })
        (cc_ok (controlled c s) s' e) refl;
}

abbrev pub built : StatefulSet
built = new_stateful_set full_cluster (
    disable_block_owner_deletion (owned full_cluster (new_claim test_packages full_cluster 10))
    ∷ [])

pub built_lem : build test_packages full_cluster ≡ returned built
unfolding build persistent_volume_claim claims_for owned_claim override_fixed
built_lem = refl

abbrev pub or_default : {A : Type 0} → Outcome A → A → A
or_default (returned a) b = a
or_default (failed e) b = b
or_default panic b = b

abbrev pub running : StatefulSet
running = or_default (update test_packages full_cluster built) built

pub running_lem : update test_packages full_cluster built ≡ returned running
unfolding update update_fields written_fields has_requests apply_sts_override pod_template_spec
    template_from new_stateful_set disable_block_owner_deletion new_claim
running_lem = refl

build-update-IsStartable_example : IsFitting full_cluster built × IsStartable full_cluster running
build-update-IsStartable_example =
    build-update-IsStartable test_packages test_package_laws full_cluster built running refl
      built_lem running_lem

built-IsFitting : IsFitting full_cluster built
unfolding build
built-IsFitting = build-update-IsStartable_example.0

update-IsStartable_example : IsStartable full_cluster running × IsFitting full_cluster running
update-IsStartable_example =
    update-IsStartable test_packages test_package_laws full_cluster built running refl
      built-IsFitting running_lem
