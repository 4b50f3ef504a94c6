-- ===== src/Resource/StatefulSets.antt =====
-- internal/resource/statefulset.go: `Build` and `Update` of the StatefulSet, with the override.
pub mod Fields
pub mod Startable
pub mod Built
use pos_data_showcase.Prelude.{
  ◌&&◌, ℕ, String, Bool, true, false, Option, none, some, List, [], ◌∷◌, str_eq, ◌==◌,
  if◌then◌else◌,
}
use pos_data_showcase.Prelude.Dict.{Dict, insert}
use pos_data_showcase.Kube.Error.{Error, wrapped}
use pos_data_showcase.Kube.Exec.{Result}
use pos_data_showcase.Kube.Outcome.{panic, Outcome, returned, deref, or_failed, wrap_failed, ◌>>=◌}
use pos_data_showcase.Kube.Objects.{
  PersistentVolumeClaim, StatefulSet, OwnerReference, UpdateStrategy,
}
use pos_data_showcase.Kube.Pods.{Quantity, PodSpec, PodTemplate}
use pos_data_showcase.Override.{
  EmbeddedLabelsAnnotations, EmbeddedObjectMeta, ClaimOverride, PodSpecOverride, PodTemplateSpec,
  StatefulSetSpec, StatefulSetOverride,
}
use pos_data_showcase.Metadata.{label, label_selector, get_labels, reconcile_and_filter_annotations}
use pos_data_showcase.Cluster.{RabbitmqCluster, child_resource_name, is_set}
use pos_data_showcase.Resource.PodTemplate.{pod_template_spec}
use pos_data_showcase.Resource.PodPatch.{merge_map, patch_pod_spec}

-- What the builder calls of other packages: `MustParse` of k8s.io/apimachinery,
-- `SetControllerReference` of controllerutil for the two kinds of object, and the strategic merge
-- patch.
pub record Packages : Type 0 where
  pub parse_quantity : String → Quantity
  pub set_claim_controller : RabbitmqCluster → PersistentVolumeClaim → Result PersistentVolumeClaim
  pub set_controller : RabbitmqCluster → StatefulSet → Result StatefulSet
  pub merge_pod_spec : PodSpec → PodSpecOverride → Result PodSpec

abbrev pub rolling_update : UpdateStrategy
rolling_update = record { type = "RollingUpdate"; partition = some 0 }

-- The template of a StatefulSet that is only built; `Update` gives it one.
abbrev pub no_template : PodTemplate
no_template = record {
  name = "";
  labels = [];
  annotations = [];
  spec = record {
    topology_spread_constraints = [];
    security_context = none;
    image_pull_secrets = none;
    termination_grace_period_seconds = none;
    service_account_name = "";
    automount_service_account_token = false;
    init_containers = [];
    volumes = [];
    container = record {
      name = "";
      image = "";
      command = [];
      args = [];
      resources = record { limits = []; requests = [] };
      env = [];
      volume_mounts = [];
      ports = [];
      readiness_port = none;
      pre_stop = [];
      security_context = none;
    };
    other_containers = [];
  };
}

unfoldable pub unblock : List OwnerReference → List OwnerReference
unblock [] = []
unblock (r ∷ rest) = record r { block_owner_deletion = some false } ∷ unblock rest

unfoldable pub disable_block_owner_deletion : PersistentVolumeClaim → PersistentVolumeClaim
disable_block_owner_deletion pvc = record pvc { owner_references = unblock pvc.owner_references }

unfoldable pub update_persistence_storage_capacity :
    List PersistentVolumeClaim → Quantity → List PersistentVolumeClaim
update_persistence_storage_capacity [] capacity = []
update_persistence_storage_capacity (t ∷ rest) capacity =
    (if str_eq t.name "persistence"
      then record t { requests = insert "storage" capacity t.requests }
      else t)
    ∷ update_persistence_storage_capacity rest capacity

-- A write to a nil map panics. A map without entries is read from the API server as nil.
abbrev pub has_entries : {A : Type 0} → List A → Bool
has_entries [] = false
has_entries (a ∷ rest) = true

-- Each template that `updatePersistenceStorageCapacity` writes to has requests to write to.
unfoldable pub has_requests : List PersistentVolumeClaim → Bool
has_requests [] = true
has_requests (t ∷ rest) =
    (if str_eq t.name "persistence" then has_entries t.requests else true) && has_requests rest

-- `if override != nil`, and what a text that is not set leaves.
abbrev pub or_current : {A : Type 0} → Option A → A → A
or_current (some a) current = a
or_current none current = current

abbrev pub text_or : String → String → String
text_or given current = if is_set given then given else current

-- The override of the fields that cannot be updated.
unfoldable pub override_fixed : Option StatefulSetOverride → StatefulSet → StatefulSet
override_fixed none sts = sts
override_fixed (some o) sts = elim o.spec [
  | none ↦ sts
  | some spec ↦ record sts {
    match_labels = or_current spec.selector sts.match_labels;
    service_name = text_or spec.service_name sts.service_name;
  }
]

unfoldable pub copy_labels_annotations :
    Option EmbeddedLabelsAnnotations → StatefulSet → StatefulSet
copy_labels_annotations none sts = sts
copy_labels_annotations (some o) sts = record sts {
  labels = merge_map sts.labels o.labels;
  annotations = merge_map sts.annotations o.annotations;
}

-- `copyObjectMeta` to a new claim, and to the pod template.
unfoldable pub override_template_meta : Option EmbeddedObjectMeta → PodTemplate → PodTemplate
override_template_meta none template = template
override_template_meta (some o) template = record template {
  name = text_or o.name template.name;
  labels = merge_map template.labels o.labels;
  annotations = merge_map template.annotations o.annotations;
}

-- The StatefulSet of `Build`, before the override.
unfoldable pub new_stateful_set : RabbitmqCluster → List PersistentVolumeClaim → StatefulSet
new_stateful_set cluster pvc = record {
  name = child_resource_name cluster "server";
  namespace = cluster.namespace;
  uid = "";
  labels = [];
  annotations = [];
  controller = none;
  service_name = child_resource_name cluster "nodes";
  match_labels = label_selector cluster.name;
  pod_management_policy = "Parallel";
  update_strategy = record { type = ""; partition = none };
  replicas = none;
  template = no_template;
  volume_claim_templates = pvc;
  ready_replicas = 0;
  current_revision = "";
  update_revision = "";
}

module _ (pkg : Packages) where
  unfoldable pub new_claim : RabbitmqCluster → Quantity → PersistentVolumeClaim
  new_claim cluster storage = record {
    name = "persistence";
    namespace = cluster.namespace;
    labels = label cluster.name;
    annotations = reconcile_and_filter_annotations [] (cluster.annotations ∷ []);
    owner_references = [];
    requests = ("storage", storage) ∷ [];
    access_modes = "ReadWriteOnce" ∷ [];
    storage_class_name = cluster.spec.persistence.storage_class_name;
  }

  unfoldable pub owned_claim : RabbitmqCluster → Quantity → Outcome (List PersistentVolumeClaim)
  owned_claim cluster storage = do
    pvc ←
        or_failed (wrapped "failed setting controller reference")
          (pkg.set_claim_controller cluster (new_claim cluster storage))
    returned (disable_block_owner_deletion pvc ∷ [])

  unfoldable pub claims_for : RabbitmqCluster → Quantity → Outcome (List PersistentVolumeClaim)
  claims_for cluster storage =
      if storage == pkg.parse_quantity "0Gi" then returned [] else owned_claim cluster storage

  unfoldable pub persistent_volume_claim : RabbitmqCluster → Outcome (List PersistentVolumeClaim)
  persistent_volume_claim cluster = do
    storage ← deref cluster.spec.persistence.storage
    claims_for cluster storage

  unfoldable pub build : RabbitmqCluster → Outcome StatefulSet
  build cluster = do
    pvc ← persistent_volume_claim cluster
    returned (override_fixed cluster.spec.override.stateful_set (new_stateful_set cluster pvc))

  -- A claim of the override, in the namespace of the StatefulSet.
  unfoldable pub override_claim :
      RabbitmqCluster → String → ClaimOverride → Outcome PersistentVolumeClaim
  override_claim cluster namespace o = do
    pvc ← or_failed (wrapped "failed setting controller reference") (
        pkg.set_claim_controller cluster (record {
          name = o.metadata.name;
          namespace = namespace;
          labels = merge_map [] o.metadata.labels;
          annotations = merge_map [] o.metadata.annotations;
          owner_references = [];
          requests = o.requests;
          access_modes = o.access_modes;
          storage_class_name = o.storage_class_name;
        }))
    returned (disable_block_owner_deletion pvc)

  unfoldable pub override_claims :
      RabbitmqCluster → String → List ClaimOverride → Outcome (List PersistentVolumeClaim)
  override_claims cluster namespace [] = returned []
  override_claims cluster namespace (o ∷ rest) = do
    pvc ← override_claim cluster namespace o
    others ← override_claims cluster namespace rest
    returned (pvc ∷ others)

  -- The claims of the override take the place of the templates, where the cluster has storage.
  unfoldable pub override_templates :
      RabbitmqCluster → List ClaimOverride → StatefulSet → Outcome StatefulSet
  override_templates cluster [] sts = returned sts
  override_templates cluster (o ∷ rest) sts = do
    storage ← deref cluster.spec.persistence.storage
    if storage == pkg.parse_quantity "0Gi" then returned sts else (do
      claims ← override_claims cluster sts.namespace (o ∷ rest)
      returned (record sts { volume_claim_templates = claims }))

  unfoldable pub override_pod : Option PodSpecOverride → PodTemplate → Outcome PodTemplate
  override_pod none template = returned template
  override_pod (some o) template = do
    spec ← patch_pod_spec pkg.merge_pod_spec template.spec o
    returned (record template { spec = spec })

  unfoldable pub override_template : Option PodTemplateSpec → StatefulSet → Outcome StatefulSet
  override_template none sts = returned sts
  override_template (some o) sts = do
    template ← override_pod o.spec (override_template_meta o.metadata sts.template)
    returned (record sts { template = template })

  unfoldable pub override_spec :
      RabbitmqCluster → Option StatefulSetSpec → StatefulSet → Outcome StatefulSet
  override_spec cluster none sts = returned sts
  override_spec cluster (some spec) sts = do
    with_claims ← override_templates cluster spec.volume_claim_templates (record sts {
      replicas = elim spec.replicas [ none ↦ sts.replicas | some n ↦ some n ];
      update_strategy = or_current spec.update_strategy sts.update_strategy;
      pod_management_policy = text_or spec.pod_management_policy sts.pod_management_policy;
    })
    override_template spec.template with_claims

  unfoldable pub apply_sts_override :
      RabbitmqCluster → Option StatefulSetOverride → StatefulSet → Outcome StatefulSet
  apply_sts_override cluster none sts = returned sts
  apply_sts_override cluster (some o) sts =
      override_spec cluster o.spec (copy_labels_annotations o.metadata sts)

  -- The fields that `Update` writes before the override. The capacity is followed only where there is a
  -- claim of the name; the pod template follows it in any case.
  unfoldable pub written_fields : RabbitmqCluster → StatefulSet → Outcome StatefulSet
  written_fields cluster sts = do
    storage ← deref cluster.spec.persistence.storage
    template ← deref (pod_template_spec pkg.parse_quantity cluster sts.template.annotations)
    returned (record sts {
      replicas = cluster.spec.replicas;
      update_strategy = rolling_update;
      annotations = reconcile_and_filter_annotations sts.annotations (cluster.annotations ∷ []);
      labels = get_labels cluster.name cluster.labels;
      volume_claim_templates =
          update_persistence_storage_capacity sts.volume_claim_templates storage;
      template = template;
    })

  -- Where a claim template has no requests, its capacity cannot be written.
  unfoldable pub update_fields : RabbitmqCluster → StatefulSet → Outcome StatefulSet
  update_fields cluster sts =
      if has_requests sts.volume_claim_templates then written_fields cluster sts else panic

  unfoldable pub update : RabbitmqCluster → StatefulSet → Outcome StatefulSet
  update cluster sts = do
    written ← update_fields cluster sts
    given ←
        wrap_failed (wrapped "failed applying StatefulSet override")
          (apply_sts_override cluster cluster.spec.override.stateful_set written)
    or_failed (wrapped "failed setting controller reference") (pkg.set_controller cluster given)
