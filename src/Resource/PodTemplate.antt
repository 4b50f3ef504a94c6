-- ===== src/Resource/PodTemplate.antt =====
-- internal/resource/statefulset.go: `podTemplateSpec`. `parse_quantity` is `MustParse` of
-- k8s.io/apimachinery. Affinity and tolerations, which are only copied, are left out.
pub mod Mounted
pub mod Annotations
use pos_data_showcase.Prelude.{
  ℕ, String, Option, none, some, List, [], ◌∷◌, when, true, false, ◌&&◌, Bool, if◌then◌else◌,
}
use pos_data_showcase.Prelude.Dict.{Dict}
use pos_data_showcase.Kube.Pods.{
  Quantity, ResourceRequirements, TopologySpreadConstraint, Container, PodSpec, PodTemplate,
}
use pos_data_showcase.Metadata.{label, label_selector, reconcile_annotations}
use pos_data_showcase.Cluster.{
  RabbitmqCluster, VaultSpec, child_resource_name, is_set, default_user_secret_enabled,
}
use pos_data_showcase.Resource.Vault.{append_vault_annotations}
use pos_data_showcase.Resource.Volumes.{pod_volumes}
use pos_data_showcase.Resource.Containers.{
  rabbitmq_container, setup_container, default_user_credential_updater,
}

-- `defaultPodAnnotations`, for the Vault settings.
unfoldable pub default_pod_annotations : RabbitmqCluster → Option VaultSpec → Dict String
default_pod_annotations cluster none = []
default_pod_annotations cluster (some vault) = append_vault_annotations [] cluster vault

-- The pods of a cluster are spread over the zones.
abbrev pub zone_constraint : RabbitmqCluster → TopologySpreadConstraint
zone_constraint cluster = record {
  max_skew = 1;
  topology_key = "topology.kubernetes.io/zone";
  when_unsatisfiable = "ScheduleAnyway";
  match_labels = label_selector cluster.name;
}

module _ (parse_quantity : String → Quantity) where
  -- The container that is appended to the first one, by the Vault settings and their image.
  unfoldable pub updater_for : RabbitmqCluster → VaultSpec → Option String → List Container
  updater_for cluster vault none = []
  updater_for cluster vault (some image) =
      when (default_user_secret_enabled vault && is_set image)
        (default_user_credential_updater parse_quantity cluster image ∷ [])

  unfoldable pub updater_containers : RabbitmqCluster → Option VaultSpec → List Container
  updater_containers cluster none = []
  updater_containers cluster (some vault) =
      updater_for cluster vault vault.default_user_updater_image

  -- The template for the values behind the pointers of the specification.
  unfoldable pub template_with :
      RabbitmqCluster → Dict String → Quantity → ResourceRequirements → ℕ → PodTemplate
  template_with cluster previous storage resources seconds = record {
    name = "";
    labels = label cluster.name;
    annotations =
        reconcile_annotations previous
          (default_pod_annotations cluster cluster.spec.secret_backend.vault ∷ []);
    spec = record {
      topology_spread_constraints = zone_constraint cluster ∷ [];
      security_context = some (("fsGroup", "0") ∷ ("runAsUser", "999") ∷ []);
      image_pull_secrets = cluster.spec.image_pull_secrets;
      termination_grace_period_seconds = some seconds;
      service_account_name = child_resource_name cluster "server";
      automount_service_account_token = true;
      init_containers = setup_container parse_quantity cluster ∷ [];
      volumes = pod_volumes (parse_quantity "0Gi") cluster storage;
      container = rabbitmq_container cluster resources seconds;
      other_containers = updater_containers cluster cluster.spec.secret_backend.vault;
    };
  }

  -- `none` is the panic of a nil pointer that is followed.
  unfoldable pub template_from :
      RabbitmqCluster
      → Dict String
      → Option Quantity
      → Option ResourceRequirements
      → Option ℕ
      → Option PodTemplate
  template_from cluster previous none resources seconds = none
  template_from cluster previous (some storage) none seconds = none
  template_from cluster previous (some storage) (some resources) none = none
  template_from cluster previous (some storage) (some resources) (some seconds) =
      some (template_with cluster previous storage resources seconds)

  unfoldable pub pod_template_spec : RabbitmqCluster → Dict String → Option PodTemplate
  pod_template_spec cluster previous =
      template_from cluster previous cluster.spec.persistence.storage cluster.spec.resources
        cluster.spec.termination_grace_period_seconds
