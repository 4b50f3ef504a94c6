-- ===== src/Cluster.antt =====
-- api/v1beta1/rabbitmqcluster_types.go: the custom resource and what its methods answer. Left out
-- are the fields that the operator only copies to the StatefulSet (affinity, tolerations) and the
-- override of the client service.
pub mod Tls
use pos_data_showcase.Prelude.{
  ℕ, String, ◌<>◌, Bool, true, false, not, ◌&&◌, ◌||◌, Option, none, some, List, [], ◌∷◌, str_eq,
  ◌==◌, if◌then◌else◌,
}
use pos_data_showcase.Prelude.Decimal.{decimal}
use pos_data_showcase.Prelude.Dict.{Dict, lookup}
use pos_data_showcase.Prelude.Strings.{trim_suffix}
use pos_data_showcase.Kube.Objects.{Time, or_zero}
use pos_data_showcase.Kube.Pods.{Quantity, ResourceRequirements}
use pos_data_showcase.Override.{RabbitmqClusterOverrideSpec}
use pos_data_showcase.ClusterStatus.{RabbitmqClusterStatus}

abbrev pub Plugin : Type 0
Plugin = String

pub record VaultTlsSpec : Type 0 where
  pub pki_issuer_path : String
  pub common_name : String
  pub alt_names : String
  pub ip_sans : String

pub record VaultSpec : Type 0 where
  pub role : String
  pub annotations : Dict String
  pub default_user_path : String
  pub default_user_updater_image : Option String
  pub tls : VaultTlsSpec

pub record SecretBackend : Type 0 where
  pub vault : Option VaultSpec

pub record TlsSpec : Type 0 where
  pub secret_name : String
  pub ca_secret_name : String
  pub disable_non_tls_listeners : Bool

pub record RabbitmqClusterConfigurationSpec : Type 0 where
  pub additional_plugins : List Plugin
  pub additional_config : String
  pub advanced_config : String
  pub env_config : String

pub record RabbitmqClusterPersistenceSpec : Type 0 where
  pub storage_class_name : Option String
  pub storage : Option Quantity

pub record RabbitmqClusterServiceSpec : Type 0 where
  pub type : String
  pub annotations : Dict String

pub record RabbitmqClusterSpec : Type 0 where
  pub replicas : Option ℕ
  pub image : String
  pub image_pull_secrets : Option (List String)
  pub service : RabbitmqClusterServiceSpec
  pub persistence : RabbitmqClusterPersistenceSpec
  pub resources : Option ResourceRequirements
  pub rabbitmq : RabbitmqClusterConfigurationSpec
  pub tls : TlsSpec
  pub skip_post_deploy_steps : Bool
  pub termination_grace_period_seconds : Option ℕ
  pub secret_backend : SecretBackend
  pub override : RabbitmqClusterOverrideSpec

-- Of the object's metadata, the fields that the operator uses; `deletion_timestamp` is `none` where
-- the time is zero.
pub record RabbitmqCluster : Type 0 where
  pub name : String
  pub namespace : String
  pub uid : String
  pub generation : ℕ
  pub labels : Dict String
  pub annotations : Dict String
  pub finalizers : List String
  pub deletion_timestamp : Option Time
  pub spec : RabbitmqClusterSpec
  pub status : RabbitmqClusterStatus

-- `s != ""`
abbrev pub is_set : String → Bool
is_set s = not (str_eq s "")

unfoldable pub vault_spec_tls_enabled : VaultSpec → Bool
vault_spec_tls_enabled spec = is_set spec.tls.pki_issuer_path

unfoldable pub default_user_secret_enabled : VaultSpec → Bool
default_user_secret_enabled spec = is_set spec.default_user_path

unfoldable pub vault_enabled : RabbitmqCluster → Bool
vault_enabled cluster = elim cluster.spec.secret_backend.vault [ none ↦ false | some _ ↦ true ]

-- `VaultEnabled() && Vault.DefaultUserUpdaterImage == nil`
unfoldable pub uses_default_user_updater_image : RabbitmqCluster → Bool
uses_default_user_updater_image cluster = elim cluster.spec.secret_backend.vault [
  | none ↦ false
  | some vault ↦ elim vault.default_user_updater_image [ none ↦ true | some _ ↦ false ]
]

-- `VaultEnabled() && Vault.DefaultUserSecretEnabled()`
unfoldable pub vault_default_user_secret_enabled : RabbitmqCluster → Bool
unfolding default_user_secret_enabled
vault_default_user_secret_enabled cluster = elim cluster.spec.secret_backend.vault [
  | none ↦ false
  | some vault ↦ default_user_secret_enabled vault
]

-- `VaultEnabled() && Vault.TLSEnabled()`
unfoldable pub vault_tls_enabled : RabbitmqCluster → Bool
unfolding vault_spec_tls_enabled
vault_tls_enabled cluster = elim cluster.spec.secret_backend.vault [
  | none ↦ false
  | some vault ↦ vault_spec_tls_enabled vault
]

unfoldable pub secret_tls_enabled : RabbitmqCluster → Bool
secret_tls_enabled cluster = is_set cluster.spec.tls.secret_name

unfoldable pub tls_enabled : RabbitmqCluster → Bool
tls_enabled cluster = secret_tls_enabled cluster || vault_tls_enabled cluster

unfoldable pub mutual_tls_enabled : RabbitmqCluster → Bool
mutual_tls_enabled cluster =
    (secret_tls_enabled cluster && is_set cluster.spec.tls.ca_secret_name)
    || vault_tls_enabled cluster

abbrev pub memory_limit : ResourceRequirements → Quantity
memory_limit resources = or_zero (lookup "memory" resources.limits)

unfoldable pub memory_limited : RabbitmqCluster → Bool
memory_limited cluster = elim cluster.spec.resources [
  | none ↦ false
  | some resources ↦ not (memory_limit resources == 0)
]

unfoldable pub single_tls_secret : RabbitmqCluster → Bool
single_tls_secret cluster =
    mutual_tls_enabled cluster
    && str_eq cluster.spec.tls.ca_secret_name cluster.spec.tls.secret_name

unfoldable pub disable_non_tls_listeners : RabbitmqCluster → Bool
disable_non_tls_listeners cluster = cluster.spec.tls.disable_non_tls_listeners

-- The loop of `AdditionalPluginEnabled`, and of `pluginEnabled` in default_user_secret.go.
unfoldable pub contains_plugin : List Plugin → Plugin → Bool
contains_plugin [] plugin = false
contains_plugin (p ∷ rest) plugin = if str_eq p plugin then true else contains_plugin rest plugin

unfoldable pub additional_plugin_enabled : RabbitmqCluster → Plugin → Bool
additional_plugin_enabled cluster plugin =
    contains_plugin cluster.spec.rabbitmq.additional_plugins plugin

unfoldable pub stream_needed : RabbitmqCluster → Bool
stream_needed cluster =
    additional_plugin_enabled cluster "rabbitmq_stream"
    || additional_plugin_enabled cluster "rabbitmq_multi_dc_replication"

unfoldable pub service_sub_domain : RabbitmqCluster → String
service_sub_domain cluster = cluster.name <> ("." <> (cluster.namespace <> ".svc"))

unfoldable pub child_resource_name : RabbitmqCluster → String → String
child_resource_name cluster name = trim_suffix (cluster.name <> ("-" <> name)) "-"

unfoldable pub pvc_name : RabbitmqCluster → ℕ → String
pvc_name cluster i = "persistence-" <> (cluster.name <> ("-" <> ("server-" <> decimal i)))
