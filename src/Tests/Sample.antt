-- ===== src/Tests/Sample.antt =====
-- A cluster of one node with its StatefulSet, on which the theorems are run.
use pos_data_showcase.Prelude.{String, true, false, Option, none, some, [], ◌∷◌}
use pos_data_showcase.Kube.Objects.{PersistentVolumeClaim, StatefulSet}
use pos_data_showcase.Kube.Pods.{Quantity, ResourceRequirements, PodTemplate, Container}
use pos_data_showcase.Status.{
  RabbitmqClusterCondition, all_replicas_ready, reconcile_success, condition_true, condition_false,
}
use pos_data_showcase.ClusterStatus.{RabbitmqClusterStatus}
use pos_data_showcase.Cluster.{VaultSpec, TlsSpec, RabbitmqCluster}

abbrev pub resources_of : Quantity → Quantity → ResourceRequirements
resources_of limit request = record {
  limits = ("memory", limit) ∷ [];
  requests = ("memory", request) ∷ [];
}

abbrev pub sample_container : Container
sample_container = record {
  name = "rabbitmq";
  image = "rabbitmq:3";
  command = [];
  args = [];
  resources = resources_of 4 4;
  env = [];
  volume_mounts = [];
  ports = [];
  readiness_port = none;
  pre_stop = [];
  security_context = none;
}

abbrev pub sample_template : PodTemplate
sample_template = record {
  name = "";
  labels = [];
  annotations = [];
  spec = record {
    topology_spread_constraints = [];
    security_context = none;
    image_pull_secrets = none;
    termination_grace_period_seconds = none;
    service_account_name = "";
    automount_service_account_token = true;
    init_containers = [];
    volumes = [];
    container = sample_container;
    other_containers = [];
  };
}

abbrev pub claim : String → Quantity → PersistentVolumeClaim
claim name size = record {
  name = name;
  namespace = "shop";
  labels = [];
  annotations = [];
  owner_references = [];
  requests = ("storage", size) ∷ [];
  access_modes = [];
  storage_class_name = none;
}

abbrev pub sample_sts : Quantity → StatefulSet
sample_sts size = record {
  name = "pos-server";
  namespace = "shop";
  uid = "sts-uid";
  labels = [];
  annotations = [];
  controller = some (record {
    api_version = "rabbitmq.com/v1beta1";
    kind = "RabbitmqCluster";
    name = "pos";
    uid = "uid";
    block_owner_deletion = none;
  });
  service_name = "pos-nodes";
  match_labels = [];
  pod_management_policy = "Parallel";
  update_strategy = record { type = "RollingUpdate"; partition = some 0 };
  replicas = some 1;
  template = sample_template;
  volume_claim_templates = claim "persistence" size ∷ [];
  ready_replicas = 1;
  current_revision = "r1";
  update_revision = "r1";
}

abbrev pub ready_condition : RabbitmqClusterCondition
ready_condition = record {
  type = all_replicas_ready;
  status = condition_false;
  last_transition_time = 5;
  reason = "NotAllPodsReady";
  message = "0/1 Pods ready";
}

abbrev pub success_condition : RabbitmqClusterCondition
success_condition = record {
  type = reconcile_success;
  status = condition_true;
  last_transition_time = 7;
  reason = "Success";
  message = "Finish reconciling";
}

abbrev pub sample_status : RabbitmqClusterStatus
sample_status = record {
  conditions = ready_condition ∷ success_condition ∷ [];
  default_user = none;
  binding = none;
  observed_generation = 1;
}

abbrev pub vault_with_tls : VaultSpec
vault_with_tls = record {
  role = "rabbitmq";
  annotations = [];
  default_user_path = "";
  default_user_updater_image = none;
  tls = record {
    pki_issuer_path = "pki/issue/cert";
    common_name = "";
    alt_names = "";
    ip_sans = "";
  };
}

abbrev pub sample_cluster : TlsSpec → Option VaultSpec → RabbitmqCluster
sample_cluster tls vault = record {
  name = "pos";
  namespace = "shop";
  uid = "uid";
  generation = 1;
  labels = ("team", "sales") ∷ [];
  annotations = [];
  finalizers = [];
  deletion_timestamp = none;
  spec = record {
    replicas = some 1;
    image = "";
    image_pull_secrets = none;
    service = record { type = "ClusterIP"; annotations = [] };
    persistence = record { storage_class_name = none; storage = some 10 };
    resources = none;
    rabbitmq = record {
      additional_plugins = "rabbitmq_stream" ∷ "rabbitmq_web_mqtt" ∷ [];
      additional_config = "";
      advanced_config = "";
      env_config = "";
    };
    tls = tls;
    skip_post_deploy_steps = false;
    termination_grace_period_seconds = none;
    secret_backend = record { vault = vault };
    override = record { stateful_set = none; service = none };
  };
  status = sample_status;
}

abbrev pub no_tls : TlsSpec
no_tls = record { secret_name = ""; ca_secret_name = ""; disable_non_tls_listeners = false }

abbrev pub secret_tls : TlsSpec
secret_tls = record { secret_name = "tls"; ca_secret_name = "ca"; disable_non_tls_listeners = true }

abbrev pub only_tls_listeners : TlsSpec
only_tls_listeners = record {
  secret_name = "";
  ca_secret_name = "";
  disable_non_tls_listeners = true;
}

abbrev pub plain_cluster : RabbitmqCluster
plain_cluster = sample_cluster no_tls none

abbrev pub tls_cluster : RabbitmqCluster
tls_cluster = sample_cluster secret_tls none

abbrev pub vault_cluster : RabbitmqCluster
vault_cluster = sample_cluster only_tls_listeners (some vault_with_tls)
