-- ===== src/Resource/ServerConfig/Files.antt =====
-- internal/resource/configmap.go: `Build` and `Update` of the config map of the server.
use pos_data_showcase.Prelude.{String, Bool, true, false, none, [], ◌∷◌}
use pos_data_showcase.Prelude.Dict.{Dict, insert}
use pos_data_showcase.Kube.Error.{wrapped}
use pos_data_showcase.Kube.Exec.{Result}
use pos_data_showcase.Kube.Outcome.{Outcome, returned, or_failed, ◌>>=◌}
use pos_data_showcase.Kube.Objects.{ConfigMap}
use pos_data_showcase.Metadata.{get_labels, reconcile_and_filter_annotations}
use pos_data_showcase.Cluster.{RabbitmqCluster, child_resource_name, tls_enabled}
use pos_data_showcase.Resource.Ini.{IniPackage, new_keys}
use pos_data_showcase.Resource.ServerConfig.{user_keys, update_property}

abbrev pub server_config_map_name : String
server_config_map_name = "server-conf"

abbrev pub default_rabbitmq_conf : String
default_rabbitmq_conf =
    "\ncluster_formation.peer_discovery_backend = rabbit_peer_discovery_k8s\ncluster_formation.k8s.host = kubernetes.default\ncluster_formation.k8s.address_type = hostname\ncluster_partition_handling = pause_minority\nqueue_master_locator = min-masters\ndisk_free_limit.absolute = 2GB\ncluster_formation.randomized_startup_delay_range.min = 0\ncluster_formation.randomized_startup_delay_range.max = 60"

abbrev pub default_tls_text : String
default_tls_text =
    "\nssl_options.certfile = /etc/rabbitmq-tls/tls.crt\nssl_options.keyfile = /etc/rabbitmq-tls/tls.key\nlisteners.ssl.default = 5671\n\nmanagement.ssl.certfile   = /etc/rabbitmq-tls/tls.crt\nmanagement.ssl.keyfile    = /etc/rabbitmq-tls/tls.key\nmanagement.ssl.port       = 15671\n\nprometheus.ssl.certfile  = /etc/rabbitmq-tls/tls.crt\nprometheus.ssl.keyfile   = /etc/rabbitmq-tls/tls.key\nprometheus.ssl.port      = 15691\n"

unfoldable pub build_server_config_map : RabbitmqCluster → ConfigMap
build_server_config_map cluster = record {
  name = child_resource_name cluster server_config_map_name;
  namespace = cluster.namespace;
  labels = get_labels cluster.name cluster.labels;
  annotations = reconcile_and_filter_annotations [] (cluster.annotations ∷ []);
  content = [];
  controller = none;
}

module _ {F : Type 0} (ini : IniPackage F) where
  unfoldable pub operator_configuration : RabbitmqCluster → Outcome F
  operator_configuration cluster = do
    defaults ← or_failed (λ e. e) (ini.load default_rabbitmq_conf)
    new_keys ini (("cluster_name", cluster.name) ∷ []) defaults

  -- `userConfiguration.Append([]byte(defaultTLSConf))`, with TLS.
  unfoldable pub tls_file : Bool → Outcome F
  tls_file true = or_failed (λ e. e) (ini.append default_tls_text ini.empty)
  tls_file false = returned ini.empty

  -- The settings of the operator, under those that the user adds.
  unfoldable pub user_configuration : RabbitmqCluster → F → Outcome F
  user_configuration cluster settings =
      or_failed (wrapped "failed to append spec.rabbitmq.additionalConfig")
        (ini.append cluster.spec.rabbitmq.additional_config settings)

  unfoldable pub server_config_data : RabbitmqCluster → Dict String → Outcome (Dict String)
  server_config_data cluster content = do
    operator ← operator_configuration cluster
    tls ← tls_file (tls_enabled cluster)
    settings ← new_keys ini (user_keys cluster) tls
    defaults ← or_failed (λ e. e) (ini.write_to operator)
    user ← user_configuration cluster settings
    given ← or_failed (λ e. e) (ini.write_to user)
    returned (
        update_property "rabbitmq-env.conf" cluster.spec.rabbitmq.env_config (
          update_property "advanced.config" cluster.spec.rabbitmq.advanced_config (
            insert "userDefinedConfiguration.conf" given
              (insert "operatorDefaults.conf" defaults content))))

  -- The call of `SetControllerReference` is an argument.
  unfoldable pub update_server_config_map :
      (RabbitmqCluster → ConfigMap → Result ConfigMap)
      → RabbitmqCluster
      → ConfigMap
      → Outcome ConfigMap
  update_server_config_map set_controller cluster config_map = do
    content ← server_config_data cluster config_map.content
    or_failed (wrapped "failed setting controller reference")
        (set_controller cluster (record config_map { content = content }))
