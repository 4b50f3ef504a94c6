-- ===== src/Resource/Plugins/File.antt =====
-- internal/resource/rabbitmq_plugins.go: `Build` and `Update` of the config map of the plugins.
use pos_data_showcase.Prelude.{String, none, [], ◌∷◌}
use pos_data_showcase.Kube.Error.{wrapped}
use pos_data_showcase.Kube.Exec.{Result, wrap}
use pos_data_showcase.Kube.Objects.{ConfigMap}
use pos_data_showcase.Metadata.{get_labels, reconcile_and_filter_annotations}
use pos_data_showcase.Cluster.{RabbitmqCluster, child_resource_name}
use pos_data_showcase.Resource.Plugins.{plugins_config_data}

abbrev pub plugins_config_name : String
plugins_config_name = "plugins-conf"

unfoldable pub build_plugins_config_map : RabbitmqCluster → ConfigMap
build_plugins_config_map cluster = record {
  name = child_resource_name cluster plugins_config_name;
  namespace = cluster.namespace;
  labels = get_labels cluster.name cluster.labels;
  annotations = reconcile_and_filter_annotations [] (cluster.annotations ∷ []);
  content = plugins_config_data [] [];
  controller = none;
}

-- The call of `SetControllerReference` is an argument.
unfoldable pub update_plugins_config_map :
    (RabbitmqCluster → ConfigMap → Result ConfigMap)
    → RabbitmqCluster
    → ConfigMap
    → Result ConfigMap
update_plugins_config_map set_controller cluster config_map =
    wrap (wrapped "failed setting controller reference") (
      set_controller cluster (record config_map {
        content = plugins_config_data config_map.content cluster.spec.rabbitmq.additional_plugins;
      }))
