-- ===== src/Resource/HeadlessService.antt =====
-- internal/resource/headless_service.go: the service that gives each pod a name.
pub mod Found
use pos_data_showcase.Prelude.{String, Bool, true, false, Option, none, List, [], ◌∷◌}
use pos_data_showcase.Prelude.Dict.{Dict}
use pos_data_showcase.Kube.Error.{wrapped}
use pos_data_showcase.Kube.Exec.{Result, wrap}
use pos_data_showcase.Kube.Services.{Service, ServiceSpec}
use pos_data_showcase.Metadata.{label_selector, get_labels, reconcile_and_filter_annotations}
use pos_data_showcase.Cluster.{RabbitmqCluster, child_resource_name}
use pos_data_showcase.Resource.ServicePorts.{tcp_port}
use pos_data_showcase.Resource.ClientService.{no_service_spec}

abbrev pub headless_service_suffix : String
headless_service_suffix = "nodes"

unfoldable pub build_headless_service : RabbitmqCluster → Service
build_headless_service cluster = record {
  name = child_resource_name cluster headless_service_suffix;
  namespace = cluster.namespace;
  labels = [];
  annotations = [];
  spec = no_service_spec;
  controller = none;
}

-- The call of `SetControllerReference` is an argument.
unfoldable pub update_headless_service :
    (RabbitmqCluster → Service → Result Service) → RabbitmqCluster → Service → Result Service
update_headless_service set_controller cluster service =
    wrap (wrapped "failed setting controller reference") (
      set_controller cluster (record service {
        labels = get_labels cluster.name cluster.labels;
        annotations =
            reconcile_and_filter_annotations service.annotations (cluster.annotations ∷ []);
        spec = record {
          type = "ClusterIP";
          cluster_ip = "None";
          session_affinity = "None";
          selector = label_selector cluster.name;
          ports = tcp_port "epmd" 4369 "" ∷ tcp_port "cluster-rpc" 25672 "" ∷ [];
          publish_not_ready_addresses = true;
        };
      }))
