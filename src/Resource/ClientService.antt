-- ===== src/Resource/ClientService.antt =====
-- internal/resource/service.go: `Build` and `Update` of the client service, with the override. The
-- strategic merge patch and `SetControllerReference` of controllerutil are arguments.
pub mod Served
use pos_data_showcase.Prelude.{String, false, Option, none, some, [], ◌∷◌}
use pos_data_showcase.Prelude.Dict.{Dict}
use pos_data_showcase.Kube.Error.{wrapped}
use pos_data_showcase.Kube.Exec.{Result, ok, err, wrap}
use pos_data_showcase.Kube.Services.{Service, ServiceSpec}
use pos_data_showcase.Override.{EmbeddedLabelsAnnotations, ServiceOverride}
use pos_data_showcase.Metadata.{
  get_labels, label_selector, reconcile_annotations, reconcile_and_filter_annotations,
}
use pos_data_showcase.Cluster.{RabbitmqCluster, child_resource_name}
use pos_data_showcase.Resource.PodPatch.{merge_map}
use pos_data_showcase.Resource.ServicePorts.{service_spec_ports}

abbrev pub service_suffix : String
service_suffix = ""

-- The specification of a service that is only built.
abbrev pub no_service_spec : ServiceSpec
no_service_spec = record {
  type = "";
  cluster_ip = "";
  session_affinity = "";
  selector = [];
  ports = [];
  publish_not_ready_addresses = false;
}

unfoldable pub build_service : RabbitmqCluster → Service
build_service cluster = record {
  name = child_resource_name cluster service_suffix;
  namespace = cluster.namespace;
  labels = [];
  annotations = [];
  spec = no_service_spec;
  controller = none;
}

-- The annotations that `setAnnotations` gives a service with annotations.
unfoldable pub set_annotations : RabbitmqCluster → Dict String → Dict String
set_annotations cluster existing =
    let filtered = reconcile_and_filter_annotations existing (cluster.annotations ∷ []) in
    elim cluster.spec.service.annotations [
      | [] ↦ filtered
      | a ∷ rest ↦ reconcile_annotations filtered ((a ∷ rest) ∷ [])
    ]

-- `if override.EmbeddedLabelsAnnotations != nil`
unfoldable pub copy_to_service : Option EmbeddedLabelsAnnotations → Service → Service
copy_to_service none service = service
copy_to_service (some o) service = record service {
  labels = merge_map service.labels o.labels;
  annotations = merge_map service.annotations o.annotations;
}

-- What `Update` writes before the override.
unfoldable pub service_fields : RabbitmqCluster → Service → Service
service_fields cluster service = record service {
  annotations = set_annotations cluster service.annotations;
  labels = get_labels cluster.name cluster.labels;
  spec = record service.spec {
    type = cluster.spec.service.type;
    selector = label_selector cluster.name;
    ports = service_spec_ports cluster service.spec.ports;
  };
}

-- What the builder calls of other packages.
pub record ServicePackages : Type 0 where
  pub merge_service_spec : ServiceSpec → ServiceSpec → Result ServiceSpec
  pub set_service : RabbitmqCluster → Service → Result Service

module _ (pkg : ServicePackages) where
  -- `if override.Spec != nil`
  unfoldable pub patch_service : Option ServiceSpec → Service → Result Service
  patch_service none service = ok service
  patch_service (some given) service = elim (pkg.merge_service_spec service.spec given) [
    | ok spec ↦ ok (record service { spec = spec })
    | err e ↦ err (wrapped "error patching Service Spec" e)
  ]

  unfoldable pub apply_svc_override : Option ServiceOverride → Service → Result Service
  apply_svc_override none service = ok service
  apply_svc_override (some o) service = patch_service o.spec (copy_to_service o.metadata service)

  unfoldable pub update_service : RabbitmqCluster → Service → Result Service
  update_service cluster service =
      let given_service =
        wrap (wrapped "failed applying Service override")
          (apply_svc_override cluster.spec.override.service (service_fields cluster service)) in
      elim given_service [
        | ok given ↦
            wrap (wrapped "failed setting controller reference") (pkg.set_service cluster given)
        | err e ↦ err e
      ]
