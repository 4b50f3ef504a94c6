-- ===== src/Resource/Accounts.antt =====
-- internal/resource/service_account.go, role.go and role_binding.go: the account of the pods and what
-- it may do.
pub mod Granted
use pos_data_showcase.Prelude.{String, none, List, [], ◌∷◌}
use pos_data_showcase.Kube.Error.{wrapped}
use pos_data_showcase.Kube.Exec.{Result, wrap}
use pos_data_showcase.Kube.Rbac.{ServiceAccount, PolicyRule, Role, RoleBinding}
use pos_data_showcase.Metadata.{get_labels, reconcile_and_filter_annotations}
use pos_data_showcase.Cluster.{RabbitmqCluster, child_resource_name}

abbrev pub service_account_name : String
service_account_name = "server"

abbrev pub role_name : String
role_name = "peer-discovery"

abbrev pub role_binding_name : String
role_binding_name = "server"

unfoldable pub build_service_account : RabbitmqCluster → ServiceAccount
build_service_account cluster = record {
  name = child_resource_name cluster service_account_name;
  namespace = cluster.namespace;
  labels = [];
  annotations = [];
  controller = none;
}

unfoldable pub build_role : RabbitmqCluster → Role
build_role cluster = record {
  name = child_resource_name cluster role_name;
  namespace = cluster.namespace;
  labels = [];
  annotations = [];
  rules = [];
  controller = none;
}

unfoldable pub build_role_binding : RabbitmqCluster → RoleBinding
build_role_binding cluster = record {
  name = child_resource_name cluster role_binding_name;
  namespace = cluster.namespace;
  labels = [];
  annotations = [];
  role_ref = record { api_group = ""; kind = ""; name = "" };
  subjects = [];
  controller = none;
}

abbrev pub peer_discovery_rules : List PolicyRule
peer_discovery_rules =
    record { api_groups = "" ∷ []; resources = "endpoints" ∷ []; verbs = "get" ∷ [] }
    ∷ record { api_groups = "" ∷ []; resources = "events" ∷ []; verbs = "create" ∷ [] }
    ∷ []

-- `SetControllerReference` of controllerutil, for each kind of object.
pub record References : Type 0 where
  pub set_account : RabbitmqCluster → ServiceAccount → Result ServiceAccount
  pub set_role : RabbitmqCluster → Role → Result Role
  pub set_binding : RabbitmqCluster → RoleBinding → Result RoleBinding

module _ (refs : References) where
  unfoldable pub update_service_account : RabbitmqCluster → ServiceAccount → Result ServiceAccount
  update_service_account cluster account = wrap (wrapped "failed setting controller reference") (
      refs.set_account cluster (record account {
        labels = get_labels cluster.name cluster.labels;
        annotations =
            reconcile_and_filter_annotations account.annotations (cluster.annotations ∷ []);
      }))

  unfoldable pub update_role : RabbitmqCluster → Role → Result Role
  update_role cluster role = wrap (wrapped "failed setting controller reference") (
      refs.set_role cluster (record role {
        labels = get_labels cluster.name cluster.labels;
        annotations = reconcile_and_filter_annotations role.annotations (cluster.annotations ∷ []);
        rules = peer_discovery_rules;
      }))

  unfoldable pub update_role_binding : RabbitmqCluster → RoleBinding → Result RoleBinding
  update_role_binding cluster binding = wrap (wrapped "failed setting controller reference") (
      refs.set_binding cluster (record binding {
        labels = get_labels cluster.name cluster.labels;
        annotations =
            reconcile_and_filter_annotations binding.annotations (cluster.annotations ∷ []);
        role_ref = record {
          api_group = "rbac.authorization.k8s.io";
          kind = "Role";
          name = child_resource_name cluster role_name;
        };
        subjects =
            record {
              kind = "ServiceAccount";
              name = child_resource_name cluster service_account_name;
            }
            ∷ [];
      }))
