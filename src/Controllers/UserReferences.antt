-- ===== src/Controllers/UserReferences.antt =====
-- controllers/reconcile_status.go: the references of the status to the default user's secret and to
-- the service.
pub mod Settled
use pos_data_showcase.Prelude.{
  String, Bool, true, false, not, ◌&&◌, Option, none, some, List, [], ◌∷◌, length, ◌==◌, str_eq,
}
use pos_data_showcase.Prelude.Dict.{Dict, lookup}
use pos_data_showcase.Kube.Exec.{Exec, ok, run_if, ◌>>◌}
use pos_data_showcase.ClusterStatus.{
  RabbitmqClusterDefaultUser, RabbitmqClusterSecretReference, RabbitmqClusterServiceReference,
}
use pos_data_showcase.Cluster.{
  RabbitmqCluster, child_resource_name, vault_default_user_secret_enabled,
}
use pos_data_showcase.Controllers.{Reconciler, Loop, modify, store}

-- `reflect.DeepEqual`, on pointers, on maps of texts and on the references.
unfoldable pub pointer_eq : {A : Type 0} → (A → A → Bool) → Option A → Option A → Bool
pointer_eq eq none none = true
pointer_eq eq (some a) (some b) = eq a b
pointer_eq eq _ _ = false

unfoldable pub entries_in : Dict String → Dict String → Bool
entries_in [] m = true
entries_in ((k, v) ∷ rest) m = pointer_eq str_eq (lookup k m) (some v) && entries_in rest m

unfoldable pub map_eq : Dict String → Dict String → Bool
map_eq a b = length a == length b && entries_in a b

unfoldable pub secret_reference_eq :
    RabbitmqClusterSecretReference → RabbitmqClusterSecretReference → Bool
secret_reference_eq a b =
    str_eq a.name b.name && str_eq a.namespace b.namespace && map_eq a.keys b.keys

unfoldable pub service_reference_eq :
    RabbitmqClusterServiceReference → RabbitmqClusterServiceReference → Bool
service_reference_eq a b = str_eq a.name b.name && str_eq a.namespace b.namespace

unfoldable pub default_user_eq : RabbitmqClusterDefaultUser → RabbitmqClusterDefaultUser → Bool
default_user_eq a b =
    pointer_eq secret_reference_eq a.secret_reference b.secret_reference
    && pointer_eq service_reference_eq a.service_reference b.service_reference

unfoldable pub user_secret_reference : RabbitmqCluster → RabbitmqClusterSecretReference
user_secret_reference rmq = record {
  name = child_resource_name rmq "default-user";
  namespace = rmq.namespace;
  keys = ("username", "username") ∷ ("password", "password") ∷ [];
}

-- `defaultUserStatus`: the secret is there unless Vault keeps the default user.
unfoldable pub default_user_status : RabbitmqCluster → RabbitmqClusterDefaultUser
default_user_status rmq = record {
  secret_reference = elim (vault_default_user_secret_enabled rmq) [
    | true ↦ none
    | false ↦ some (user_secret_reference rmq)
  ];
  service_reference =
      some (record { name = child_resource_name rmq ""; namespace = rmq.namespace });
}

unfoldable pub binding_status : RabbitmqCluster → Option String
binding_status rmq = elim (vault_default_user_secret_enabled rmq) [
  | true ↦ none
  | false ↦ some (child_resource_name rmq "default-user")
]

-- The status has the references already.
unfoldable pub has_references : RabbitmqCluster → Bool
has_references rmq =
    pointer_eq default_user_eq rmq.status.default_user (some (default_user_status rmq))
    && pointer_eq str_eq rmq.status.binding (binding_status rmq)

abbrev pub with_references : RabbitmqCluster → RabbitmqCluster
with_references rmq = record rmq {
  status = record rmq.status {
    default_user = some (default_user_status rmq);
    binding = binding_status rmq;
  };
}

unfoldable pub reconcile_status : {W : Type 0} → Reconciler W → Exec (Loop W) (Unit {0})
reconcile_status r s =
    run_if (not (has_references s.cluster)) (do modify with_references; store r.update_status) s
