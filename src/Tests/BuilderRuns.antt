-- ===== src/Tests/BuilderRuns.antt =====
-- The builders of a sample cluster, with the small ini package of Tests.Inis.
use Prim.Native.String.{len}
use pos_data_showcase.Prelude.{◌≤◌, String, true, some, [], ◌∷◌, ◌≡◌, ◌≢◌, refl, arith}
use mathlib.Core.Path.{subst}
use pos_data_showcase.Kube.Exec.{ok}
use pos_data_showcase.Kube.Outcome.{Outcome, returned, failed, panic}
use pos_data_showcase.Kube.Objects.{ConfigMap, Secret, StatefulSet}
use pos_data_showcase.Kube.Rbac.{ServiceAccount, Role, RoleBinding}
use pos_data_showcase.Kube.Services.{Service}
use pos_data_showcase.Cluster.{RabbitmqCluster}
use pos_data_showcase.Resource.Builders.{default_user_secret, headless_service}
use pos_data_showcase.Resource.HeadlessService.{build_headless_service, update_headless_service}
use pos_data_showcase.Resource.ClientService.{ServicePackages}
use pos_data_showcase.Resource.DefaultUser.Secret.{username_prefix}
use pos_data_showcase.Controllers.Children.{
  Object, service_object, BuilderPackages, build_object, update_object, add_resource_to_index,
}
use pos_data_showcase.Controllers.Children.Panics.{is_for, HasPointers, update_object-ne-panic}
use pos_data_showcase.Controllers.Children.Indexed.{
  OwnerLaws, IsOwnedBy, add_resource_to_index-update_object,
}
use pos_data_showcase.Tests.Sample.{resources_of}
use pos_data_showcase.Tests.ReconcilerRuns.{cc_ok}
use pos_data_showcase.Tests.StatefulSetRuns.{
  full_cluster, owner_of, test_packages, test_package_laws, controlled,
}
use pos_data_showcase.Tests.ChildRuns.{account_of, role_of, binding_of, service_of, test_references}
use pos_data_showcase.Tests.Inis.{Ini, test_ini}

abbrev pub secret_of : RabbitmqCluster → Secret → Secret
secret_of c s = record s { controller = some (owner_of c) }

abbrev config_map_with : RabbitmqCluster → ConfigMap → ConfigMap
config_map_with c m = record m { controller = some (owner_of c) }

abbrev test_services : ServicePackages
test_services = record {
  merge_service_spec = λ spec given. ok given;
  set_service = λ c s. ok (service_of c s);
}

abbrev pub test_builders : BuilderPackages Ini
test_builders = record {
  stateful_sets = test_packages;
  services = test_services;
  accounts = test_references;
  ini = test_ini;
  random_cookie = ok "Y29va2ll";
  random_username = ok "abcdefghijklmnopqrstuvwxyz012345";
  random_password = ok "c2VjcmV0";
  set_secret = λ c s. ok (secret_of c s);
  set_config_map = λ c m. ok (config_map_with c m);
}

abbrev full_pointers : HasPointers full_cluster
full_pointers = record {
  capacity = 10;
  has_capacity = refl;
  needs = resources_of 4 4;
  has_needs = refl;
  seconds = 60;
  has_seconds = refl;
  not_overridden = refl;
}

long_enough : (t : String) → test_builders.random_username ≡ ok t → len username_prefix ≤ len t
long_enough t e =
    subst (λ (x : String). len username_prefix ≤ len x)
      (cc_ok "abcdefghijklmnopqrstuvwxyz012345" t e) (omega arith)

update_object-ne-panic_example :
    (build_object test_builders default_user_secret full_cluster ≢ panic)
    × ((o : Object)
        → build_object test_builders default_user_secret full_cluster ≡ returned o
        → is_for default_user_secret o ≡ true)
    × ((o : Object)
        → is_for default_user_secret o ≡ true
        → update_object test_builders default_user_secret full_cluster o ≢ panic)
update_object-ne-panic_example =
    update_object-ne-panic test_builders test_package_laws long_enough full_cluster full_pointers
      default_user_secret

owned_by : (c : RabbitmqCluster) → IsOwnedBy c (some (owner_of c))
owned_by c = (owner_of c, refl, refl, refl, refl)

test_owners : OwnerLaws test_builders
test_owners = record {
  service_owned = λ c o o' e.
      subst (λ (x : Service). IsOwnedBy c x.controller) (cc_ok (service_of c o) o' e) (owned_by c);
  secret_owned = λ c o o' e.
      subst (λ (x : Secret). IsOwnedBy c x.controller) (cc_ok (secret_of c o) o' e) (owned_by c);
  config_map_owned = λ c o o' e.
      subst (λ (x : ConfigMap). IsOwnedBy c x.controller) (cc_ok (config_map_with c o) o' e)
        (owned_by c);
  account_owned = λ c o o' e.
      subst (λ (x : ServiceAccount). IsOwnedBy c x.controller) (cc_ok (account_of c o) o' e)
        (owned_by c);
  role_owned = λ c o o' e.
      subst (λ (x : Role). IsOwnedBy c x.controller) (cc_ok (role_of c o) o' e) (owned_by c);
  binding_owned = λ c o o' e.
      subst (λ (x : RoleBinding). IsOwnedBy c x.controller) (cc_ok (binding_of c o) o' e)
        (owned_by c);
  stateful_set_owned = λ c o o' e.
      subst (λ (x : StatefulSet). IsOwnedBy c x.controller) (cc_ok (controlled c o) o' e)
        (owned_by c);
}

abbrev object_or : Outcome Object → Object → Object
object_or (returned o) p = o
object_or (failed e) p = p
object_or panic p = p

abbrev found_service : Object
found_service =
    object_or
      (update_object test_builders headless_service full_cluster
        (service_object (build_headless_service full_cluster)))
      (service_object (build_headless_service full_cluster))

found_service_lem :
    update_object test_builders headless_service full_cluster
      (service_object (build_headless_service full_cluster))
    ≡ returned found_service
unfolding update_object update_headless_service
found_service_lem = refl

add_resource_to_index-update_object_example : add_resource_to_index found_service ≡ "pos" ∷ []
add_resource_to_index-update_object_example =
    add_resource_to_index-update_object test_builders test_owners headless_service full_cluster
      (service_object (build_headless_service full_cluster)) found_service found_service_lem
