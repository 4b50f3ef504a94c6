-- ===== src/Controllers/Children.antt =====
-- internal/resource: the builders as Reconcile calls them, over the objects that they build, and
-- controllers/rabbitmqcluster_controller.go: the index of owned objects.
pub mod Assigned
pub mod Panics
pub mod Indexed
use pos_data_showcase.Prelude.{
  ◌≡◌, refl, String, Bool, Option, none, some, List, [], ◌∷◌, str_eq, not, ◌||◌, if◌then◌else◌,
}
use pos_data_showcase.Kube.Exec.{Result, ok, err}
use pos_data_showcase.Kube.Outcome.{Outcome, returned, failed, panic, ◌>>=◌}
use pos_data_showcase.Kube.Objects.{StatefulSet, ConfigMap, Secret, OwnerReference}
use pos_data_showcase.Kube.Services.{Service}
use pos_data_showcase.Kube.Rbac.{ServiceAccount, Role, RoleBinding}
use pos_data_showcase.Cluster.{RabbitmqCluster}
use pos_data_showcase.Resource.Builders.{
  ResourceBuilder, headless_service, service, erlang_cookie, default_user_secret,
  rabbitmq_plugins_config_map, server_config_map, service_account, role, role_binding,
  stateful_set_builder,
}
use pos_data_showcase.Resource.Ini.{IniPackage}
use pos_data_showcase.Resource.Accounts.{
  References, build_service_account, build_role, build_role_binding, update_service_account,
  update_role, update_role_binding,
}
use pos_data_showcase.Resource.ClientService.{ServicePackages, build_service, update_service}
use pos_data_showcase.Resource.HeadlessService.{build_headless_service, update_headless_service}
use pos_data_showcase.Resource.ErlangCookie.{build_erlang_cookie, update_erlang_cookie}
use pos_data_showcase.Resource.DefaultUser.Secret.{build_default_user, update_default_user}
use pos_data_showcase.Resource.Plugins.File.{build_plugins_config_map, update_plugins_config_map}
use pos_data_showcase.Resource.ServerConfig.Files.{
  build_server_config_map, update_server_config_map,
}
use pos_data_showcase.Resource.StatefulSets.{Packages, build, update}
use pos_data_showcase.Controllers.Configurations.{OperationResult}
use pos_data_showcase.Controllers.Reconcile.{Children}

-- client.Object: the kinds of object that the operator owns, and any other by its name.
pub data Object : Type 0 where
  service_object : Service → Object
  secret_object : Secret → Object
  config_map_object : ConfigMap → Object
  account_object : ServiceAccount → Object
  role_object : Role → Object
  binding_object : RoleBinding → Object
  stateful_set_object : StatefulSet → Object
  other_object : String → Object

-- What the builders call of other packages: `randomEncodedString(24)` for the cookie, the user's name
-- and the password, and `SetControllerReference` for the kinds that are not in the other records.
pub record BuilderPackages (F : Type 0) : Type 0 where
  pub stateful_sets : Packages
  pub services : ServicePackages
  pub accounts : References
  pub ini : IniPackage F
  pub random_cookie : Result String
  pub random_username : Result String
  pub random_password : Result String
  pub set_secret : RabbitmqCluster → Secret → Result Secret
  pub set_config_map : RabbitmqCluster → ConfigMap → Result ConfigMap

module _ {A : Type 0} where
  -- What a builder returns, as an object.
  abbrev pub as_object : (A → Object) → Result A → Outcome Object
  as_object f (ok a) = returned (f a)
  as_object f (err e) = failed e

  abbrev pub map_object : (A → Object) → Outcome A → Outcome Object
  map_object f (returned a) = returned (f a)
  map_object f (failed e) = failed e
  map_object f panic = panic

pub as_object-eq-returned :
    {A : Type 0} (f : A → Object) (r : Result A) {o : Object}
    → as_object f r ≡ returned o
    → (a : A) × (r ≡ ok a) × (f a ≡ o)
as_object-eq-returned f (ok a) e = (a, refl, cc e)
as_object-eq-returned f (err x) e = absurd (cc e)

pub map_object-eq-returned :
    {A : Type 0} (f : A → Object) (r : Outcome A) {o : Object}
    → map_object f r ≡ returned o
    → (a : A) × (r ≡ returned a) × (f a ≡ o)
map_object-eq-returned f (returned a) e = (a, refl, cc e)
map_object-eq-returned f (failed x) e = absurd (cc e)
map_object-eq-returned f panic e = absurd (cc e)

module _ {F : Type 0} (pkg : BuilderPackages F) where
  unfoldable pub build_object : ResourceBuilder → RabbitmqCluster → Outcome Object
  build_object headless_service c = returned (service_object (build_headless_service c))
  build_object service c = returned (service_object (build_service c))
  build_object erlang_cookie c = as_object secret_object (build_erlang_cookie pkg.random_cookie c)
  build_object default_user_secret c =
      map_object secret_object
        (build_default_user pkg.ini pkg.random_username pkg.random_password c)
  build_object rabbitmq_plugins_config_map c =
      returned (config_map_object (build_plugins_config_map c))
  build_object server_config_map c = returned (config_map_object (build_server_config_map c))
  build_object service_account c = returned (account_object (build_service_account c))
  build_object role c = returned (role_object (build_role c))
  build_object role_binding c = returned (binding_object (build_role_binding c))
  build_object stateful_set_builder c = map_object stateful_set_object (build pkg.stateful_sets c)

  -- `Update` of each builder, which panics on an object of another kind.
  unfoldable pub update_object : ResourceBuilder → RabbitmqCluster → Object → Outcome Object
  update_object headless_service c (service_object o) =
      as_object service_object (update_headless_service pkg.services.set_service c o)
  update_object service c (service_object o) =
      as_object service_object (update_service pkg.services c o)
  update_object erlang_cookie c (secret_object o) =
      as_object secret_object (update_erlang_cookie pkg.set_secret c o)
  update_object default_user_secret c (secret_object o) =
      map_object secret_object (update_default_user pkg.set_secret c o)
  update_object rabbitmq_plugins_config_map c (config_map_object o) =
      as_object config_map_object (update_plugins_config_map pkg.set_config_map c o)
  update_object server_config_map c (config_map_object o) =
      map_object config_map_object (update_server_config_map pkg.ini pkg.set_config_map c o)
  update_object service_account c (account_object o) =
      as_object account_object (update_service_account pkg.accounts c o)
  update_object role c (role_object o) = as_object role_object (update_role pkg.accounts c o)
  update_object role_binding c (binding_object o) =
      as_object binding_object (update_role_binding pkg.accounts c o)
  update_object stateful_set_builder c (stateful_set_object o) =
      map_object stateful_set_object (update pkg.stateful_sets c o)
  update_object b c o = panic

-- `resource.(*appsv1.StatefulSet)`
unfoldable pub as_stateful_set : Object → Outcome StatefulSet
as_stateful_set (stateful_set_object o) = returned o
as_stateful_set o = panic

-- `GetName`, and `%T`.
unfoldable pub name_of : Object → String
name_of (service_object o) = o.name
name_of (secret_object o) = o.name
name_of (config_map_object o) = o.name
name_of (account_object o) = o.name
name_of (role_object o) = o.name
name_of (binding_object o) = o.name
name_of (stateful_set_object o) = o.name
name_of (other_object n) = n

unfoldable pub type_of : Object → String
type_of (service_object o) = "*v1.Service"
type_of (secret_object o) = "*v1.Secret"
type_of (config_map_object o) = "*v1.ConfigMap"
type_of (account_object o) = "*v1.ServiceAccount"
type_of (role_object o) = "*v1.Role"
type_of (binding_object o) = "*v1.RoleBinding"
type_of (stateful_set_object o) = "*v1.StatefulSet"
type_of (other_object n) = ""

-- Reconcile's interface of the builders, over a way to create or write an object.
unfoldable pub real_children :
    {F W : Type 0}
    → BuilderPackages F
    → (Object → (Object → Outcome Object) → W → (OperationResult × Outcome (Unit {0})) × W)
    → Children W Object
real_children pkg create_or_update = record {
  build_child = build_object pkg;
  update_child = update_object pkg;
  as_stateful_set = as_stateful_set;
  name_of = name_of;
  type_of = type_of;
  create_or_update = create_or_update;
}

abbrev pub api_group_version : String
api_group_version = "rabbitmq.com/v1beta1"

abbrev pub owner_kind : String
owner_kind = "RabbitmqCluster"

unfoldable pub validate_and_get_owner : Option OwnerReference → List String
validate_and_get_owner none = []
validate_and_get_owner (some owner) =
    if not (str_eq owner.api_version api_group_version) || not (str_eq owner.kind owner_kind)
    then []
    else owner.name ∷ []

unfoldable pub add_resource_to_index : Object → List String
add_resource_to_index (service_object o) = validate_and_get_owner o.controller
add_resource_to_index (secret_object o) = validate_and_get_owner o.controller
add_resource_to_index (config_map_object o) = validate_and_get_owner o.controller
add_resource_to_index (account_object o) = validate_and_get_owner o.controller
add_resource_to_index (role_object o) = validate_and_get_owner o.controller
add_resource_to_index (binding_object o) = validate_and_get_owner o.controller
add_resource_to_index (stateful_set_object o) = validate_and_get_owner o.controller
add_resource_to_index (other_object n) = []
