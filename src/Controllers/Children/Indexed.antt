-- ===== src/Controllers/Children/Indexed.antt =====
-- controllers/rabbitmqcluster_controller.go: the name under which `addResourceToIndex` puts a child.
use pos_data_showcase.Prelude.{Option, some, [], ◌∷◌, ◌≡◌, refl, ◌∙◌}
use mathlib.Core.Path.{subst}
use pos_data_showcase.Kube.Error.{wrapped}
use pos_data_showcase.Kube.Exec.{Result, ok, err, wrap, wrap-eq-ok}
use pos_data_showcase.Kube.Outcome.{returned, wrap_failed, >>=-eq-returned, or_failed-eq-returned}
use pos_data_showcase.Kube.Objects.{StatefulSet, ConfigMap, Secret, OwnerReference}
use pos_data_showcase.Kube.Services.{Service}
use pos_data_showcase.Kube.Rbac.{ServiceAccount, Role, RoleBinding}
use pos_data_showcase.Cluster.{RabbitmqCluster}
use pos_data_showcase.Resource.Builders.{
  ResourceBuilder, headless_service, service, erlang_cookie, default_user_secret,
  rabbitmq_plugins_config_map, server_config_map, service_account, role, role_binding,
  stateful_set_builder,
}
use pos_data_showcase.Resource.Accounts.{update_service_account, update_role, update_role_binding}
use pos_data_showcase.Resource.ClientService.{
  ServicePackages, update_service, apply_svc_override, service_fields,
}
use pos_data_showcase.Resource.HeadlessService.{update_headless_service}
use pos_data_showcase.Resource.ErlangCookie.{update_erlang_cookie}
use pos_data_showcase.Resource.DefaultUser.Secret.{update_default_user, assign_ports}
use pos_data_showcase.Resource.Plugins.File.{update_plugins_config_map}
use pos_data_showcase.Resource.ServerConfig.Files.{update_server_config_map, server_config_data}
use pos_data_showcase.Resource.StatefulSets.{update, update_fields, apply_sts_override}
use pos_data_showcase.Controllers.Children.{
  as_object-eq-returned, map_object-eq-returned, Object, service_object, secret_object,
  config_map_object, account_object, role_object, binding_object, stateful_set_object,
  BuilderPackages, as_object, update_object, validate_and_get_owner, add_resource_to_index,
  api_group_version, owner_kind,
}

-- The controller of an object is the cluster.
abbrev pub IsOwnedBy : RabbitmqCluster → Option OwnerReference → Type 0
IsOwnedBy c controller =
    (r : OwnerReference) × (controller ≡ some r)
    × (r.api_version ≡ api_group_version)
    × (r.kind ≡ owner_kind)
    × (r.name ≡ c.name)

-- What `SetControllerReference` is documented to do for each kind of object.
pub record OwnerLaws {F : Type 0} (pkg : BuilderPackages F) : Type 0 where
  pub service_owned :
      (c : RabbitmqCluster) (o o' : Service)
      → pkg.services.set_service c o ≡ ok o'
      → IsOwnedBy c o'.controller
  pub secret_owned :
      (c : RabbitmqCluster) (o o' : Secret) → pkg.set_secret c o ≡ ok o' → IsOwnedBy c o'.controller
  pub config_map_owned :
      (c : RabbitmqCluster) (o o' : ConfigMap)
      → pkg.set_config_map c o ≡ ok o'
      → IsOwnedBy c o'.controller
  pub account_owned :
      (c : RabbitmqCluster) (o o' : ServiceAccount)
      → pkg.accounts.set_account c o ≡ ok o'
      → IsOwnedBy c o'.controller
  pub role_owned :
      (c : RabbitmqCluster) (o o' : Role)
      → pkg.accounts.set_role c o ≡ ok o'
      → IsOwnedBy c o'.controller
  pub binding_owned :
      (c : RabbitmqCluster) (o o' : RoleBinding)
      → pkg.accounts.set_binding c o ≡ ok o'
      → IsOwnedBy c o'.controller
  pub stateful_set_owned :
      (c : RabbitmqCluster) (o o' : StatefulSet)
      → pkg.stateful_sets.set_controller c o ≡ ok o'
      → IsOwnedBy c o'.controller

owner_found :
    (c : RabbitmqCluster) (controller : Option OwnerReference)
    → IsOwnedBy c controller
    → validate_and_get_owner controller ≡ c.name ∷ []
unfolding validate_and_get_owner
owner_found c controller (r, same, version, kind, name) = rw same (rw (version, kind, name) refl)

-- The last thing that `Update` of the client service does.
update_service-eq-ok :
    (pkg : ServicePackages) (c : RabbitmqCluster) (s s' : Service)
    → update_service pkg c s ≡ ok s'
    → (x : Service) × (pkg.set_service c x ≡ ok s')
unfolding update_service
update_service-eq-ok pkg c s s' e =
    set_after
      (wrap (wrapped "failed applying Service override")
        (apply_svc_override pkg c.spec.override.service (service_fields c s)))
      e
  where
    set_after :
        (given : Result Service)
        → (elim given [
          | ok x ↦ wrap (wrapped "failed setting controller reference") (pkg.set_service c x)
          | err y ↦ err y
        ])
          ≡ ok s'
        → (x : Service) × (pkg.set_service c x ≡ ok s')
    set_after (ok x) e = (x, wrap-eq-ok _ _ e)
    set_after (err y) e = absurd (cc e)

module _ {F : Type 0} (pkg : BuilderPackages F) (laws : OwnerLaws pkg) where
  open laws use {
    service_owned, secret_owned, config_map_owned, account_owned, role_owned, binding_owned,
    stateful_set_owned,
  }

  -- An object whose last write is the owner reference.
  indexed :
      {A : Type 0} (f : A → Object) (c : RabbitmqCluster) (controller : A → Option OwnerReference)
      (same : (a : A) → add_resource_to_index (f a) ≡ validate_and_get_owner (controller a)) (a : A)
      {o : Object}
      → f a ≡ o
      → IsOwnedBy c (controller a)
      → add_resource_to_index o ≡ c.name ∷ []
  indexed f c controller same a e owned =
      subst (λ o. add_resource_to_index o ≡ c.name ∷ []) e
        (same a ∙ owner_found c (controller a) owned)

  set_indexed :
      {A : Type 0} (f : A → Object) (c : RabbitmqCluster) (controller : A → Option OwnerReference)
      (same : (a : A) → add_resource_to_index (f a) ≡ validate_and_get_owner (controller a))
      (set : Result A)
      → ((a : A) → set ≡ ok a → IsOwnedBy c (controller a))
      → {o : Object}
      → as_object f (wrap (wrapped "failed setting controller reference") set) ≡ returned o
      → add_resource_to_index o ≡ c.name ∷ []
  set_indexed f c controller same set owned e =
      let (a, got, put) = as_object-eq-returned f _ e in
      indexed f c controller same a put (owned a (wrap-eq-ok _ set got))

  -- With `OwnerLaws`: for whatever object `Update` of any builder returns, `addResourceToIndex`, the
  -- function by which the manager indexes StatefulSets, config maps and services, gives the name of
  -- the cluster and no other name.
  pub add_resource_to_index-update_object :
      (b : ResourceBuilder) (c : RabbitmqCluster) (o o' : Object)
      → update_object pkg b c o ≡ returned o'
      → add_resource_to_index o' ≡ c.name ∷ []
  unfolding update_object add_resource_to_index update_headless_service update_erlang_cookie
      update_default_user update_plugins_config_map update_service_account update_role
      update_role_binding update_server_config_map update
  add_resource_to_index-update_object headless_service c (service_object s) o' e =
      set_indexed service_object c (λ (x : Service). x.controller) (λ a. refl) _
        (λ a. service_owned c _ a) e
  add_resource_to_index-update_object service c (service_object s) o' e =
      let (a, got, put) =
        as_object-eq-returned service_object (update_service pkg.services c s) e in
      let (x, set) = update_service-eq-ok pkg.services c s a got in
      indexed service_object c (λ (x : Service). x.controller) (λ a. refl) a put
        (service_owned c x a set)
  add_resource_to_index-update_object erlang_cookie c (secret_object s) o' e =
      set_indexed secret_object c (λ (x : Secret). x.controller) (λ a. refl) _
        (λ a. secret_owned c _ a) e
  add_resource_to_index-update_object default_user_secret c (secret_object s) o' e =
      let (a, got, put) = map_object-eq-returned secret_object _ e in
      let (content, made, set) = >>=-eq-returned (assign_ports c s.content) _ got in
      indexed secret_object c (λ (x : Secret). x.controller) (λ a. refl) a put
        (secret_owned c _ a
          (or_failed-eq-returned (wrapped "failed setting controller reference") _ set))
  add_resource_to_index-update_object rabbitmq_plugins_config_map c (config_map_object s) o' e =
      set_indexed config_map_object c (λ (x : ConfigMap). x.controller) (λ a. refl) _
        (λ a. config_map_owned c _ a) e
  add_resource_to_index-update_object server_config_map c (config_map_object s) o' e =
      let (a, got, put) = map_object-eq-returned config_map_object _ e in
      let (content, made, set) = >>=-eq-returned (server_config_data pkg.ini c s.content) _ got in
      indexed config_map_object c (λ (x : ConfigMap). x.controller) (λ a. refl) a put
        (config_map_owned c _ a
          (or_failed-eq-returned (wrapped "failed setting controller reference") _ set))
  add_resource_to_index-update_object service_account c (account_object s) o' e =
      set_indexed account_object c (λ (x : ServiceAccount). x.controller) (λ a. refl) _
        (λ a. account_owned c _ a) e
  add_resource_to_index-update_object role c (role_object s) o' e =
      set_indexed role_object c (λ (x : Role). x.controller) (λ a. refl) _ (λ a. role_owned c _ a) e
  add_resource_to_index-update_object role_binding c (binding_object s) o' e =
      set_indexed binding_object c (λ (x : RoleBinding). x.controller) (λ a. refl) _
        (λ a. binding_owned c _ a) e
  add_resource_to_index-update_object stateful_set_builder c (stateful_set_object s) o' e =
      let (a, got, put) = map_object-eq-returned stateful_set_object _ e in
      let (written, wrote, e1) = >>=-eq-returned (update_fields pkg.stateful_sets c s) _ got in
      let (given, over, e2) =
        >>=-eq-returned
          (wrap_failed (wrapped "failed applying StatefulSet override")
            (apply_sts_override pkg.stateful_sets c c.spec.override.stateful_set written))
          _ e1 in
      indexed stateful_set_object c (λ (x : StatefulSet). x.controller) (λ a. refl) a put
        (stateful_set_owned c given a
          (or_failed-eq-returned (wrapped "failed setting controller reference") _ e2))
  add_resource_to_index-update_object b c o o' e = absurd (cc e)
