-- ===== src/Controllers/Children/Panics.antt =====
-- internal/resource: the builders do not panic on the objects that they build.
use pos_data_showcase.Prelude.{
  ℕ, ◌≤◌, ltb, arith, String, Bool, true, false, Option, none, some, [], ◌∷◌, ◌∙◌, ◌≡◌, ◌≢◌, refl,
  ◌==◌, Bool-cases, inl, inr, sym, ap,
}
use Prim.Native.String.{len}
use pos_data_showcase.Prelude.Dict.{Dict}
use pos_data_showcase.Kube.Error.{wrapped}
use pos_data_showcase.Kube.Exec.{Result, ok, err}
use pos_data_showcase.Kube.Outcome.{
  Outcome, returned, failed, panic, deref, or_failed, wrap_failed, or_failed-ne-panic,
  or_failed-eq-returned, returned-injective, >>=-ne-panic,
}
use pos_data_showcase.Kube.Objects.{StatefulSet, Secret}
use pos_data_showcase.Kube.Pods.{Quantity, ResourceRequirements}
use pos_data_showcase.Cluster.{RabbitmqCluster, tls_enabled}
use pos_data_showcase.Resource.Builders.{
  ResourceBuilder, headless_service, service, erlang_cookie, default_user_secret,
  rabbitmq_plugins_config_map, server_config_map, service_account, role, role_binding,
  stateful_set_builder,
}
use pos_data_showcase.Resource.Ini.{IniPackage, new_keys}
use pos_data_showcase.Resource.DefaultUser.Secret.{
  assign_ports, update_default_user, username_prefix, prefixed, generate_username,
  generate_default_user_conf, build_default_user,
}
use pos_data_showcase.Resource.ServerConfig.{user_keys}
use pos_data_showcase.Resource.ServerConfig.Files.{
  operator_configuration, tls_file, user_configuration, server_config_data,
  update_server_config_map,
}
use pos_data_showcase.Resource.PodTemplate.{pod_template_spec, template_from}
use pos_data_showcase.Resource.StatefulSets.{
  Packages, build, update, update_fields, written_fields, has_entries, has_requests,
  apply_sts_override, persistent_volume_claim, claims_for, owned_claim, new_claim,
}
use pos_data_showcase.Resource.StatefulSets.Startable.{PackageLaws}
use pos_data_showcase.Controllers.Children.Assigned.{
  build_default_user-has_entries, build-has_requests,
}
use pos_data_showcase.Controllers.Children.{
  as_object-eq-returned, map_object-eq-returned, Object, service_object, secret_object,
  config_map_object, account_object, role_object, binding_object, stateful_set_object,
  BuilderPackages, as_object, map_object, build_object, update_object,
}

-- The objects that `Update` can take: of the kind that the type assertion of the builder asks for, and
-- with the maps that it writes to, Data of the secret and the requests of a claim template.
abbrev pub is_for : ResourceBuilder → Object → Bool
is_for headless_service (service_object o) = true
is_for service (service_object o) = true
is_for erlang_cookie (secret_object o) = true
is_for default_user_secret (secret_object o) = has_entries o.content
is_for rabbitmq_plugins_config_map (config_map_object o) = true
is_for server_config_map (config_map_object o) = true
is_for service_account (account_object o) = true
is_for role (role_object o) = true
is_for role_binding (binding_object o) = true
is_for stateful_set_builder (stateful_set_object o) = has_requests o.volume_claim_templates
is_for b o = false

-- The pointers of the specification that the StatefulSet follows are set, and nothing of it is
-- overridden.
pub record HasPointers (c : RabbitmqCluster) : Type 0 where
  pub capacity : Quantity
  pub has_capacity : c.spec.persistence.storage ≡ some capacity
  pub needs : ResourceRequirements
  pub has_needs : c.spec.resources ≡ some needs
  pub seconds : ℕ
  pub has_seconds : c.spec.termination_grace_period_seconds ≡ some seconds
  pub not_overridden : c.spec.override.stateful_set ≡ none

module _ {A : Type 0} (f : A → Object) where
  as_object-ne-panic : (r : Result A) → as_object f r ≢ panic
  as_object-ne-panic (ok a) e = cc e
  as_object-ne-panic (err x) e = cc e

  map_object-ne-panic : (m : Outcome A) → m ≢ panic → map_object f m ≢ panic
  map_object-ne-panic (returned a) h e = cc e
  map_object-ne-panic (failed x) h e = cc e
  map_object-ne-panic panic h e = h refl

module _ {F : Type 0} (ini : IniPackage F) where
  new_keys-ne-panic : (m : Dict String) (file : F) → new_keys ini m file ≢ panic
  unfolding new_keys
  new_keys-ne-panic [] file = λ e. cc e
  new_keys-ne-panic ((k, v) ∷ m) file =
      >>=-ne-panic (or_failed (λ e. e) (ini.new_key k v file)) (new_keys ini m)
        (or_failed-ne-panic _ _) (λ a _. new_keys-ne-panic m a)

  generate_default_user_conf-ne-panic :
      (username password : String) → generate_default_user_conf ini username password ≢ panic
  unfolding generate_default_user_conf
  generate_default_user_conf-ne-panic username password =
      >>=-ne-panic (or_failed (λ e. e) (ini.load "")) _ (or_failed-ne-panic _ _) λ cfg _.
        >>=-ne-panic (new_keys ini _ cfg) _ (new_keys-ne-panic _ cfg)
          (λ filled _. or_failed-ne-panic _ _)

  tls_file-ne-panic : (b : Bool) → tls_file ini b ≢ panic
  unfolding tls_file
  tls_file-ne-panic true = or_failed-ne-panic _ _
  tls_file-ne-panic false = λ e. cc e

  operator_configuration-ne-panic : (c : RabbitmqCluster) → operator_configuration ini c ≢ panic
  unfolding operator_configuration
  operator_configuration-ne-panic c =
      >>=-ne-panic (or_failed (λ e. e) (ini.load _)) _ (or_failed-ne-panic _ _)
        (λ f _. new_keys-ne-panic _ f)

  server_config_data-ne-panic :
      (c : RabbitmqCluster) (content : Dict String) → server_config_data ini c content ≢ panic
  unfolding server_config_data user_configuration
  server_config_data-ne-panic c content =
      >>=-ne-panic (operator_configuration ini c) _ (operator_configuration-ne-panic c) λ op _.
        >>=-ne-panic (tls_file ini (tls_enabled c)) _ (tls_file-ne-panic _) λ tls _.
          >>=-ne-panic (new_keys ini (user_keys c) tls) _ (new_keys-ne-panic _ tls) λ settings _.
            >>=-ne-panic (or_failed (λ e. e) (ini.write_to op)) _ (or_failed-ne-panic _ _) λ d _.
              >>=-ne-panic (user_configuration ini c settings) _ (or_failed-ne-panic _ _) λ u _.
                >>=-ne-panic (or_failed (λ e. e) (ini.write_to u)) _ (or_failed-ne-panic _ _)
                  (λ g _ e. cc e)

prefixed-ne-panic : (t : String) → len username_prefix ≤ len t → prefixed t ≢ panic
unfolding prefixed
prefixed-ne-panic t h =
    let longer : ltb (len t) (len username_prefix) ≡ false = ground arith in rw longer (λ e. cc e)

module _ {F : Type 0} (pkg : BuilderPackages F)
    (long : (t : String) → pkg.random_username ≡ ok t → len username_prefix ≤ len t) where
  generate_username-ne-panic : generate_username pkg.random_username ≢ panic
  unfolding generate_username
  generate_username-ne-panic =
      >>=-ne-panic (or_failed (λ e. e) pkg.random_username) prefixed (or_failed-ne-panic _ _)
        (λ t e. prefixed-ne-panic t (long t (or_failed-eq-returned _ _ e)))

  build_default_user-ne-panic :
      (c : RabbitmqCluster)
      → build_default_user pkg.ini pkg.random_username pkg.random_password c ≢ panic
  unfolding build_default_user
  build_default_user-ne-panic c =
      >>=-ne-panic (generate_username pkg.random_username) _ generate_username-ne-panic λ u _.
        >>=-ne-panic (or_failed (λ e. e) pkg.random_password) _ (or_failed-ne-panic _ _) λ p _.
          >>=-ne-panic (generate_default_user_conf pkg.ini u p) _
            (generate_default_user_conf-ne-panic pkg.ini u p) (λ conf _ e. cc e)

assign_ports-ne-panic :
    (c : RabbitmqCluster) (m : Dict String) → has_entries m ≡ true → assign_ports c m ≢ panic
unfolding assign_ports
assign_ports-ne-panic c [] h = absurd (cc h)
assign_ports-ne-panic c (x ∷ m) h = λ e. cc e

update_default_user-ne-panic :
    (set_controller : RabbitmqCluster → Secret → Result Secret) (c : RabbitmqCluster) (s : Secret)
    → has_entries s.content ≡ true
    → update_default_user set_controller c s ≢ panic
unfolding update_default_user
update_default_user-ne-panic set_controller c s h =
    >>=-ne-panic (assign_ports c s.content) _ (assign_ports-ne-panic c s.content h)
      (λ m _. or_failed-ne-panic _ _)

deref-ne-panic : {A : Type 0} (o : Option A) {a : A} → o ≡ some a → deref o ≢ panic
deref-ne-panic none e = absurd (cc e)
deref-ne-panic (some a) e = λ x. cc x

module _ (pkg : Packages) (c : RabbitmqCluster) (h : HasPointers c) where
  open h use {has_capacity, has_needs, has_seconds, not_overridden}

  owned_claim-ne-panic : (q : Quantity) → owned_claim pkg c q ≢ panic
  unfolding owned_claim
  owned_claim-ne-panic q =
      >>=-ne-panic
        (or_failed (wrapped "failed setting controller reference")
          (pkg.set_claim_controller c (new_claim pkg c q)))
        _ (or_failed-ne-panic _ _) (λ pvc _ e. cc e)

  claims_for-ne-panic : (q : Quantity) → claims_for pkg c q ≢ panic
  unfolding claims_for
  claims_for-ne-panic q = elim (Bool-cases (q == pkg.parse_quantity "0Gi")) [
    | inl z ↦ rw z (λ e. cc e)
    | inr z ↦ rw z (owned_claim-ne-panic q)
  ]

  build-ne-panic : build pkg c ≢ panic
  unfolding build persistent_volume_claim
  build-ne-panic =
      >>=-ne-panic (persistent_volume_claim pkg c) _
        (>>=-ne-panic (deref c.spec.persistence.storage) (claims_for pkg c)
          (deref-ne-panic c.spec.persistence.storage has_capacity) (λ q _. claims_for-ne-panic q))
        (λ ts _ e. cc e)

  written_fields-ne-panic : (s : StatefulSet) → written_fields pkg c s ≢ panic
  unfolding written_fields pod_template_spec template_from
  written_fields-ne-panic s = rw (has_capacity, has_needs, has_seconds) (λ e. cc e)

  update_fields-ne-panic :
      (s : StatefulSet)
      → has_requests s.volume_claim_templates ≡ true
      → update_fields pkg c s ≢ panic
  unfolding update_fields
  update_fields-ne-panic s k = rw (k, update_fields) (written_fields-ne-panic s)

  update-ne-panic :
      (s : StatefulSet) → has_requests s.volume_claim_templates ≡ true → update pkg c s ≢ panic
  unfolding update apply_sts_override
  update-ne-panic s k =
      >>=-ne-panic (update_fields pkg c s) _ (update_fields-ne-panic s k) λ written _.
        >>=-ne-panic
          (wrap_failed (wrapped "failed applying StatefulSet override")
            (apply_sts_override pkg c c.spec.override.stateful_set written))
          _ (rw not_overridden (λ e. cc e)) (λ given _. or_failed-ne-panic _ _)

module _ {F : Type 0} (pkg : BuilderPackages F) (laws : PackageLaws pkg.stateful_sets)
    (long : (t : String) → pkg.random_username ≡ ok t → len username_prefix ≤ len t)
    (c : RabbitmqCluster) (h : HasPointers c) where
  built_ne_panic : (b : ResourceBuilder) → build_object pkg b c ≢ panic
  unfolding build_object
  built_ne_panic erlang_cookie = as_object-ne-panic secret_object _
  built_ne_panic default_user_secret =
      map_object-ne-panic secret_object _ (build_default_user-ne-panic pkg long c)
  built_ne_panic stateful_set_builder =
      map_object-ne-panic stateful_set_object _ (build-ne-panic pkg.stateful_sets c h)
  built_ne_panic b = λ e. cc e

  built_is_for :
      (b : ResourceBuilder) (o : Object) → build_object pkg b c ≡ returned o → is_for b o ≡ true
  unfolding build_object
  built_is_for erlang_cookie o e =
      let (a, got, same) = as_object-eq-returned secret_object _ e in
      ap (is_for erlang_cookie) (sym same)
  built_is_for default_user_secret o e =
      let (a, got, same) = map_object-eq-returned secret_object _ e in
      ap (is_for default_user_secret) (sym same)
      ∙ build_default_user-has_entries pkg.ini _ _ c a got
  built_is_for stateful_set_builder o e =
      let (a, got, same) = map_object-eq-returned stateful_set_object _ e in
      ap (is_for stateful_set_builder) (sym same)
      ∙ build-has_requests pkg.stateful_sets laws c a h.not_overridden got
  built_is_for headless_service o e = ap (is_for headless_service) (returned-injective _ _ (sym e))
  built_is_for service o e = ap (is_for service) (returned-injective _ _ (sym e))
  built_is_for rabbitmq_plugins_config_map o e =
      ap (is_for rabbitmq_plugins_config_map) (returned-injective _ _ (sym e))
  built_is_for server_config_map o e =
      ap (is_for server_config_map) (returned-injective _ _ (sym e))
  built_is_for service_account o e = ap (is_for service_account) (returned-injective _ _ (sym e))
  built_is_for role o e = ap (is_for role) (returned-injective _ _ (sym e))
  built_is_for role_binding o e = ap (is_for role_binding) (returned-injective _ _ (sym e))

  updated_ne_panic :
      (b : ResourceBuilder) (o : Object) → is_for b o ≡ true → update_object pkg b c o ≢ panic
  unfolding update_object update_server_config_map
  updated_ne_panic headless_service (service_object o) k = as_object-ne-panic service_object _
  updated_ne_panic service (service_object o) k = as_object-ne-panic service_object _
  updated_ne_panic erlang_cookie (secret_object o) k = as_object-ne-panic secret_object _
  updated_ne_panic default_user_secret (secret_object o) k =
      map_object-ne-panic secret_object _ (update_default_user-ne-panic pkg.set_secret c o k)
  updated_ne_panic rabbitmq_plugins_config_map (config_map_object o) k =
      as_object-ne-panic config_map_object _
  updated_ne_panic server_config_map (config_map_object o) k =
      map_object-ne-panic config_map_object _ (
        >>=-ne-panic (server_config_data pkg.ini c o.content) _
          (server_config_data-ne-panic pkg.ini c o.content) (λ d _. or_failed-ne-panic _ _))
  updated_ne_panic service_account (account_object o) k = as_object-ne-panic account_object _
  updated_ne_panic role (role_object o) k = as_object-ne-panic role_object _
  updated_ne_panic role_binding (binding_object o) k = as_object-ne-panic binding_object _
  updated_ne_panic stateful_set_builder (stateful_set_object o) k =
      map_object-ne-panic stateful_set_object _ (update-ne-panic pkg.stateful_sets c h o k)
  updated_ne_panic b o k = absurd (cc k)

  -- With `PackageLaws`, for a cluster whose storage, resources and grace period are set and that
  -- overrides nothing of the StatefulSet, where a random user name is no shorter than its prefix: no
  -- `Build` panics; every object that `Build` returns is of the kind that the type assertion of the
  -- builder's `Update` asks for and has the maps that this writes to (Data of the default user's
  -- secret, the requests of the claim template named persistence); and no `Update` panics on an
  -- object of that kind that has these maps.
  pub update_object-ne-panic :
      (b : ResourceBuilder)
      → (build_object pkg b c ≢ panic)
        × ((o : Object) → build_object pkg b c ≡ returned o → is_for b o ≡ true)
        × ((o : Object) → is_for b o ≡ true → update_object pkg b c o ≢ panic)
  update_object-ne-panic b = (built_ne_panic b, built_is_for b, updated_ne_panic b)
