-- ===== src/Resource/Builders/Laws.antt =====
-- internal/resource/rabbitmq_resource_builder.go: what the list of builders holds.
use pos_data_showcase.Prelude.{
  Bool, true, false, List, [], ◌∷◌, ◌++◌, if◌then◌else◌, ◌≡◌, refl, Bool-cases, inl, inr,
}
use pos_data_showcase.Cluster.{RabbitmqCluster, vault_default_user_secret_enabled}
use pos_data_showcase.Resource.Builders.{
  ResourceBuilder, headless_service, service, erlang_cookie, default_user_secret,
  rabbitmq_plugins_config_map, server_config_map, service_account, role, role_binding,
  stateful_set_builder, all_builders, resource_builders, update_may_require_sts_recreate,
}

-- A builder of another kind than the default user's secret.
abbrev is_not_secret : ResourceBuilder → Bool
is_not_secret default_user_secret = false
is_not_secret _ = true

abbrev keep_if : (ResourceBuilder → Bool) → List ResourceBuilder → List ResourceBuilder
keep_if test [] = []
keep_if test (b ∷ rest) = if test b then b ∷ keep_if test rest else keep_if test rest

-- Where Vault has the default user, the list is the full one without the builder of the default
-- user's secret, and otherwise the full one; either way the one builder whose update may recreate
-- the StatefulSet stands last, after everything that the StatefulSet's pods refer to.
resource_builders_lem :
    (cluster : RabbitmqCluster)
    → (resource_builders cluster ≡ (
        if vault_default_user_secret_enabled cluster
        then keep_if is_not_secret all_builders
        else all_builders))
      × (before : List ResourceBuilder) × (resource_builders cluster
          ≡ before ++ stateful_set_builder ∷ [])
      × (keep_if update_may_require_sts_recreate before ≡ [])
unfolding resource_builders update_may_require_sts_recreate
resource_builders_lem cluster = elim (Bool-cases (vault_default_user_secret_enabled cluster)) [
  | inl h ↦ (
    rw (h, resource_builders),
    headless_service ∷ service ∷ erlang_cookie ∷ rabbitmq_plugins_config_map ∷ server_config_map
        ∷ service_account ∷ role ∷ role_binding ∷ [],
    rw (h, resource_builders),
    refl,
  )
  | inr h ↦ (
    rw (h, resource_builders),
    headless_service ∷ service ∷ erlang_cookie ∷ default_user_secret ∷ rabbitmq_plugins_config_map
        ∷ server_config_map ∷ service_account ∷ role ∷ role_binding ∷ [],
    rw (h, resource_builders),
    refl,
  )
]
