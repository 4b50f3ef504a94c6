-- ===== src/Resource/Builders.antt =====
-- internal/resource/rabbitmq_resource_builder.go: which child resources are built, in which order. A
-- builder is named by its kind.
pub mod Laws
use pos_data_showcase.Prelude.{ℕ, zero, suc, Bool, true, false, List, [], ◌∷◌, ◌++◌, if◌then◌else◌}
use pos_data_showcase.Cluster.{RabbitmqCluster, vault_default_user_secret_enabled}

pub data ResourceBuilder : Type 0 where
  headless_service service erlang_cookie default_user_secret rabbitmq_plugins_config_map :
      ResourceBuilder
  server_config_map service_account role role_binding stateful_set_builder : ResourceBuilder

-- `builders[:n]` and `builders[n:]`
abbrev pub take : List ResourceBuilder → ℕ → List ResourceBuilder
take bs zero = []
take [] (suc n) = []
take (b ∷ bs) (suc n) = b ∷ take bs n

abbrev pub drop : List ResourceBuilder → ℕ → List ResourceBuilder
drop bs zero = bs
drop [] (suc n) = []
drop (b ∷ bs) (suc n) = drop bs n

abbrev pub all_builders : List ResourceBuilder
all_builders =
    headless_service ∷ service ∷ erlang_cookie ∷ default_user_secret ∷ rabbitmq_plugins_config_map
    ∷ server_config_map ∷ service_account ∷ role ∷ role_binding ∷ stateful_set_builder ∷ []

unfoldable pub resource_builders : RabbitmqCluster → List ResourceBuilder
resource_builders cluster =
    if vault_default_user_secret_enabled cluster
    then take all_builders 3 ++ drop all_builders 4
    else all_builders

-- Only the builder of the StatefulSet answers true.
unfoldable pub update_may_require_sts_recreate : ResourceBuilder → Bool
update_may_require_sts_recreate stateful_set_builder = true
update_may_require_sts_recreate _ = false
