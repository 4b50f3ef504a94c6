-- ===== src/Resource/Plugins.antt =====
-- internal/resource/rabbitmq_plugins.go: the plugins that are enabled.
pub mod File
pub mod Laws
use pos_data_showcase.Prelude.{
  String, ◌<>◌, Bool, true, Option, none, some, List, [], ◌∷◌, ◌++◌, map, if◌then◌else◌,
}
use pos_data_showcase.Prelude.Dict.{Dict, lookup, insert}
use pos_data_showcase.Status.{join}
use pos_data_showcase.Cluster.{Plugin}

abbrev pub required_plugins : List String
required_plugins =
    "rabbitmq_peer_discovery_k8s" ∷ "rabbitmq_prometheus" ∷ "rabbitmq_management" ∷ []

pub record RabbitmqPlugins : Type 0 where
  pub required : List String
  pub additional : List String

unfoldable pub new_rabbitmq_plugins : List Plugin → RabbitmqPlugins
new_rabbitmq_plugins plugins = record { required = required_plugins; additional = plugins }

-- The loop of `DesiredPlugins`, over the map `check` and the list `enabledPlugins`.
unfoldable pub enable : Dict Bool → List String → List String → List String
enable check enabled [] = enabled
enable check enabled (p ∷ rest) =
    let added = enable (insert p true check) (enabled ++ p ∷ []) rest in
    let same = enable check enabled rest in elim (lookup p check) [ none ↦ added | some _ ↦ same ]

unfoldable pub desired_plugins : RabbitmqPlugins → List String
desired_plugins r = enable [] [] (r.required ++ r.additional)

unfoldable pub as_string : RabbitmqPlugins → String → String
as_string r sep = join sep (desired_plugins r)

unfoldable pub desired_plugins_as_string : List Plugin → String
desired_plugins_as_string additional =
    "[" <> (as_string (new_rabbitmq_plugins additional) "," <> "].")

-- The key that `Build` (with no additional plugins) and `Update` write in the config map.
unfoldable pub plugins_config_data : Dict String → List Plugin → Dict String
plugins_config_data config_data additional =
    insert "enabled_plugins" (desired_plugins_as_string additional) config_data
