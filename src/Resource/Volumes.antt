-- ===== src/Resource/Volumes.antt =====
-- internal/resource/statefulset.go: the volumes of the pod template.
use pos_data_showcase.Prelude.{
  String, true, not, ◌&&◌, ◌||◌, none, some, List, [], ◌∷◌, ◌++◌, when, str_eq, ◌==◌, if◌then◌else◌,
}
use pos_data_showcase.Kube.Pods.{
  Quantity, Volume, VolumeSource, VolumeProjection, config_map_projection, secret_projection,
  config_map, secret, empty_dir, projected, downward_api,
}
use pos_data_showcase.Cluster.{
  RabbitmqCluster, child_resource_name, is_set, secret_tls_enabled, mutual_tls_enabled,
  single_tls_secret, vault_default_user_secret_enabled,
}

abbrev volume : String → VolumeSource → Volume
volume name source = record { name = name; source = source }

unfoldable pub base_volumes : RabbitmqCluster → List Volume
base_volumes cluster =
    volume "plugins-conf" (config_map (child_resource_name cluster "plugins-conf"))
    ∷ volume "rabbitmq-confd" (
        projected
          (config_map_projection (child_resource_name cluster "server-conf")
              ("operatorDefaults.conf" ∷ "userDefinedConfiguration.conf" ∷ [])
            ∷ [])
          none)
    ∷ volume "rabbitmq-erlang-cookie" empty_dir
    ∷ volume "erlang-cookie-secret" (secret (child_resource_name cluster "erlang-cookie"))
    ∷ volume "rabbitmq-plugins" empty_dir
    ∷ volume "pod-info"
        (downward_api (("skipPreStopChecks", "metadata.labels['skipPreStopChecks']") ∷ []))
    ∷ []

-- `append(Projected.Sources, projection)`; there is nothing to append to in another volume, where
-- the code would follow a nil pointer.
unfoldable pub append_source : VolumeProjection → VolumeSource → VolumeSource
append_source projection (projected sources mode) = projected (sources ++ projection ∷ []) mode
append_source projection source = source

-- The secret with the default user.
abbrev pub default_user_projection : RabbitmqCluster → VolumeProjection
default_user_projection cluster =
    secret_projection (child_resource_name cluster "default-user") ("default_user.conf" ∷ []) none

unfoldable pub append_default_user_secret_volume_projection :
    List Volume → RabbitmqCluster → List Volume
append_default_user_secret_volume_projection [] cluster = []
append_default_user_secret_volume_projection (v ∷ rest) cluster =
    (if str_eq v.name "rabbitmq-confd"
      then record v { source = append_source (default_user_projection cluster) v.source }
      else v)
    ∷ append_default_user_secret_volume_projection rest cluster

-- The secrets of the certificate and, if it is another one, of the certificate authority. The mode is
-- the decimal number 400.
unfoldable pub tls_projected_volume : RabbitmqCluster → Volume
tls_projected_volume cluster = volume "rabbitmq-tls" (
    projected
      (secret_projection cluster.spec.tls.secret_name [] (some true)
        ∷ when (mutual_tls_enabled cluster && not (single_tls_secret cluster))
            (secret_projection cluster.spec.tls.ca_secret_name [] (some true) ∷ []))
      (some 400))

-- `volumes` of `podTemplateSpec`; `no_storage` is `MustParse("0Gi")`.
unfoldable pub pod_volumes : Quantity → RabbitmqCluster → Quantity → List Volume
pod_volumes no_storage cluster storage =
    (if vault_default_user_secret_enabled cluster
      then base_volumes cluster
      else append_default_user_secret_volume_projection (base_volumes cluster) cluster)
    ++ when
        (is_set cluster.spec.rabbitmq.advanced_config || is_set cluster.spec.rabbitmq.env_config)
        (volume "server-conf" (config_map (child_resource_name cluster "server-conf")) ∷ [])
    ++ when (storage == no_storage) (volume "persistence" empty_dir ∷ [])
    ++ when (secret_tls_enabled cluster) (tls_projected_volume cluster ∷ [])
