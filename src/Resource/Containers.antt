-- ===== src/Resource/Containers.antt =====
-- internal/resource/statefulset.go: the containers of the pod template.
use pos_data_showcase.Prelude.{
  ℕ, String, ◌<>◌, true, false, not, none, some, List, [], ◌∷◌, ◌++◌, when, if◌then◌else◌,
}
use pos_data_showcase.Prelude.Decimal.{decimal}
use pos_data_showcase.Prelude.Dict.{Dict}
use pos_data_showcase.Kube.Pods.{Quantity, ResourceRequirements, EnvVar, VolumeMount, Container}
use pos_data_showcase.Cluster.{
  RabbitmqCluster, child_resource_name, is_set, tls_enabled, secret_tls_enabled,
  disable_non_tls_listeners, vault_default_user_secret_enabled,
}
use pos_data_showcase.Resource.ContainerPorts.{update_container_ports}

abbrev mount : String → String → VolumeMount
mount name path = record { name = name; mount_path = path; sub_path = ""; read_only = false }

abbrev mount_file : String → String → String → VolumeMount
mount_file name path file = record {
  name = name;
  mount_path = path;
  sub_path = file;
  read_only = false;
}

abbrev pub tls_mount : VolumeMount
tls_mount = record {
  name = "rabbitmq-tls";
  mount_path = "/etc/rabbitmq-tls/";
  sub_path = "";
  read_only = true;
}

abbrev env_value : String → String → EnvVar
env_value name value = record { name = name; value = value; field_path = none }

abbrev env_field : String → String → EnvVar
env_field name path = record { name = name; value = ""; field_path = some path }

unfoldable pub env_vars_k8s_objects : RabbitmqCluster → List EnvVar
env_vars_k8s_objects cluster =
    env_field "MY_POD_NAME" "metadata.name"
    ∷ env_field "MY_POD_NAMESPACE" "metadata.namespace"
    ∷ env_value "K8S_SERVICE_NAME" (child_resource_name cluster "nodes")
    ∷ []

-- `rabbitmqContainerVolumeMounts`
unfoldable pub rabbitmq_container_volume_mounts : RabbitmqCluster → List VolumeMount
rabbitmq_container_volume_mounts cluster =
    (mount "rabbitmq-erlang-cookie" "/var/lib/rabbitmq/"
      ∷ mount "persistence" "/var/lib/rabbitmq/mnesia/"
      ∷ mount "rabbitmq-plugins" "/operator"
      ∷ mount_file "rabbitmq-confd" "/etc/rabbitmq/conf.d/10-operatorDefaults.conf"
          "operatorDefaults.conf"
      ∷ mount_file "rabbitmq-confd" "/etc/rabbitmq/conf.d/90-userDefinedConfiguration.conf"
          "userDefinedConfiguration.conf"
      ∷ mount "pod-info" "/etc/pod-info/"
      ∷ [])
    ++ when (not (vault_default_user_secret_enabled cluster)) (
        mount_file "rabbitmq-confd" "/etc/rabbitmq/conf.d/11-default_user.conf" "default_user.conf"
        ∷ [])
    ++ when (is_set cluster.spec.rabbitmq.env_config)
        (mount_file "server-conf" "/etc/rabbitmq/rabbitmq-env.conf" "rabbitmq-env.conf" ∷ [])
    ++ when (is_set cluster.spec.rabbitmq.advanced_config)
        (mount_file "server-conf" "/etc/rabbitmq/advanced.config" "advanced.config" ∷ [])
    ++ when (secret_tls_enabled cluster) (tls_mount ∷ [])

unfoldable pub readiness_probe_port : RabbitmqCluster → String
readiness_probe_port cluster = if disable_non_tls_listeners cluster then "amqps" else "amqp"

-- The command of the hook that runs before a container stops; `t` is the grace period in seconds.
unfoldable pub pre_stop_command : ℕ → List String
pre_stop_command t =
    "/bin/bash"
    ∷ "-c"
    ∷ ("if [ ! -z \"$(cat /etc/pod-info/skipPreStopChecks)\" ]; then exit 0; fi;"
        <> (" rabbitmq-upgrade await_online_quorum_plus_one -t "
            <> (decimal t
                <> ("; rabbitmq-upgrade await_online_synchronized_mirror -t "
                    <> (decimal t <> ("; rabbitmq-upgrade drain -t " <> decimal t))))))
    ∷ []

-- `Containers[0]`
unfoldable pub rabbitmq_container : RabbitmqCluster → ResourceRequirements → ℕ → Container
rabbitmq_container cluster resources termination_grace_period = record {
  name = "rabbitmq";
  image = cluster.spec.image;
  command = [];
  args = [];
  resources = resources;
  env =
      env_vars_k8s_objects cluster
      ++ env_value "RABBITMQ_ENABLED_PLUGINS_FILE" "/operator/enabled_plugins"
        ∷ env_value "RABBITMQ_USE_LONGNAME" "true"
        ∷ env_value "RABBITMQ_NODENAME"
            "rabbit@$(MY_POD_NAME).$(K8S_SERVICE_NAME).$(MY_POD_NAMESPACE)"
        ∷ env_value "K8S_HOSTNAME_SUFFIX" ".$(K8S_SERVICE_NAME).$(MY_POD_NAMESPACE)"
        ∷ [];
  volume_mounts = rabbitmq_container_volume_mounts cluster;
  ports = update_container_ports cluster;
  readiness_port = some (readiness_probe_port cluster);
  pre_stop = pre_stop_command termination_grace_period;
  security_context = none;
}

-- The command of the init container, which reads the default user from a file.
unfoldable pub setup_command : String → List String
setup_command default_user =
    "sh"
    ∷ "-c"
    ∷ ("cp /tmp/erlang-cookie-secret/.erlang.cookie /var/lib/rabbitmq/.erlang.cookie "
        <> ("&& chmod 600 /var/lib/rabbitmq/.erlang.cookie ; "
            <> ("cp /tmp/rabbitmq-plugins/enabled_plugins /operator/enabled_plugins ; "
                <> ("echo '[default]' > /var/lib/rabbitmq/.rabbitmqadmin.conf "
                    <> ("&& sed -e 's/default_user/username/' -e 's/default_pass/password/' "
                        <> (default_user
                            <> (" >> /var/lib/rabbitmq/.rabbitmqadmin.conf "
                                <> "&& chmod 600 /var/lib/rabbitmq/.rabbitmqadmin.conf")))))))
    ∷ []

module _ (parse_quantity : String → Quantity) where
  abbrev cpu_and_memory : String → String → Dict Quantity
  cpu_and_memory cpu memory = ("cpu", parse_quantity cpu) ∷ ("memory", parse_quantity memory) ∷ []

  unfoldable pub setup_container : RabbitmqCluster → Container
  setup_container cluster =
      let vault = vault_default_user_secret_enabled cluster in
      record {
        name = "setup-container";
        image = cluster.spec.image;
        command = setup_command (
            if vault
            then "/etc/rabbitmq/conf.d/11-default_user.conf"
            else "/tmp/default_user.conf");
        args = [];
        resources = record {
          limits = cpu_and_memory "100m" "500Mi";
          requests = cpu_and_memory "100m" "500Mi";
        };
        env = [];
        volume_mounts =
            (mount "plugins-conf" "/tmp/rabbitmq-plugins/"
              ∷ mount "rabbitmq-erlang-cookie" "/var/lib/rabbitmq/"
              ∷ mount "erlang-cookie-secret" "/tmp/erlang-cookie-secret/"
              ∷ mount "rabbitmq-plugins" "/operator"
              ∷ mount "persistence" "/var/lib/rabbitmq/mnesia/"
              ∷ [])
            ++ when (not vault)
                (mount_file "rabbitmq-confd" "/tmp/default_user.conf" "default_user.conf" ∷ []);
        ports = [];
        readiness_port = none;
        pre_stop = [];
        security_context = none;
      }

  -- The image is that of the Vault settings.
  unfoldable pub default_user_credential_updater : RabbitmqCluster → String → Container
  default_user_credential_updater cluster image = record {
    name = "default-user-credential-updater";
    image = image;
    command = [];
    args =
        "--management-uri"
        ∷ (if tls_enabled cluster
            then "https://$(HOSTNAME_DOMAIN):15671"
            else "http://127.0.0.1:15672")
        ∷ "-v"
        ∷ "4"
        ∷ [];
    resources = record {
      limits = cpu_and_memory "500m" "128Mi";
      requests = cpu_and_memory "10m" "512Ki";
    };
    env =
        env_vars_k8s_objects cluster
        ++ env_value "HOSTNAME_DOMAIN" "$(MY_POD_NAME).$(K8S_SERVICE_NAME).$(MY_POD_NAMESPACE)"
          ∷ [];
    volume_mounts =
        (mount "rabbitmq-erlang-cookie" "/var/lib/rabbitmq/" ∷ [])
        ++ when (secret_tls_enabled cluster) (tls_mount ∷ []);
    ports = [];
    readiness_port = none;
    pre_stop = [];
    security_context = none;
  }
