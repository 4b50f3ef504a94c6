-- ===== src/Tests/ContentRuns.antt =====
-- What the builders write for a sample cluster, with the small ini package of Tests.Inis.
use mathlib.Core.List.{Perm}
use pos_data_showcase.Prelude.{
  Bool, ◌&&◌, String, true, false, some, List, [], ◌∷◌, ◌≡◌, refl, arith, All, not, ◌&&◌, when,
  zero, suc,
}
use mathlib.Core.Path.{subst}
use pos_data_showcase.Prelude.Dict.{Dict, AllEntries, lookup, insert, erase}
use pos_data_showcase.Prelude.Strings.{split, split_from, trim_prefix, trim_suffix}
use pos_data_showcase.Prelude.Decimal.{decimal}
use pos_data_showcase.Resource.Headroom.{remove_headroom}
use pos_data_showcase.Resource.ServerConfig.{
  user_keys, tls_keys, plugin_settings, mutual_tls_settings, web_settings, memory_settings,
  update_property,
}
use pos_data_showcase.Kube.Exec.{ok}
use pos_data_showcase.Kube.Outcome.{Outcome, returned, failed, panic}
use pos_data_showcase.Kube.Objects.{Secret}
use pos_data_showcase.Kube.Pods.{VolumeMount}
use pos_data_showcase.Kube.Services.{Service}
use pos_data_showcase.Cluster.{
  RabbitmqCluster, service_sub_domain, disable_non_tls_listeners, tls_enabled, secret_tls_enabled,
  vault_tls_enabled, mutual_tls_enabled, additional_plugin_enabled, contains_plugin, memory_limited,
}
use pos_data_showcase.Metadata.Laws.{or_else}
use pos_data_showcase.Resource.ClientService.{build_service, update_service, apply_svc_override}
use pos_data_showcase.Resource.ClientService.Served.{update_service-IsServed}
use pos_data_showcase.Resource.ContainerPorts.Reached.{has_port}
use pos_data_showcase.Resource.DefaultUser.{update_secret_ports, write_plugin_ports, plugin_enabled}
use pos_data_showcase.Resource.DefaultUser.Secret.{
  prefixed, generate_username, generate_default_user_conf, build_default_user, update_default_user,
  assign_ports, default_user_content, default_user_secret_of,
}
use pos_data_showcase.Resource.DefaultUser.Kept.{here, next, build_default_user-kept}
use pos_data_showcase.Resource.Ini.{new_keys}
use pos_data_showcase.Resource.Order.{sort_volume_mounts}
use pos_data_showcase.Resource.Order.Placed.{StandsAt, sort_volume_mounts_lem}
use pos_data_showcase.Resource.ServerConfig.Files.{
  server_config_data, operator_configuration, tls_file, user_configuration,
}
use pos_data_showcase.Resource.ServerConfig.Listeners.{off_if, server_config_data-listeners}
use pos_data_showcase.Resource.ServerConfig.Precedence.{operator_value, server_config_data-values}
use pos_data_showcase.Tests.ReconcilerRuns.{cc_ok}
use pos_data_showcase.Tests.StatefulSetRuns.{or_default, full_cluster, test_packages}
use pos_data_showcase.Tests.ChildRuns.{test_service_law, value_or, template, template_lem}
use pos_data_showcase.Tests.BuilderRuns.{test_builders, secret_of}
use pos_data_showcase.Tests.Inis.{
  Ini, test_ini, get_entry, get_sourced, test_ini_laws, load_text, append_text, write_file,
}

abbrev mount_named : String → VolumeMount
mount_named n = record { name = n; mount_path = n; sub_path = ""; read_only = false }

abbrev three_mounts : List VolumeMount
three_mounts =
    mount_named "persistence" ∷ mount_named "plugins" ∷ mount_named "rabbitmq-erlang-cookie" ∷ []

cookie_third : StandsAt "rabbitmq-erlang-cookie" 2 three_mounts
cookie_third zero = refl
cookie_third (suc zero) = refl
cookie_third (suc (suc zero)) = refl
cookie_third (suc (suc (suc k))) = ground arith

persistence_first : StandsAt "persistence" 0 three_mounts
persistence_first zero = refl
persistence_first (suc zero) = refl
persistence_first (suc (suc zero)) = refl
persistence_first (suc (suc (suc k))) = ground arith

sort_volume_mounts_lem_example :
    (sorted : List VolumeMount) × (sort_volume_mounts three_mounts ≡ returned sorted)
    × Perm sorted three_mounts
    × StandsAt "rabbitmq-erlang-cookie" 0 sorted
    × StandsAt "persistence" 1 sorted
sort_volume_mounts_lem_example =
    sort_volume_mounts_lem three_mounts 2 0 cookie_third persistence_first

abbrev user_conf : String
user_conf = "default_pass = c2VjcmV0\ndefault_user = default_user_abcdefghijklmnopqrs\n"

abbrev user_secret : Secret
user_secret =
    default_user_secret_of full_cluster
      (default_user_content full_cluster "default_user_abcdefghijklmnopqrs" "c2VjcmV0" user_conf)

user_secret_lem :
    build_default_user test_ini test_builders.random_username test_builders.random_password
      full_cluster
    ≡ returned user_secret
unfolding build_default_user generate_username prefixed generate_default_user_conf new_keys
    load_text write_file split split_from trim_prefix trim_suffix
user_secret_lem = refl

abbrev updated_secret : Secret
updated_secret =
    or_default (update_default_user test_builders.set_secret full_cluster user_secret) user_secret

updated_secret_lem :
    update_default_user test_builders.set_secret full_cluster user_secret ≡ returned updated_secret
unfolding update_default_user assign_ports default_user_secret_of update_secret_ports
    write_plugin_ports plugin_enabled contains_plugin erase insert default_user_content
updated_secret_lem = refl

set_secret-kept :
    (c : RabbitmqCluster) (o o' : Secret)
    → test_builders.set_secret c o ≡ ok o'
    → o' ≡ record o { controller = o'.controller }
set_secret-kept c o o' e =
    subst (λ (x : Secret). x ≡ record o { controller = x.controller }) (cc_ok (secret_of c o) o' e)
      refl

build_default_user-kept_example :
    (username : String) × (password : String) × (conf : String) × (generate_username
        test_builders.random_username
      ≡ returned username)
    × (test_builders.random_password ≡ ok password)
    × (generate_default_user_conf test_ini username password ≡ returned conf)
    × (lookup "username" updated_secret.content ≡ some username)
    × (lookup "password" updated_secret.content ≡ some password)
    × (lookup "default_user.conf" updated_secret.content ≡ some conf)
    × (lookup "host" updated_secret.content ≡ some (service_sub_domain full_cluster))
    × (lookup "provider" updated_secret.content ≡ some "rabbitmq")
    × (lookup "type" updated_secret.content ≡ some "rabbitmq")
build_default_user-kept_example =
    build_default_user-kept test_builders.set_secret set_secret-kept test_ini
      test_builders.random_username test_builders.random_password full_cluster user_secret
      updated_secret user_secret_lem (next full_cluster here updated_secret_lem)

abbrev client_service : Service
client_service =
    value_or (update_service test_builders.services full_cluster (build_service full_cluster))
      (build_service full_cluster)

client_service_lem :
    update_service test_builders.services full_cluster (build_service full_cluster)
    ≡ ok client_service
unfolding update_service apply_svc_override
client_service_lem = refl

tls_allowed : (disable_non_tls_listeners full_cluster && not (tls_enabled full_cluster)) ≡ false
unfolding disable_non_tls_listeners tls_enabled secret_tls_enabled vault_tls_enabled
tls_allowed = refl

update_service-IsServed_example :
    AllEntries (λ k v. lookup k template.labels ≡ some v) client_service.spec.selector
    × All
        (λ p. has_port p.name p.target_port template.spec.container.ports ≡ true)
        client_service.spec.ports
update_service-IsServed_example =
    update_service-IsServed test_builders.services test_service_law test_packages.parse_quantity
      full_cluster [] template (build_service full_cluster) client_service refl tls_allowed
      template_lem client_service_lem

-- The user sets a limit, and the port of the management plugin for TLS.
abbrev configured : RabbitmqCluster
configured = record full_cluster {
  spec = record full_cluster.spec {
    rabbitmq = record full_cluster.spec.rabbitmq {
      additional_config = "disk_free_limit.absolute = 4GB\nmanagement.ssl.port = 15999";
    };
  };
}

abbrev dict_or : Outcome (Dict String) → Dict String
dict_or (returned m) = m
dict_or (failed e) = []
dict_or panic = []

abbrev configured_data : Dict String
configured_data = dict_or (server_config_data test_ini configured [])

configured_data_lem : server_config_data test_ini configured [] ≡ returned configured_data
unfolding server_config_data operator_configuration tls_file user_configuration new_keys load_text
    append_text write_file split split_from trim_prefix trim_suffix tls_enabled secret_tls_enabled
    vault_tls_enabled user_keys when tls_keys disable_non_tls_listeners plugin_settings
    additional_plugin_enabled contains_plugin mutual_tls_enabled mutual_tls_settings web_settings
    memory_settings memory_limited lookup insert erase update_property decimal remove_headroom
configured_data_lem = refl

server_config_data-values_example :
    (defaults : Ini) × (user : Ini) × (given : Ini) × (default_text : String) × (user_text : String)
    × (lookup "operatorDefaults.conf" configured_data ≡ some default_text)
    × (test_ini.write_to defaults ≡ ok default_text)
    × (get_entry "cluster_name" defaults ≡ some "pos")
    × (lookup "userDefinedConfiguration.conf" configured_data ≡ some user_text)
    × (test_ini.write_to user ≡ ok user_text)
    × (test_ini.load configured.spec.rabbitmq.additional_config ≡ ok given)
    × ((k : String) → get_entry k user ≡ or_else (get_entry k given) (operator_value configured k))
server_config_data-values_example =
    server_config_data-values test_ini get_entry get_sourced test_ini_laws configured []
      configured_data configured_data_lem

tls_on : tls_enabled configured ≡ true
unfolding tls_enabled secret_tls_enabled vault_tls_enabled
tls_on = refl

server_config_data-listeners_example :
    (user : Ini) × (given : Ini) × (text : String) × (lookup "userDefinedConfiguration.conf"
        configured_data
      ≡ some text)
    × (test_ini.write_to user ≡ ok text)
    × (test_ini.load configured.spec.rabbitmq.additional_config ≡ ok given)
    × (let off = λ (k : String) (b : Bool).
          or_else (get_entry k given) (off_if (disable_non_tls_listeners configured && b)) in
        let has = additional_plugin_enabled configured in
        (get_entry "listeners.tcp" user ≡ off "listeners.tcp" true)
        × (get_entry "mqtt.listeners.tcp" user ≡ off "mqtt.listeners.tcp" (has "rabbitmq_mqtt"))
        × (get_entry "stomp.listeners.tcp" user ≡ off "stomp.listeners.tcp" (has "rabbitmq_stomp"))
        × (get_entry "stream.listeners.tcp" user
            ≡ off "stream.listeners.tcp" (has "rabbitmq_stream"))
        × (get_entry "web_mqtt.tcp.listener" user
            ≡ off "web_mqtt.tcp.listener"
                (mutual_tls_enabled configured && has "rabbitmq_web_mqtt"))
        × (get_entry "web_stomp.tcp.listener" user
            ≡ off "web_stomp.tcp.listener"
                (mutual_tls_enabled configured && has "rabbitmq_web_stomp")))
server_config_data-listeners_example =
    server_config_data-listeners test_ini get_entry get_sourced test_ini_laws configured []
      configured_data tls_on configured_data_lem
