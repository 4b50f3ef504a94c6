-- ===== src/Tests/ResourceRuns.antt =====
-- The ports, the plugins and the secret of the sample clusters.
use pos_data_showcase.Prelude.{true, false, some, List, [], ◌∷◌, ◌≡◌, ◌≢◌, refl}
use pos_data_showcase.Prelude.Dict.{lookup, insert}
use pos_data_showcase.Cluster.{
  tls_enabled, secret_tls_enabled, vault_tls_enabled, vault_spec_tls_enabled, mutual_tls_enabled,
  disable_non_tls_listeners, additional_plugin_enabled, contains_plugin, stream_needed,
}
use pos_data_showcase.Kube.Services.{ServicePort}
use pos_data_showcase.Resource.ServicePorts.{
  tcp_port, generate_service_ports_map, service_spec_ports, clear_node_ports, put_port, put_port_if,
  plain_ports, tls_ports, web_tls_ports,
}
use pos_data_showcase.Resource.ServicePorts.Update.{
  named, expected, first_node_port, named-service_spec_ports,
}
use pos_data_showcase.Resource.Plugins.{desired_plugins, new_rabbitmq_plugins}
use pos_data_showcase.Resource.Plugins.Laws.{count, count-desired_plugins}
use pos_data_showcase.Resource.DefaultUser.{update_secret_ports}
use pos_data_showcase.Resource.DefaultUser.Unreachable.{default_user_port_unreachable}
use pos_data_showcase.Tests.Sample.{tls_cluster, vault_cluster}

abbrev pub amqps : ServicePort
amqps = tcp_port "amqps" 5671 "amqps"

pub tls_has_amqps : lookup "amqps" (generate_service_ports_map tls_cluster) ≡ some amqps
unfolding lookup generate_service_ports_map put_port put_port_if plain_ports tls_ports web_tls_ports
    insert disable_non_tls_listeners tls_enabled secret_tls_enabled mutual_tls_enabled
    additional_plugin_enabled contains_plugin stream_needed
tls_has_amqps = refl

abbrev assigned : List ServicePort
assigned = record amqps { node_port = 31000 } ∷ []

named-service_spec_ports_example :
    named "amqps" (service_spec_ports tls_cluster assigned)
    ≡ clear_node_ports (
        expected
          (lookup "amqps" (generate_service_ports_map tls_cluster))
          (first_node_port "amqps" assigned))
named-service_spec_ports_example = named-service_spec_ports tls_cluster assigned "amqps"

count-desired_plugins_example :
    count "rabbitmq_stream"
      (desired_plugins (new_rabbitmq_plugins ("rabbitmq_stream" ∷ "rabbitmq_stream" ∷ [])))
    ≡ 1
unfolding contains_plugin
count-desired_plugins_example =
    count-desired_plugins ("rabbitmq_stream" ∷ "rabbitmq_stream" ∷ []) "rabbitmq_stream"

vault_tls : vault_tls_enabled vault_cluster ≡ true
unfolding vault_tls_enabled vault_spec_tls_enabled
vault_tls = refl

no_secret : secret_tls_enabled vault_cluster ≡ false
unfolding secret_tls_enabled
no_secret = refl

plain_off : disable_non_tls_listeners vault_cluster ≡ true
unfolding disable_non_tls_listeners
plain_off = refl

vault_has_amqps : lookup "amqps" (generate_service_ports_map vault_cluster) ≡ some amqps
unfolding lookup generate_service_ports_map put_port put_port_if plain_ports tls_ports web_tls_ports
    insert disable_non_tls_listeners tls_enabled secret_tls_enabled vault_tls_enabled
    vault_spec_tls_enabled mutual_tls_enabled additional_plugin_enabled contains_plugin
    stream_needed
vault_has_amqps = refl

default_user_port_unreachable_example :
    (lookup "port" (update_secret_ports vault_cluster []) ≡ some "5672") × (amqps.port ≢ 5672)
default_user_port_unreachable_example =
    default_user_port_unreachable vault_cluster [] "amqps" amqps vault_tls no_secret plain_off
      vault_has_amqps
