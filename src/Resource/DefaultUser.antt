-- ===== src/Resource/DefaultUser.antt =====
-- internal/resource/default_user_secret.go: the ports in the secret that binds a client to the
-- cluster. The three maps of `updatePorts` are one list, a line for each plugin.
pub mod Secret
pub mod Kept
pub mod Ports
pub mod Unreachable
use pos_data_showcase.Prelude.{String, Bool, List, [], ◌∷◌, if◌then◌else◌}
use pos_data_showcase.Prelude.Dict.{Dict, insert, erase}
use pos_data_showcase.Cluster.{RabbitmqCluster, Plugin, is_set, contains_plugin}

-- `portNames`, `TLSPort` and `port` of one plugin.
pub record PluginPort : Type 0 where
  pub plugin : Plugin
  pub port_name : String
  pub tls_port : String
  pub port : String

abbrev pub plugin_ports : List PluginPort
plugin_ports =
    record { plugin = "rabbitmq_mqtt"; port_name = "mqtt-port"; tls_port = "8883"; port = "1883" }
    ∷ record {
      plugin = "rabbitmq_stomp";
      port_name = "stomp-port";
      tls_port = "61614";
      port = "61613";
    }
    ∷ record {
      plugin = "rabbitmq_stream";
      port_name = "stream-port";
      tls_port = "5551";
      port = "5552";
    }
    ∷ record {
      plugin = "rabbitmq_web_mqtt";
      port_name = "web-mqtt-port";
      tls_port = "15676";
      port = "15675";
    }
    ∷ record {
      plugin = "rabbitmq_web_stomp";
      port_name = "web-stomp-port";
      tls_port = "15673";
      port = "15674";
    }
    ∷ []

unfoldable pub plugin_enabled : RabbitmqCluster → Plugin → Bool
plugin_enabled cluster plugin = contains_plugin cluster.spec.rabbitmq.additional_plugins plugin

-- The loop over `portNames`: `chosen` is the map `TLSPort` or `port`.
unfoldable pub write_plugin_ports :
    RabbitmqCluster → (PluginPort → String) → List PluginPort → Dict String → Dict String
write_plugin_ports cluster chosen [] secret = secret
write_plugin_ports cluster chosen (p ∷ rest) secret = write_plugin_ports cluster chosen rest (
    if plugin_enabled cluster p.plugin
    then insert p.port_name (chosen p) secret
    else erase p.port_name secret)

unfoldable pub update_secret_ports : RabbitmqCluster → Dict String → Dict String
update_secret_ports cluster secret =
    if is_set cluster.spec.tls.secret_name
    then write_plugin_ports cluster (λ p. p.tls_port) plugin_ports (insert "port" "5671" secret)
    else write_plugin_ports cluster (λ p. p.port) plugin_ports (insert "port" "5672" secret)
