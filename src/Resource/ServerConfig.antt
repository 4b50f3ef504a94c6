-- ===== src/Resource/ServerConfig.antt =====
-- internal/resource/configmap.go: the settings that `ServerConfigMapBuilder.Update` writes in
-- rabbitmq.conf, in the order of its calls of `NewKey`; what an ini file makes of them, and the
-- configuration that the user adds, belong to the ini package.
pub mod Files
pub mod Precedence
pub mod Listeners
use pos_data_showcase.Prelude.{
  ℕ, String, Bool, true, false, not, Option, none, some, List, [], ◌∷◌, ◌++◌, if◌then◌else◌, str_eq,
  when,
}
use pos_data_showcase.Prelude.Decimal.{decimal}
use pos_data_showcase.Prelude.Dict.{Dict}
use pos_data_showcase.Cluster.{
  RabbitmqCluster, tls_enabled, mutual_tls_enabled, disable_non_tls_listeners,
  additional_plugin_enabled, memory_limit, memory_limited,
}
use pos_data_showcase.Resource.Headroom.{remove_headroom}
use pos_data_showcase.Prelude.Dict.{insert, erase}

abbrev pub ca_cert_path : String
ca_cert_path = "/etc/rabbitmq-tls/ca.crt"

abbrev pub tls_cert_path : String
tls_cert_path = "/etc/rabbitmq-tls/tls.crt"

abbrev pub tls_key_path : String
tls_key_path = "/etc/rabbitmq-tls/tls.key"

-- The lines that `Append(defaultTLSConf)` reads.
abbrev pub default_tls_conf : Dict String
default_tls_conf =
    ("ssl_options.certfile", tls_cert_path)
    ∷ ("ssl_options.keyfile", tls_key_path)
    ∷ ("listeners.ssl.default", "5671")
    ∷ ("management.ssl.certfile", tls_cert_path)
    ∷ ("management.ssl.keyfile", tls_key_path)
    ∷ ("management.ssl.port", "15671")
    ∷ ("prometheus.ssl.certfile", tls_cert_path)
    ∷ ("prometheus.ssl.keyfile", tls_key_path)
    ∷ ("prometheus.ssl.port", "15691")
    ∷ []

-- A plugin with a TLS listener, and the plain one that is turned off.
unfoldable pub plugin_settings : RabbitmqCluster → String → String → String → String → Dict String
plugin_settings cluster plugin ssl_key ssl_port tcp_key =
    when (additional_plugin_enabled cluster plugin)
      ((ssl_key, ssl_port) ∷ when (disable_non_tls_listeners cluster) ((tcp_key, "none") ∷ []))

-- The calls of `NewKey` under `if builder.Instance.TLSEnabled()`.
unfoldable pub tls_keys : RabbitmqCluster → Dict String
tls_keys cluster =
    (if disable_non_tls_listeners cluster
      then ("listeners.tcp", "none") ∷ []
      else ("management.tcp.port", "15672") ∷ ("prometheus.tcp.port", "15692") ∷ [])
    ++ plugin_settings cluster "rabbitmq_mqtt" "mqtt.listeners.ssl.default" "8883"
        "mqtt.listeners.tcp"
    ++ plugin_settings cluster "rabbitmq_stomp" "stomp.listeners.ssl.1" "61614"
        "stomp.listeners.tcp"
    ++ plugin_settings cluster "rabbitmq_stream" "stream.listeners.ssl.default" "5551"
        "stream.listeners.tcp"

-- The two web plugins with mutual TLS.
unfoldable pub web_settings :
    RabbitmqCluster → String → String → String → String → String → String → String → Dict String
web_settings cluster plugin port_key port ca_key cert_key key_key tcp_key =
    when (additional_plugin_enabled cluster plugin) (
      (port_key, port)
      ∷ (ca_key, ca_cert_path)
      ∷ (cert_key, tls_cert_path)
      ∷ (key_key, tls_key_path)
      ∷ when (disable_non_tls_listeners cluster) ((tcp_key, "none") ∷ []))

unfoldable pub mutual_tls_settings : RabbitmqCluster → Dict String
mutual_tls_settings cluster =
    (("ssl_options.cacertfile", ca_cert_path)
      ∷ ("ssl_options.verify", "verify_peer")
      ∷ ("management.ssl.cacertfile", ca_cert_path)
      ∷ ("prometheus.ssl.cacertfile", ca_cert_path)
      ∷ [])
    ++ web_settings cluster "rabbitmq_web_mqtt" "web_mqtt.ssl.port" "15676"
        "web_mqtt.ssl.cacertfile" "web_mqtt.ssl.certfile" "web_mqtt.ssl.keyfile"
        "web_mqtt.tcp.listener"
    ++ web_settings cluster "rabbitmq_web_stomp" "web_stomp.ssl.port" "15673"
        "web_stomp.ssl.cacertfile" "web_stomp.ssl.certfile" "web_stomp.ssl.keyfile"
        "web_stomp.tcp.listener"

unfoldable pub memory_settings : RabbitmqCluster → Dict String
memory_settings cluster = elim cluster.spec.resources [
  | none ↦ []
  | some resources ↦ when (memory_limited cluster) (
      ("total_memory_available_override_value", decimal (remove_headroom (memory_limit resources)))
      ∷ [])
]

-- The settings of `userConfiguration` that are set by `NewKey`.
unfoldable pub user_keys : RabbitmqCluster → Dict String
user_keys cluster =
    when (tls_enabled cluster) (tls_keys cluster)
    ++ when (mutual_tls_enabled cluster) (mutual_tls_settings cluster)
    ++ memory_settings cluster

unfoldable pub update_property : String → String → Dict String → Dict String
update_property key value config_data = elim (str_eq value "") [
  | true ↦ erase key config_data
  | false ↦ insert key value config_data
]
