-- ===== src/Resource/DefaultUser/Ports.antt =====
-- internal/resource/default_user_secret.go: what a client reads in the secret, and whether the service
-- has that port.
use pos_data_showcase.Prelude.{
  ◌≡◌, refl, ap, ◌∙◌, inl, inr, String, Bool, Option, none, some, List, [], ◌∷◌, str_eq,
  if◌then◌else◌, Bool-cases,
}
use pos_data_showcase.Prelude.Dict.{Dict, lookup, insert, erase, lookup-insert, lookup-erase}
use pos_data_showcase.Cluster.{RabbitmqCluster, secret_tls_enabled, is_set}
use pos_data_showcase.Resource.DefaultUser.{
  PluginPort, plugin_enabled, write_plugin_ports, update_secret_ports,
}

-- What the secret has under a key after the loop: the last line for the key decides.
abbrev after_ports :
    RabbitmqCluster
    → (PluginPort → String)
    → List PluginPort
    → String
    → Option String
    → Option String
after_ports cluster chosen [] key old = old
after_ports cluster chosen (p ∷ rest) key old = after_ports cluster chosen rest key (
    if str_eq p.port_name key
    then if plugin_enabled cluster p.plugin then some (chosen p) else none
    else old)

lookup-write_plugin_ports :
    (cluster : RabbitmqCluster) (chosen : PluginPort → String) (ports : List PluginPort)
    (secret : Dict String) (key : String)
    → lookup key (write_plugin_ports cluster chosen ports secret)
      ≡ after_ports cluster chosen ports key (lookup key secret)
unfolding write_plugin_ports
lookup-write_plugin_ports cluster chosen [] secret key = refl
lookup-write_plugin_ports cluster chosen (p ∷ rest) secret key =
    elim (Bool-cases (plugin_enabled cluster p.plugin)) [
      | inl e ↦ rw e (
          lookup-write_plugin_ports cluster chosen rest (insert p.port_name (chosen p) secret) key
          ∙ ap (after_ports cluster chosen rest key)
              (lookup-insert key p.port_name (chosen p) secret))
      | inr e ↦ rw e (
          lookup-write_plugin_ports cluster chosen rest (erase p.port_name secret) key
          ∙ ap (after_ports cluster chosen rest key) (lookup-erase key p.port_name secret))
    ]

-- The port of a plugin, or nothing where the plugin is off.
abbrev pub port_if : Bool → Bool → String → String → Option String
port_if enabled tls tls_port port = if enabled then some (if tls then tls_port else port) else none

-- The secret names the AMQP port and the port of each of the five plugins that is on, the TLS ports
-- exactly where a TLS secret is named, and no port of a plugin that is off, whatever it named before.
pub update_secret_ports_lem :
    (cluster : RabbitmqCluster) (secret : Dict String)
    → let tls = secret_tls_enabled cluster in
      let on = plugin_enabled cluster in
      let after = update_secret_ports cluster secret in
      (lookup "port" after ≡ some (if tls then "5671" else "5672"))
      × (lookup "mqtt-port" after ≡ port_if (on "rabbitmq_mqtt") tls "8883" "1883")
      × (lookup "stomp-port" after ≡ port_if (on "rabbitmq_stomp") tls "61614" "61613")
      × (lookup "stream-port" after ≡ port_if (on "rabbitmq_stream") tls "5551" "5552")
      × (lookup "web-mqtt-port" after ≡ port_if (on "rabbitmq_web_mqtt") tls "15676" "15675")
      × (lookup "web-stomp-port" after ≡ port_if (on "rabbitmq_web_stomp") tls "15673" "15674")
unfolding update_secret_ports secret_tls_enabled
update_secret_ports_lem cluster secret = elim (Bool-cases (is_set cluster.spec.tls.secret_name)) [
  | inl e ↦
      rw e (simp (lookup-write_plugin_ports, lookup-insert) (refl, refl, refl, refl, refl, refl))
  | inr e ↦
      rw e (simp (lookup-write_plugin_ports, lookup-insert) (refl, refl, refl, refl, refl, refl))
]
