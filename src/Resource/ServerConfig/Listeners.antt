-- ===== src/Resource/ServerConfig/Listeners.antt =====
-- internal/resource/configmap.go: which plain listeners the written configuration turns off.
use pos_data_showcase.Prelude.{
  String, Bool, true, false, ◌&&◌, Option, none, some, [], ◌∷◌, ◌++◌, ◌≡◌, refl, ap, ◌∙◌,
  Bool-cases, inl, inr, if◌then◌else◌, str_eq, arith, when, Option-cases,
}
use pos_data_showcase.Prelude.Dict.{Dict, lookup}
use pos_data_showcase.Kube.Exec.{ok}
use pos_data_showcase.Kube.Outcome.{returned}
use pos_data_showcase.Metadata.Laws.{or_else}
use pos_data_showcase.Cluster.{
  RabbitmqCluster, tls_enabled, mutual_tls_enabled, disable_non_tls_listeners,
  additional_plugin_enabled,
}
use pos_data_showcase.Resource.Ini.{IniPackage}
use pos_data_showcase.Resource.ServerConfig.{
  plugin_settings, tls_keys, web_settings, mutual_tls_settings, memory_settings, user_keys,
}
use pos_data_showcase.Resource.ServerConfig.Files.{server_config_data}
use pos_data_showcase.Resource.ServerConfig.Precedence.{
  IniLaws, last_set, operator_value, server_config_data-values,
}

pub lookup-append :
    (k : String) (xs ys : Dict String) → lookup k (xs ++ ys) ≡ or_else (lookup k xs) (lookup k ys)
unfolding lookup
lookup-append k [] ys = refl
lookup-append k ((j, v) ∷ xs) ys = elim (Bool-cases (str_eq j k)) [
  | inl h ↦ rw h
  | inr h ↦ rw h (lookup-append k xs ys)
]

last_set-append :
    (k : String) (xs ys : Dict String) (o : Option String)
    → last_set k (xs ++ ys) o ≡ last_set k ys (last_set k xs o)
last_set-append k [] ys o = refl
last_set-append k ((j, v) ∷ xs) ys o = last_set-append k xs ys (if str_eq j k then some v else o)

last_set-when :
    (k : String) (b : Bool) (xs : Dict String) (o : Option String)
    → last_set k (when b xs) o ≡ (if b then last_set k xs o else o)
unfolding when
last_set-when k true xs o = refl
last_set-when k false xs o = refl

last_set-plugin_settings :
    (k : String) (c : RabbitmqCluster) (plugin ssl_key ssl_port tcp_key : String)
    (o : Option String)
    → str_eq ssl_key k ≡ false
    → last_set k (plugin_settings c plugin ssl_key ssl_port tcp_key) o ≡ (
        if additional_plugin_enabled c plugin && disable_non_tls_listeners c && str_eq tcp_key k
        then some "none"
        else o)
unfolding plugin_settings when
last_set-plugin_settings k c plugin ssl_key ssl_port tcp_key o h = ground arith

last_set-memory_settings :
    (k : String) (c : RabbitmqCluster) (o : Option String)
    → str_eq "total_memory_available_override_value" k ≡ false
    → last_set k (memory_settings c) o ≡ o
unfolding memory_settings when
last_set-memory_settings k c o h = elim (Option-cases c.spec.resources) [
  | inl e ↦ rw e refl
  | inr (x, e) ↦ rw e (ground arith)
]

last_set-web_settings :
    (k : String) (c : RabbitmqCluster)
    (plugin port_key port ca_key cert_key key_key tcp_key : String) (o : Option String)
    → str_eq port_key k ≡ false
    → str_eq ca_key k ≡ false
    → str_eq cert_key k ≡ false
    → str_eq key_key k ≡ false
    → last_set k (web_settings c plugin port_key port ca_key cert_key key_key tcp_key) o ≡ (
        if additional_plugin_enabled c plugin && disable_non_tls_listeners c && str_eq tcp_key k
        then some "none"
        else o)
unfolding web_settings when
last_set-web_settings k c plugin port_key port ca_key cert_key key_key tcp_key o h1 h2 h3 h4 =
    ground arith

ruleset settings = (
  last_set-append, last_set-when, last_set-plugin_settings, last_set-web_settings,
  last_set-memory_settings,
)

-- A listener that is turned off.
abbrev pub off_if : Bool → Option String
off_if true = some "none"
off_if false = none

operator_value-listeners :
    (c : RabbitmqCluster)
    → tls_enabled c ≡ true
    → let off = λ (b : Bool). off_if (disable_non_tls_listeners c && b) in
      let has = additional_plugin_enabled c in
      (operator_value c "listeners.tcp" ≡ off true)
      × (operator_value c "mqtt.listeners.tcp" ≡ off (has "rabbitmq_mqtt"))
      × (operator_value c "stomp.listeners.tcp" ≡ off (has "rabbitmq_stomp"))
      × (operator_value c "stream.listeners.tcp" ≡ off (has "rabbitmq_stream"))
      × (operator_value c "web_mqtt.tcp.listener"
          ≡ off (mutual_tls_enabled c && has "rabbitmq_web_mqtt"))
      × (operator_value c "web_stomp.tcp.listener"
          ≡ off (mutual_tls_enabled c && has "rabbitmq_web_stomp"))
unfolding user_keys tls_keys mutual_tls_settings lookup
operator_value-listeners c on =
    simp (on, settings)
      (ground arith, ground arith, ground arith, ground arith, ground arith, ground arith)

module _ {F : Type 0} (ini : IniPackage F) (get sourced : String → F → Option String)
    (laws : IniLaws ini get sourced) where
  -- With `IniLaws`, for a cluster with TLS: where `Update` computes the data of the config map, the
  -- user's file is the text of an ini file in which the plain listener of the server and that of each
  -- of MQTT, STOMP and streams have the value that the user's own configuration gives them, and where
  -- it gives none are turned off exactly where the cluster disables the plain listeners and has the
  -- plugin; those of the two web plugins then only where the cluster has mutual TLS besides.
  pub server_config_data-listeners :
      (c : RabbitmqCluster) (content content' : Dict String)
      → tls_enabled c ≡ true
      → server_config_data ini c content ≡ returned content'
      → (user : F) × (given : F) × (text : String) × (lookup "userDefinedConfiguration.conf"
            content'
          ≡ some text)
        × (ini.write_to user ≡ ok text)
        × (ini.load c.spec.rabbitmq.additional_config ≡ ok given)
        × (let off = λ (k : String) (b : Bool).
              or_else (get k given) (off_if (disable_non_tls_listeners c && b)) in
            let has = additional_plugin_enabled c in
            (get "listeners.tcp" user ≡ off "listeners.tcp" true)
            × (get "mqtt.listeners.tcp" user ≡ off "mqtt.listeners.tcp" (has "rabbitmq_mqtt"))
            × (get "stomp.listeners.tcp" user ≡ off "stomp.listeners.tcp" (has "rabbitmq_stomp"))
            × (get "stream.listeners.tcp" user ≡ off "stream.listeners.tcp" (has "rabbitmq_stream"))
            × (get "web_mqtt.tcp.listener" user
                ≡ off "web_mqtt.tcp.listener" (mutual_tls_enabled c && has "rabbitmq_web_mqtt"))
            × (get "web_stomp.tcp.listener" user
                ≡ off "web_stomp.tcp.listener" (mutual_tls_enabled c && has "rabbitmq_web_stomp")))
  server_config_data-listeners c content content' on e =
      let (_, user, given, _, text, _, _, _, found, wrote, loaded, value) =
        server_config_data-values ini get sourced laws c content content' e in
      let (v1, v2, v3, v4, v5, v6) = operator_value-listeners c on in
      let holds = λ (k : String) (o : Option String) (v : operator_value c k ≡ o).
        value k ∙ ap (or_else (get k given)) v in
      (
        user,
        given,
        text,
        found,
        wrote,
        loaded,
        (
          holds "listeners.tcp" _ v1,
          holds "mqtt.listeners.tcp" _ v2,
          holds "stomp.listeners.tcp" _ v3,
          holds "stream.listeners.tcp" _ v4,
          holds "web_mqtt.tcp.listener" _ v5,
          holds "web_stomp.tcp.listener" _ v6,
        ),
      )
