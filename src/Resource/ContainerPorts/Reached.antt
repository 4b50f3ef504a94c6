-- ===== src/Resource/ContainerPorts/Reached.antt =====
-- internal/resource/service.go against statefulset.go: what the service sends traffic to is a port of
-- the RabbitMQ container.
use pos_data_showcase.Prelude.{
  ℕ, ◌≡◌, not, sym, ◌∙◌, refl, inl, inr, String, Bool, true, false, ◌&&◌, ◌||◌, List, [], ◌∷◌, ◌++◌,
  some, arith, str_eq, ◌==◌, if◌then◌else◌, Bool-cases,
}
use mathlib.Core.Bool.{or_assoc, false-or, false≢true}
use pos_data_showcase.Prelude.Dict.{Dict, lookup, AllEntries, insert-AllEntries, lookup-AllEntries}
use pos_data_showcase.Kube.Pods.{ContainerPort}
use pos_data_showcase.Cluster.{
  RabbitmqCluster, disable_non_tls_listeners, tls_enabled, mutual_tls_enabled,
  additional_plugin_enabled, stream_needed,
}
use pos_data_showcase.Cluster.Tls.{mutual_tls-tls}
use pos_data_showcase.Kube.Services.{ServicePort}
use pos_data_showcase.Resource.ServicePorts.{
  tcp_port, put_port, put_port_if, plain_ports, tls_ports, web_tls_ports,
  generate_service_ports_map,
}
use pos_data_showcase.Resource.ContainerPorts.{
  append_port_if, append_plugin_tls_ports, update_container_ports_only_tls_listeners,
  container_port, plain_container_ports, update_container_ports,
}

-- A list of container ports has one of this name and number.
abbrev pub has_port : String → ℕ → List ContainerPort → Bool
has_port name port [] = false
has_port name port (p ∷ rest) =
    (str_eq p.name name && p.container_port == port) || has_port name port rest

pub has_port-append :
    (name : String) (port : ℕ) (xs ys : List ContainerPort)
    → has_port name port (xs ++ ys) ≡ (has_port name port xs || has_port name port ys)
has_port-append name port [] ys = refl
has_port-append name port (x ∷ xs) ys = ground (arith, has_port-append name port xs ys)

pub has_port-append_port_if :
    (name other : String) (port number : ℕ) (test : Bool) (ports : List ContainerPort)
    → has_port name port (append_port_if test other number ports)
      ≡ (has_port name port ports || (test && (str_eq other name && number == port)))
unfolding append_port_if
has_port-append_port_if name other port number test ports =
    ground (
      arith,
      has_port-append name port ports (record { name = other; container_port = number } ∷ []),
    )

pub ruleset port_laws = (has_port-append, has_port-append_port_if)

module _ (cluster : RabbitmqCluster) where
  -- The entry of the map is named by its key, and its target is a port of the container.
  abbrev pub IsReached : String → ServicePort → Type 0
  IsReached key p =
      (p.name ≡ key) × (has_port p.name p.target_port (update_container_ports cluster) ≡ true)

  -- The three TLS ports of the server, and those of the plugins.
  abbrev secure : List ContainerPort
  secure = append_plugin_tls_ports cluster (
      container_port "amqps" 5671
      ∷ container_port "management-tls" 15671
      ∷ container_port "prometheus-tls" 15691
      ∷ [])

  plain-update :
      (name : String) (port : ℕ)
      → disable_non_tls_listeners cluster ≡ false
      → has_port name port (plain_container_ports cluster) ≡ true
      → has_port name port (update_container_ports cluster) ≡ true
  unfolding update_container_ports append_plugin_tls_ports
  plain-update name port d h = rw d (elim (Bool-cases (tls_enabled cluster)) [
    | inl e ↦ rw e (simp (port_laws, h))
    | inr e ↦ rw e h
  ])

  plugins-split :
      (name : String) (port : ℕ) (ports : List ContainerPort)
      → has_port name port (append_plugin_tls_ports cluster ports)
        ≡ (has_port name port ports || has_port name port (append_plugin_tls_ports cluster []))
  unfolding append_plugin_tls_ports
  plugins-split name port ports = simp (port_laws, or_assoc, false-or, false≢true)

  secure-update :
      (name : String) (port : ℕ)
      → tls_enabled cluster ≡ true
      → has_port name port secure ≡ true
      → has_port name port (update_container_ports cluster) ≡ true
  unfolding update_container_ports update_container_ports_only_tls_listeners
  secure-update name port t h =
      let h' = rw plugins-split at h in
      elim (Bool-cases (disable_non_tls_listeners cluster)) [
        | inl e ↦ rw e (rw plugins-split (ground arith))
        | inr e ↦ rw (e, t) (simp (plugins-split, has_port-append) (ground arith))
      ]

  put_port-IsReached :
      (name : String) (port : ℕ) (app : String) (ports : Dict ServicePort)
      → has_port name port (update_container_ports cluster) ≡ true
      → AllEntries IsReached ports
      → AllEntries IsReached (put_port name port app ports)
  unfolding put_port
  put_port-IsReached name port app ports r h =
      insert-AllEntries IsReached name (tcp_port name port app) ports (refl, r) h

  put_port_if-IsReached :
      (test : Bool) (name : String) (port : ℕ) (app : String) (ports : Dict ServicePort)
      → (test ≡ true → has_port name port (update_container_ports cluster) ≡ true)
      → AllEntries IsReached ports
      → AllEntries IsReached (put_port_if test name port app ports)
  unfolding put_port_if
  put_port_if-IsReached true name port app ports r h =
      put_port-IsReached name port app ports (r refl) h
  put_port_if-IsReached false name port app ports r h = h

  -- Each port is one that the container has, by its literals or under a test that is true.
  plain_ports-IsReached :
      disable_non_tls_listeners cluster ≡ false → AllEntries IsReached (plain_ports cluster [])
  unfolding plain_ports plain_container_ports
  plain_ports-IsReached d =
      put_port_if-IsReached (stream_needed cluster) "stream" 5552 _ _
        (λ t. plain-update "stream" 5552 d (simp port_laws (ground arith)))
        (put_port_if-IsReached (additional_plugin_enabled cluster "rabbitmq_web_stomp") "web-stomp"
          15674 _ _ (λ t. plain-update "web-stomp" 15674 d (simp port_laws (ground arith)))
          (put_port_if-IsReached (additional_plugin_enabled cluster "rabbitmq_stomp") "stomp" 61613
            _ _ (λ t. plain-update "stomp" 61613 d (simp port_laws (ground arith)))
            (put_port_if-IsReached (additional_plugin_enabled cluster "rabbitmq_web_mqtt")
              "web-mqtt" 15675 _ _
              (λ t. plain-update "web-mqtt" 15675 d (simp port_laws (ground arith)))
              (put_port_if-IsReached (additional_plugin_enabled cluster "rabbitmq_mqtt") "mqtt" 1883
                _ _ (λ t. plain-update "mqtt" 1883 d (simp port_laws (ground arith)))
                (put_port-IsReached "management" 15672 _ _
                  (plain-update "management" 15672 d (simp port_laws))
                  (put_port-IsReached "amqp" 5672 _ _ (plain-update "amqp" 5672 d (simp port_laws))
                    (tt)))))))

  tls_ports-IsReached :
      (ports : Dict ServicePort)
      → tls_enabled cluster ≡ true
      → AllEntries IsReached ports
      → AllEntries IsReached (tls_ports cluster ports)
  unfolding tls_ports append_plugin_tls_ports
  tls_ports-IsReached ports e h =
      put_port-IsReached "prometheus-tls" 15691 _ _
        (secure-update "prometheus-tls" 15691 e (simp port_laws))
        (put_port_if-IsReached (stream_needed cluster) "streams" 5551 _ _
          (λ t. secure-update "streams" 5551 e (simp port_laws (ground arith)))
          (put_port_if-IsReached (additional_plugin_enabled cluster "rabbitmq_mqtt") "mqtts" 8883 _
            _ (λ t. secure-update "mqtts" 8883 e (simp port_laws (ground arith)))
            (put_port_if-IsReached (additional_plugin_enabled cluster "rabbitmq_stomp") "stomps"
              61614 _ _ (λ t. secure-update "stomps" 61614 e (simp port_laws (ground arith)))
              (put_port-IsReached "management-tls" 15671 _ _
                (secure-update "management-tls" 15671 e (simp port_laws))
                (put_port-IsReached "amqps" 5671 _ _ (secure-update "amqps" 5671 e (simp port_laws))
                  (h))))))

  web_tls_ports-IsReached :
      (ports : Dict ServicePort)
      → tls_enabled cluster ≡ true
      → mutual_tls_enabled cluster ≡ true
      → AllEntries IsReached ports
      → AllEntries IsReached (web_tls_ports cluster ports)
  unfolding web_tls_ports append_plugin_tls_ports
  web_tls_ports-IsReached ports e m h =
      put_port_if-IsReached (additional_plugin_enabled cluster "rabbitmq_web_mqtt") "web-mqtt-tls"
        15676 _ _ (λ t. secure-update "web-mqtt-tls" 15676 e (simp port_laws (ground arith)))
        (put_port_if-IsReached (additional_plugin_enabled cluster "rabbitmq_web_stomp")
          "web-stomp-tls" 15673 _ _
          (λ t. secure-update "web-stomp-tls" 15673 e (simp port_laws (ground arith))) (h))

  plain-IsReached :
      AllEntries IsReached
        (if disable_non_tls_listeners cluster then [] else plain_ports cluster [])
  plain-IsReached = elim (Bool-cases (disable_non_tls_listeners cluster)) [
    | inl d ↦ rw d tt
    | inr d ↦ rw d (plain_ports-IsReached d)
  ]

  -- Without TLS there is no mutual TLS, and the plain listeners are on.
  generate_plain-IsReached :
      disable_non_tls_listeners cluster ≡ false
      → tls_enabled cluster ≡ false
      → AllEntries IsReached (generate_service_ports_map cluster)
  unfolding generate_service_ports_map plain_container_ports
  generate_plain-IsReached d e = elim (Bool-cases (mutual_tls_enabled cluster)) [
    | inl m ↦ absurd (false≢true (sym e ∙ mutual_tls-tls cluster m))
    | inr m ↦
        rw (d, e, m)
          (put_port-IsReached "prometheus" 15692 _ _
            (plain-update "prometheus" 15692 d (simp port_laws)) (plain_ports-IsReached d))
  ]

  generate_secure-IsReached :
      tls_enabled cluster ≡ true → AllEntries IsReached (generate_service_ports_map cluster)
  unfolding generate_service_ports_map
  generate_secure-IsReached e =
      let secured = tls_ports-IsReached _ e plain-IsReached in
      elim (Bool-cases (mutual_tls_enabled cluster)) [
        | inl m ↦ rw (e, m) (web_tls_ports-IsReached _ e m secured)
        | inr m ↦ rw (e, m) secured
      ]

  pub generate-IsReached :
      (disable_non_tls_listeners cluster && not (tls_enabled cluster)) ≡ false
      → AllEntries IsReached (generate_service_ports_map cluster)
  generate-IsReached ok = elim (Bool-cases (tls_enabled cluster)) [
    | inl e ↦ generate_secure-IsReached e
    | inr e ↦ generate_plain-IsReached (ground arith) e
  ]

-- Every port of the client service has the name of its key and sends traffic to a port that the
-- RabbitMQ container declares under the same name and number, whatever plugins and kinds of TLS are on.
-- This is said of a cluster that does not disable the plain listeners without TLS.
pub service_ports-IsReached :
    (cluster : RabbitmqCluster) (key : String) (p : ServicePort)
    → (disable_non_tls_listeners cluster && not (tls_enabled cluster)) ≡ false
    → lookup key (generate_service_ports_map cluster) ≡ some p
    → (p.name ≡ key) × (has_port p.name p.target_port (update_container_ports cluster) ≡ true)
service_ports-IsReached cluster key p ok e =
    lookup-AllEntries (IsReached cluster) key (generate_service_ports_map cluster)
      (generate-IsReached cluster ok) e
