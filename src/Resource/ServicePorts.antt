-- ===== src/Resource/ServicePorts.antt =====
-- internal/resource/service.go: the ports of the client service.
pub mod Map
pub mod Update
use pos_data_showcase.Prelude.{
  ℕ, String, Bool, not, Option, none, some, List, [], ◌∷◌, ◌++◌, map, if◌then◌else◌, ◌||◌, str_eq,
}
use pos_data_showcase.Prelude.Dict.{Dict, lookup, insert, erase}
use pos_data_showcase.Kube.Services.{ServicePort}
use pos_data_showcase.Cluster.{
  RabbitmqCluster, disable_non_tls_listeners, tls_enabled, mutual_tls_enabled,
  additional_plugin_enabled, stream_needed,
}

-- The literals of `generateServicePortsMap`: each has the protocol TCP, one number as its port and
-- its target port, and no node port.
abbrev pub tcp_port : String → ℕ → String → ServicePort
tcp_port name port app_protocol = record {
  name = name;
  protocol = "TCP";
  port = port;
  target_port = port;
  node_port = 0;
  app_protocol = app_protocol;
}

-- `servicePortsMap[name] = ServicePort{Name: name, …}`
unfoldable pub put_port : String → ℕ → String → Dict ServicePort → Dict ServicePort
put_port name port app_protocol ports = insert name (tcp_port name port app_protocol) ports

unfoldable pub put_port_if : Bool → String → ℕ → String → Dict ServicePort → Dict ServicePort
put_port_if test name port app_protocol ports =
    if test then put_port name port app_protocol ports else ports

-- The ports without TLS.
unfoldable pub plain_ports : RabbitmqCluster → Dict ServicePort → Dict ServicePort
plain_ports cluster ports =
    let with_amqp = put_port "amqp" 5672 "amqp" ports in
    let with_management = put_port "management" 15672 "http" with_amqp in
    let with_mqtt =
      put_port_if (additional_plugin_enabled cluster "rabbitmq_mqtt") "mqtt" 1883 "mqtt"
        with_management in
    let with_web_mqtt =
      put_port_if (additional_plugin_enabled cluster "rabbitmq_web_mqtt") "web-mqtt" 15675 "http"
        with_mqtt in
    let with_stomp =
      put_port_if (additional_plugin_enabled cluster "rabbitmq_stomp") "stomp" 61613
        "stomp.github.io/stomp" with_web_mqtt in
    let with_web_stomp =
      put_port_if (additional_plugin_enabled cluster "rabbitmq_web_stomp") "web-stomp" 15674 "http"
        with_stomp in
    put_port_if (stream_needed cluster) "stream" 5552 "rabbitmq.com/stream" with_web_stomp

-- The ports with TLS.
unfoldable pub tls_ports : RabbitmqCluster → Dict ServicePort → Dict ServicePort
tls_ports cluster ports =
    let with_amqps = put_port "amqps" 5671 "amqps" ports in
    let with_management_tls = put_port "management-tls" 15671 "https" with_amqps in
    let with_stomps =
      put_port_if (additional_plugin_enabled cluster "rabbitmq_stomp") "stomps" 61614
        "stomp.github.io/stomp-tls" with_management_tls in
    let with_mqtts =
      put_port_if (additional_plugin_enabled cluster "rabbitmq_mqtt") "mqtts" 8883 "mqtts"
        with_stomps in
    let with_streams =
      put_port_if (stream_needed cluster) "streams" 5551 "rabbitmq.com/stream-tls" with_mqtts in
    put_port "prometheus-tls" 15691 "prometheus.io/metric-tls" with_streams

-- The ports of the web plugins with mutual TLS.
unfoldable pub web_tls_ports : RabbitmqCluster → Dict ServicePort → Dict ServicePort
web_tls_ports cluster ports =
    let with_web_stomp_tls =
      put_port_if (additional_plugin_enabled cluster "rabbitmq_web_stomp") "web-stomp-tls" 15673
        "https" ports in
    put_port_if (additional_plugin_enabled cluster "rabbitmq_web_mqtt") "web-mqtt-tls" 15676 "https"
      with_web_stomp_tls

unfoldable pub generate_service_ports_map : RabbitmqCluster → Dict ServicePort
generate_service_ports_map cluster =
    let plain = if disable_non_tls_listeners cluster then [] else plain_ports cluster [] in
    let secured =
      if tls_enabled cluster
      then tls_ports cluster plain
      else put_port "prometheus" 15692 "prometheus.io/metrics" plain in
    if mutual_tls_enabled cluster then web_tls_ports cluster secured else secured

-- The first loop of `updatePorts`: a port that the service has keeps its place and its node port,
-- and leaves the map; `updated` is `updatedServicePorts`.
unfoldable pub keep_ports :
    List ServicePort → Dict ServicePort → List ServicePort → Dict ServicePort × List ServicePort
keep_ports [] ports updated = (ports, updated)
keep_ports (p ∷ rest) ports updated =
    let without = keep_ports rest ports updated in
    elim (lookup p.name ports) [
      | none ↦ without
      | some value ↦
          keep_ports rest (erase p.name ports)
            (updated ++ record value { node_port = p.node_port } ∷ [])
    ]

-- The values of a map, in the order of a `range` loop.
unfoldable pub values {ℓ} : {V : Type ℓ} → Dict V → List V
values [] = []
values ((k, v) ∷ m) = v ∷ values m

unfoldable pub update_ports : RabbitmqCluster → List ServicePort → List ServicePort
update_ports cluster service_ports =
    let (left, updated) = keep_ports service_ports (generate_service_ports_map cluster) [] in
    updated ++ values left

-- The loop of `Update` for a service that is reached in the cluster only.
unfoldable pub clear_node_ports : List ServicePort → List ServicePort
clear_node_ports [] = []
clear_node_ports (p ∷ rest) = record p { node_port = 0 } ∷ clear_node_ports rest

-- What `ServiceBuilder.Update` leaves in `service.Spec.Ports`, before an override.
unfoldable pub service_spec_ports : RabbitmqCluster → List ServicePort → List ServicePort
service_spec_ports cluster existing =
    let ports = update_ports cluster existing in
    let service_type = cluster.spec.service.type in
    if str_eq service_type "ClusterIP" || str_eq service_type ""
    then clear_node_ports ports
    else ports
