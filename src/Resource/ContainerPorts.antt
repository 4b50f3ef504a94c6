-- ===== src/Resource/ContainerPorts.antt =====
-- internal/resource/statefulset.go: the ports of the RabbitMQ container.
pub mod Reached
pub mod Probe
use pos_data_showcase.Prelude.{ℕ, String, Bool, List, [], ◌∷◌, ◌++◌, ◌&&◌, if◌then◌else◌}
use pos_data_showcase.Kube.Pods.{ContainerPort}
use pos_data_showcase.Cluster.{
  RabbitmqCluster, disable_non_tls_listeners, tls_enabled, mutual_tls_enabled,
  additional_plugin_enabled, stream_needed,
}

abbrev pub container_port : String → ℕ → ContainerPort
container_port name port = record { name = name; container_port = port }

-- `if test { ports = append(ports, ContainerPort{…}) }`
unfoldable pub append_port_if : Bool → String → ℕ → List ContainerPort → List ContainerPort
append_port_if test name port ports = if test then ports ++ container_port name port ∷ [] else ports

-- The TLS ports of the plugins, which both functions add in the same way.
unfoldable pub append_plugin_tls_ports : RabbitmqCluster → List ContainerPort → List ContainerPort
append_plugin_tls_ports cluster ports =
    let with_mqtts =
      append_port_if (additional_plugin_enabled cluster "rabbitmq_mqtt") "mqtts" 8883 ports in
    let with_stomps =
      append_port_if (additional_plugin_enabled cluster "rabbitmq_stomp") "stomps" 61614
        with_mqtts in
    let with_streams = append_port_if (stream_needed cluster) "streams" 5551 with_stomps in
    let with_web_mqtt_tls =
      append_port_if
        (mutual_tls_enabled cluster && additional_plugin_enabled cluster "rabbitmq_web_mqtt")
        "web-mqtt-tls" 15676 with_streams in
    append_port_if
      (mutual_tls_enabled cluster && additional_plugin_enabled cluster "rabbitmq_web_stomp")
      "web-stomp-tls" 15673 with_web_mqtt_tls

unfoldable pub update_container_ports_only_tls_listeners : RabbitmqCluster → List ContainerPort
update_container_ports_only_tls_listeners cluster = append_plugin_tls_ports cluster (
    container_port "epmd" 4369
    ∷ container_port "amqps" 5671
    ∷ container_port "management-tls" 15671
    ∷ container_port "prometheus-tls" 15691
    ∷ [])

unfoldable pub plain_container_ports : RabbitmqCluster → List ContainerPort
plain_container_ports cluster =
    let ports =
      container_port "epmd" 4369
      ∷ container_port "amqp" 5672
      ∷ container_port "management" 15672
      ∷ container_port "prometheus" 15692
      ∷ [] in
    let with_mqtt =
      append_port_if (additional_plugin_enabled cluster "rabbitmq_mqtt") "mqtt" 1883 ports in
    let with_web_mqtt =
      append_port_if (additional_plugin_enabled cluster "rabbitmq_web_mqtt") "web-mqtt" 15675
        with_mqtt in
    let with_stomp =
      append_port_if (additional_plugin_enabled cluster "rabbitmq_stomp") "stomp" 61613
        with_web_mqtt in
    let with_web_stomp =
      append_port_if (additional_plugin_enabled cluster "rabbitmq_web_stomp") "web-stomp" 15674
        with_stomp in
    append_port_if (stream_needed cluster) "stream" 5552 with_web_stomp

unfoldable pub update_container_ports : RabbitmqCluster → List ContainerPort
update_container_ports cluster =
    let ports = plain_container_ports cluster in
    let with_tls = append_plugin_tls_ports cluster (
      ports
      ++ (container_port "amqps" 5671
          ∷ container_port "management-tls" 15671
          ∷ container_port "prometheus-tls" 15691
          ∷ [])) in
    if disable_non_tls_listeners cluster
    then update_container_ports_only_tls_listeners cluster
    else if tls_enabled cluster
    then with_tls
    else ports
