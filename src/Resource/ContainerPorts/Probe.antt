-- ===== src/Resource/ContainerPorts/Probe.antt =====
-- internal/resource/statefulset.go: the port of the readiness probe is one of the container.
use pos_data_showcase.Prelude.{ℕ, true, ◌≡◌, if◌then◌else◌, Bool-cases, inl, inr}
use pos_data_showcase.Cluster.{RabbitmqCluster, disable_non_tls_listeners, tls_enabled}
use pos_data_showcase.Resource.ContainerPorts.{
  append_plugin_tls_ports, update_container_ports, update_container_ports_only_tls_listeners,
  plain_container_ports,
}
use pos_data_showcase.Resource.ContainerPorts.Reached.{has_port, port_laws}
use pos_data_showcase.Resource.Containers.{readiness_probe_port}

-- The number under which the port that the probe names is declared.
abbrev pub probe_number : RabbitmqCluster → ℕ
probe_number c = if disable_non_tls_listeners c then 5671 else 5672

pub probe_declared :
    (c : RabbitmqCluster)
    → has_port (readiness_probe_port c) (probe_number c) (update_container_ports c) ≡ true
unfolding readiness_probe_port update_container_ports plain_container_ports append_plugin_tls_ports
    update_container_ports_only_tls_listeners
probe_declared c = elim (Bool-cases (disable_non_tls_listeners c)) [
  | inl d ↦ rw d (simp port_laws)
  | inr d ↦ elim (Bool-cases (tls_enabled c)) [
    | inl e ↦ rw (d, e) (simp port_laws)
    | inr e ↦ rw (d, e) (simp port_laws)
  ]
]
