-- ===== src/Cluster/Tls.antt =====
-- api/v1beta1/rabbitmqcluster_types.go: how the answers about TLS hang together.
use pos_data_showcase.Prelude.{◌≡◌, true, arith}
use pos_data_showcase.Cluster.{RabbitmqCluster, tls_enabled, mutual_tls_enabled}

-- Mutual TLS needs TLS.
pub mutual_tls-tls :
    (cluster : RabbitmqCluster) → mutual_tls_enabled cluster ≡ true → tls_enabled cluster ≡ true
unfolding mutual_tls_enabled tls_enabled
mutual_tls-tls cluster h = ground arith
