-- ===== src/Resource/DefaultUser/Unreachable.antt =====
-- internal/resource/default_user_secret.go against service.go: the secret asks for the name of a TLS
-- secret, where the service asks whether TLS is on at all.
use pos_data_showcase.Prelude.{
  ℕ, ◌≡◌, ◌≢◌, inl, inr, String, Bool, true, false, some, [], arith, Bool-cases,
}
use pos_data_showcase.Prelude.Dict.{Dict, lookup, AllEntries, insert-AllEntries, lookup-AllEntries}
use pos_data_showcase.Cluster.{
  RabbitmqCluster, disable_non_tls_listeners, tls_enabled, mutual_tls_enabled, secret_tls_enabled,
  vault_tls_enabled,
}
use pos_data_showcase.Kube.Services.{ServicePort}
use pos_data_showcase.Resource.ServicePorts.{
  tcp_port, put_port, put_port_if, tls_ports, web_tls_ports, generate_service_ports_map,
}
use pos_data_showcase.Resource.DefaultUser.{update_secret_ports}
use pos_data_showcase.Resource.DefaultUser.Ports.{update_secret_ports_lem}

abbrev Secured : Dict ServicePort → Type 0
Secured = AllEntries (λ _ p. p.port ≢ 5672)

put-Secured :
    (name : String) (port : ℕ) (app : String) (ports : Dict ServicePort)
    → port ≢ 5672
    → Secured ports
    → Secured (put_port name port app ports)
unfolding put_port
put-Secured name port app ports d h =
    insert-AllEntries (λ _ p. p.port ≢ 5672) name (tcp_port name port app) ports d h

put_if-Secured :
    (test : Bool) (name : String) (port : ℕ) (app : String) (ports : Dict ServicePort)
    → port ≢ 5672
    → Secured ports
    → Secured (put_port_if test name port app ports)
unfolding put_port_if
put_if-Secured true name port app ports d h = put-Secured name port app ports d h
put_if-Secured false name port app ports d h = h

tls-Secured : (cluster : RabbitmqCluster) → Secured (tls_ports cluster [])
unfolding tls_ports
tls-Secured cluster = put-Secured _ 15691 _ _ (omega arith) (
    put_if-Secured _ _ 5551 _ _ (omega arith) (
      put_if-Secured _ _ 8883 _ _ (omega arith) (
        put_if-Secured _ _ 61614 _ _ (omega arith)
          (put-Secured _ 15671 _ _ (omega arith) (put-Secured _ 5671 _ _ (omega arith) tt)))))

web-Secured :
    (cluster : RabbitmqCluster) (ports : Dict ServicePort)
    → Secured ports
    → Secured (web_tls_ports cluster ports)
unfolding web_tls_ports
web-Secured cluster ports h =
    put_if-Secured _ _ 15676 _ _ (omega arith) (put_if-Secured _ _ 15673 _ _ (omega arith) h)

generate-Secured :
    (cluster : RabbitmqCluster)
    → disable_non_tls_listeners cluster ≡ true
    → tls_enabled cluster ≡ true
    → Secured (generate_service_ports_map cluster)
unfolding generate_service_ports_map
generate-Secured cluster d e = elim (Bool-cases (mutual_tls_enabled cluster)) [
  | inl m ↦ rw (d, e, m) (web-Secured cluster _ (tls-Secured cluster))
  | inr m ↦ rw (d, e, m) (tls-Secured cluster)
]

-- Where the certificates come from Vault, no TLS secret is named and the plain listeners are disabled,
-- the secret tells its clients to use port 5672, and no port of the service is 5672.
pub default_user_port_unreachable :
    (cluster : RabbitmqCluster) (secret : Dict String) (key : String) (p : ServicePort)
    → vault_tls_enabled cluster ≡ true
    → secret_tls_enabled cluster ≡ false
    → disable_non_tls_listeners cluster ≡ true
    → lookup key (generate_service_ports_map cluster) ≡ some p
    → (lookup "port" (update_secret_ports cluster secret) ≡ some "5672") × (p.port ≢ 5672)
default_user_port_unreachable cluster secret key p v s d found = (
  rw s at ((update_secret_ports_lem cluster secret).0),
  lookup-AllEntries (λ _ p. p.port ≢ 5672) key (generate_service_ports_map cluster)
      (generate-Secured cluster d (unfold tls_enabled in rw (s, v))) found,
)
