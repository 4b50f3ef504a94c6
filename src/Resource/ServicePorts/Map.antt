-- ===== src/Resource/ServicePorts/Map.antt =====
-- internal/resource/service.go: what holds of the map of ports for every cluster.
use pos_data_showcase.Prelude.{ℕ, ◌≡◌, refl, String, Bool, true, false, [], if◌then◌else◌}
use pos_data_showcase.Prelude.Dict.{
  Dict, NodupKeys, insert-NodupKeys, AllEntries, insert-AllEntries,
}
use pos_data_showcase.Cluster.{
  RabbitmqCluster, disable_non_tls_listeners, tls_enabled, mutual_tls_enabled,
}
use pos_data_showcase.Kube.Services.{ServicePort}
use pos_data_showcase.Resource.ServicePorts.{
  tcp_port, put_port, put_port_if, plain_ports, tls_ports, web_tls_ports,
  generate_service_ports_map,
}

-- What holds of the empty map and is kept by each `put_port` holds of the map that is generated.
module _ {ℓ} (Q : Dict ServicePort → Type ℓ) (empty : Q [])
    (put : (name : String) (port : ℕ) (app : String) (ports : Dict ServicePort)
      → Q ports
      → Q (put_port name port app ports)) where
  if-Q : (test : Bool) (xs ys : Dict ServicePort) → Q xs → Q ys → Q (if test then xs else ys)
  if-Q true xs ys hx hy = hx
  if-Q false xs ys hx hy = hy

  put_if :
      (test : Bool) (name : String) (port : ℕ) (app : String) (ports : Dict ServicePort)
      → Q ports
      → Q (put_port_if test name port app ports)
  unfolding put_port_if
  put_if test name port app ports h = if-Q test _ _ (put name port app ports h) h

  plain-Q :
      (cluster : RabbitmqCluster) (ports : Dict ServicePort)
      → Q ports
      → Q (plain_ports cluster ports)
  unfolding plain_ports
  plain-Q cluster ports h = put_if _ _ _ _ _ (
      put_if _ _ _ _ _
        (put_if _ _ _ _ _ (put_if _ _ _ _ _ (put_if _ _ _ _ _ (put _ _ _ _ (put _ _ _ _ h))))))

  tls-Q :
      (cluster : RabbitmqCluster) (ports : Dict ServicePort) → Q ports → Q (tls_ports cluster ports)
  unfolding tls_ports
  tls-Q cluster ports h =
      put _ _ _ _
        (put_if _ _ _ _ _ (put_if _ _ _ _ _ (put_if _ _ _ _ _ (put _ _ _ _ (put _ _ _ _ h)))))

  web-Q :
      (cluster : RabbitmqCluster) (ports : Dict ServicePort)
      → Q ports
      → Q (web_tls_ports cluster ports)
  unfolding web_tls_ports
  web-Q cluster ports h = put_if _ _ _ _ _ (put_if _ _ _ _ _ h)

  pub generate_induction : (cluster : RabbitmqCluster) → Q (generate_service_ports_map cluster)
  unfolding generate_service_ports_map
  generate_induction cluster =
      let plain = if-Q (disable_non_tls_listeners cluster) [] _ empty (plain-Q cluster [] empty) in
      let secured =
        if-Q (tls_enabled cluster) _ _ (tls-Q cluster _ plain) (put "prometheus" 15692 _ _ plain) in
      if-Q (mutual_tls_enabled cluster) _ _ (web-Q cluster _ secured) secured

-- Each port is named by its key.
abbrev pub IsKeyed : Dict ServicePort → Type 0
IsKeyed = AllEntries (λ key p. p.name ≡ key)

pub generate-IsKeyed : (cluster : RabbitmqCluster) → IsKeyed (generate_service_ports_map cluster)
unfolding put_port
generate-IsKeyed = generate_induction IsKeyed tt (λ name port app ports h.
    insert-AllEntries (λ key p. p.name ≡ key) name (tcp_port name port app) ports refl h)

pub generate-NodupKeys :
    (cluster : RabbitmqCluster) → NodupKeys (generate_service_ports_map cluster)
unfolding put_port
generate-NodupKeys =
    generate_induction NodupKeys tt
      (λ name port app ports h. insert-NodupKeys name (tcp_port name port app) ports h)
