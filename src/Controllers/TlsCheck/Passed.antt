-- ===== src/Controllers/TlsCheck/Passed.antt =====
-- controllers/reconcile_tls.go: what the steps after `reconcileTLS` rely on.
use pos_data_showcase.Prelude.{String, true, false, ◌≡◌, inl, inr, arith, ◌⊎◌, some}
use pos_data_showcase.Prelude.Dict.{Dict, lookup}
use pos_data_showcase.Kube.Error.{disable_non_tls_config}
use pos_data_showcase.Kube.Exec.{ok, err}
use pos_data_showcase.Cluster.{
  tls_enabled, secret_tls_enabled, mutual_tls_enabled, single_tls_secret, disable_non_tls_listeners,
}
use pos_data_showcase.Kube.Services.{ServicePort}
use pos_data_showcase.Resource.ServicePorts.{generate_service_ports_map}
use pos_data_showcase.Resource.ContainerPorts.{update_container_ports}
use pos_data_showcase.Resource.ContainerPorts.Reached.{has_port, service_ports-IsReached}
use pos_data_showcase.Controllers.{Reconciler, Loop, set_reconcile_success, put_condition}
use pos_data_showcase.Controllers.TlsCheck.{
  has_key, has_key_pair, check_tls_secrets, reconcile_tls, refuse_configuration,
}
use pos_data_showcase.Controllers.TlsCheck.Laws.{
  check_tls_secrets-HasKeys, check_ca_secret-HasCa, check_and_report-eq-ok, reconcile_tls-allowed,
}

module _ {W : Type 0} (r : Reconciler W) (s s' : Loop W)
    (passed : reconcile_tls r s ≡ (ok tt, s')) where
  -- A cluster that passes `reconcileTLS` gets a service of which every port has the name of its key
  -- and sends to a port that the RabbitMQ container declares under the same name and number.
  pub reconcile_tls-service_ports :
      (key : String) (p : ServicePort)
      → lookup key (generate_service_ports_map s.cluster) ≡ some p
      → (p.name ≡ key) × (has_port p.name p.target_port (update_container_ports s.cluster) ≡ true)
  reconcile_tls-service_ports key p e =
      service_ports-IsReached s.cluster key p (reconcile_tls-allowed r s s' passed).0 e

  secrets_checked : secret_tls_enabled s.cluster ≡ true → check_tls_secrets r s ≡ (ok tt, s')
  secrets_checked on =
      check_and_report-eq-ok r s s' (rw on at (reconcile_tls-allowed r s s' passed).1)

  -- Where a cluster that names a TLS secret passes `reconcileTLS`, that secret was there with a
  -- certificate and a key.
  pub reconcile_tls-HasKeys :
      secret_tls_enabled s.cluster ≡ true
      → (entries : Dict String) × ((r.get_secret s.cluster.namespace s.cluster.spec.tls.secret_name
            s.world).0
          ≡ ok entries)
        × (has_key "tls.crt" entries ≡ true)
        × (has_key "tls.key" entries ≡ true)
  unfolding has_key_pair
  reconcile_tls-HasKeys on =
      let (entries, found, has, rest) = check_tls_secrets-HasKeys r s s' (secrets_checked on) in
      (entries, found, ground arith, ground arith)

  -- Where such a cluster has mutual TLS, a CA certificate was there as well: in the TLS secret, if the
  -- cluster names the same secret for both, and in the second secret otherwise.
  reconcile_tls-HasCa :
      secret_tls_enabled s.cluster ≡ true
      → mutual_tls_enabled s.cluster ≡ true
      → let read = r.get_secret s.cluster.namespace s.cluster.spec.tls.secret_name s.world in
        ((single_tls_secret s.cluster ≡ true)
          × (entries : Dict String) × (read.0 ≡ ok entries)
          × (has_key "ca.crt" entries ≡ true))
        ⊎ ((ca : Dict String) × ((r.get_secret s.cluster.namespace s.cluster.spec.tls.ca_secret_name
                read.1).0
              ≡ ok ca)
            × (has_key "ca.crt" ca ≡ true))
  reconcile_tls-HasCa on both =
      let (entries, found, has, rest) = check_tls_secrets-HasKeys r s s' (secrets_checked on) in
      elim (check_ca_secret-HasCa r entries _ s' (rw both at rest)) [
        | inl (single, ca) ↦ inl (single, entries, found, ca)
        | inr other ↦ inr other
      ]

-- A cluster that disables the plain listeners without TLS is refused, with the one error for which
-- `Reconcile` does not queue the request again, whatever the API answers.
reconcile_tls-refused :
    {W : Type 0} (r : Reconciler W) (s : Loop W)
    → disable_non_tls_listeners s.cluster ≡ true
    → tls_enabled s.cluster ≡ false
    → (reconcile_tls r s).0 ≡ err disable_non_tls_config
unfolding reconcile_tls refuse_configuration set_reconcile_success put_condition
reconcile_tls-refused r s off no_tls = rw (off, no_tls, reconcile_tls)
