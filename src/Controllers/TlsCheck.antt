-- ===== src/Controllers/TlsCheck.antt =====
-- controllers/reconcile_tls.go: what is asked of the TLS settings and of the secrets that they name.
pub mod Laws
pub mod Passed
use pos_data_showcase.Prelude.{
  String, ◌<>◌, Bool, true, false, not, ◌&&◌, ◌||◌, Option, none, some, if◌then◌else◌,
}
use pos_data_showcase.Prelude.Dict.{Dict, lookup}
use pos_data_showcase.Kube.Error.{Error, api, bad_request, disable_non_tls_config}
use pos_data_showcase.Kube.Exec.{Result, ok, err, Exec, pure, fail, attempt, run_if, ◌>>=◌, ◌>>◌}
use pos_data_showcase.Status.{condition_false}
use pos_data_showcase.Cluster.{
  RabbitmqCluster, tls_enabled, secret_tls_enabled, mutual_tls_enabled, single_tls_secret,
  disable_non_tls_listeners,
}
use pos_data_showcase.Controllers.{Reconciler, Loop, outside, warn, set_reconcile_success}

-- `_, has := secret.Data[key]`
abbrev pub has_key : String → Dict String → Bool
has_key key entries = elim (lookup key entries) [ none ↦ false | some _ ↦ true ]

unfoldable pub has_key_pair : Dict String → Bool
has_key_pair entries = has_key "tls.crt" entries && has_key "tls.key" entries

abbrev pub disable_non_tls_message : String
disable_non_tls_message = "TLS must be enabled if disableNonTLSListeners is set to true"

-- `err.Error()` of the errors that this file makes or passes on.
abbrev pub message : Error → String
message (api _ msg) = msg
message disable_non_tls_config = disable_non_tls_message
message (Error.plain msg) = msg
message (Error.wrapped msg e) = msg <> (": " <> message e)

module _ {W : Type 0} (r : Reconciler W) where
  -- `event(…); return err`
  abbrev pub refuse : {A : Type 0} → String → Error → Exec (Loop W) A
  refuse msg e = do warn r "TLSError" msg; fail e

  -- A read of a secret, with the event where it fails: `found` goes on with its entries.
  abbrev pub with_secret :
      String
      → (Dict String → Exec (Loop W) (Unit {0}))
      → Result (Dict String)
      → Exec (Loop W) (Unit {0})
  with_secret failure found (ok entries) = found entries
  with_secret failure found (err e) = refuse (failure <> message e) e

  unfoldable pub read_secret :
      String → String → (Dict String → Exec (Loop W) (Unit {0})) → Exec (Loop W) (Unit {0})
  read_secret name failure found s =
      (do
        entries ← attempt (outside (r.get_secret s.cluster.namespace name))
        with_secret failure found entries)
        s

  -- `if !has { … return NewBadRequest(…) }`
  abbrev pub require : Bool → String → Exec (Loop W) (Unit {0}) → Exec (Loop W) (Unit {0})
  require true msg next = next
  require false msg next = refuse msg (api bad_request msg)

  unfoldable pub check_ca : Dict String → Exec (Loop W) (Unit {0})
  check_ca entries s =
      require (has_key "ca.crt" entries)
        ("TLS secret "
          <> (s.cluster.spec.tls.ca_secret_name
              <> (" in namespace " <> (s.cluster.namespace <> " does not have the field ca.crt"))))
        (pure tt) s

  unfoldable pub check_ca_secret : Dict String → Exec (Loop W) (Unit {0})
  check_ca_secret entries s = elim (single_tls_secret s.cluster) [
    | true ↦ check_ca entries s
    | false ↦
        read_secret s.cluster.spec.tls.ca_secret_name
          ("Failed to get CA certificate secret "
            <> (s.cluster.spec.tls.ca_secret_name
                <> (" in namespace " <> (s.cluster.namespace <> ": "))))
          check_ca s
  ]

  unfoldable pub check_keys : Dict String → Exec (Loop W) (Unit {0})
  check_keys entries s =
      require (has_key_pair entries)
        ("TLS secret "
          <> (s.cluster.spec.tls.secret_name
              <> (" in namespace "
                  <> (s.cluster.namespace <> " does not have the fields tls.crt and tls.key"))))
        (run_if (mutual_tls_enabled s.cluster) (check_ca_secret entries)) s

  unfoldable pub check_tls_secrets : Exec (Loop W) (Unit {0})
  check_tls_secrets s =
      read_secret s.cluster.spec.tls.secret_name
        ("Failed to get TLS secret "
          <> (s.cluster.spec.tls.secret_name
              <> (" in namespace " <> (s.cluster.namespace <> ": "))))
        check_keys s

  -- `if err != nil { r.setReconcileSuccess(…, err.Error()); return err }`
  abbrev pub report : Result (Unit {0}) → Exec (Loop W) (Unit {0})
  report (ok _) = pure tt
  report (err e) = do set_reconcile_success r condition_false "TLSError" (message e); fail e

  unfoldable pub check_and_report : Exec (Loop W) (Unit {0})
  check_and_report = do found ← attempt check_tls_secrets; report found

  unfoldable pub refuse_configuration : Exec (Loop W) (Unit {0})
  refuse_configuration = do
    warn r "TLSError" disable_non_tls_message
    set_reconcile_success r condition_false "TLSError" disable_non_tls_message
    fail disable_non_tls_config

  unfoldable pub reconcile_tls : Exec (Loop W) (Unit {0})
  reconcile_tls s = elim (disable_non_tls_listeners s.cluster && not (tls_enabled s.cluster)) [
    | true ↦ refuse_configuration s
    | false ↦ run_if (secret_tls_enabled s.cluster) check_and_report s
  ]
