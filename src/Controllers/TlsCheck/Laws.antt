-- ===== src/Controllers/TlsCheck/Laws.antt =====
-- controllers/reconcile_tls.go: what holds of a cluster that passes, and of its secrets.
use pos_data_showcase.Prelude.{
  String, Bool, true, false, not, ◌&&◌, ◌≡◌, refl, ap, Bool-cases, inl, inr, ◌⊎◌,
}
use pos_data_showcase.Prelude.Dict.{Dict}
use pos_data_showcase.Kube.Error.{disable_non_tls_config}
use pos_data_showcase.Kube.Exec.{Result, ok, err, Exec, pure, fail, run_if, ◌>>◌}
use pos_data_showcase.Kube.Exec.Inversion.{>>=-eq-ok}
use pos_data_showcase.Status.{condition_false}
use pos_data_showcase.Cluster.{
  tls_enabled, secret_tls_enabled, mutual_tls_enabled, single_tls_secret, disable_non_tls_listeners,
}
use pos_data_showcase.Controllers.{Reconciler, Loop, warn, set_reconcile_success}
use pos_data_showcase.Controllers.TlsCheck.{
  has_key, has_key_pair, disable_non_tls_message, message, with_secret, read_secret, require,
  check_ca, check_ca_secret, check_keys, check_tls_secrets, report, check_and_report,
  refuse_configuration, reconcile_tls,
}

module _ {W : Type 0} (r : Reconciler W) where
  report-eq-ok :
      (x : Result (Unit {0})) (s s' : Loop W) → report r x s ≡ (ok tt, s') → (x ≡ ok tt) × (s ≡ s')
  report-eq-ok (ok u) s s' e = (refl, ap (λ p. p.1) e)
  report-eq-ok (err x) s s' e =
      let (u, s1, e1, e2) =
        >>=-eq-ok (set_reconcile_success r condition_false "TLSError" (message x)) (λ _. fail x) s
          e in
      absurd (cc (ap (λ p. p.0) e2))

  require-eq-ok :
      (b : Bool) (msg : String) (next : Exec (Loop W) (Unit {0})) (s s' : Loop W)
      → require r b msg next s ≡ (ok tt, s')
      → (b ≡ true) × (next s ≡ (ok tt, s'))
  require-eq-ok true msg next s s' e = (refl, e)
  require-eq-ok false msg next s s' e = absurd (cc (ap (λ p. p.0) e))

  with_secret-eq-ok :
      (failure : String) (found : Dict String → Exec (Loop W) (Unit {0})) (x : Result (Dict String))
      (s s' : Loop W)
      → with_secret r failure found x s ≡ (ok tt, s')
      → (entries : Dict String) × (x ≡ ok entries) × (found entries s ≡ (ok tt, s'))
  with_secret-eq-ok failure found (ok entries) s s' e = (entries, refl, e)
  with_secret-eq-ok failure found (err x) s s' e = absurd (cc (ap (λ p. p.0) e))

  -- A secret was found, and what was asked of it held.
  read_secret-eq-ok :
      (name failure : String) (found : Dict String → Exec (Loop W) (Unit {0})) (s s' : Loop W)
      → read_secret r name failure found s ≡ (ok tt, s')
      → (entries : Dict String) × ((r.get_secret s.cluster.namespace name s.world).0 ≡ ok entries)
        × (found entries (record s { world = (r.get_secret s.cluster.namespace name s.world).1 })
            ≡ (ok tt, s'))
  unfolding read_secret
  read_secret-eq-ok name failure found s s' e =
      let got = r.get_secret s.cluster.namespace name s.world in
      with_secret-eq-ok failure found got.0 (record s { world = got.1 }) s' e

  -- The TLS secret was read first, and has both keys.
  pub check_tls_secrets-HasKeys :
      (s s' : Loop W)
      → check_tls_secrets r s ≡ (ok tt, s')
      → (entries : Dict String) × ((r.get_secret s.cluster.namespace s.cluster.spec.tls.secret_name
            s.world).0
          ≡ ok entries)
        × (has_key_pair entries ≡ true)
        × (run_if (mutual_tls_enabled s.cluster) (check_ca_secret r entries) (record s {
          world = (r.get_secret s.cluster.namespace s.cluster.spec.tls.secret_name s.world).1;
        })
            ≡ (ok tt, s'))
  unfolding check_tls_secrets check_keys
  check_tls_secrets-HasKeys s s' e =
      let (entries, found, rest) =
        read_secret-eq-ok s.cluster.spec.tls.secret_name _ (check_keys r) s s' e in
      let (has, ca) = require-eq-ok (has_key_pair entries) _ _ _ s' rest in
      (entries, found, has, ca)

  -- The CA certificate is in the TLS secret, if that is the only one, or else in the other.
  pub check_ca_secret-HasCa :
      (entries : Dict String) (s s' : Loop W)
      → check_ca_secret r entries s ≡ (ok tt, s')
      → ((single_tls_secret s.cluster ≡ true) × (has_key "ca.crt" entries ≡ true))
        ⊎ ((ca : Dict String) × ((r.get_secret s.cluster.namespace s.cluster.spec.tls.ca_secret_name
                s.world).0
              ≡ ok ca)
            × (has_key "ca.crt" ca ≡ true))
  unfolding check_ca_secret check_ca
  check_ca_secret-HasCa entries s s' e = elim (Bool-cases (single_tls_secret s.cluster)) [
    | inl h ↦ inl (
      h,
      (require-eq-ok (has_key "ca.crt" entries) _ (pure tt) s s' (rw (h, check_ca_secret) at e)).0,
    )
    | inr h ↦
        let (ca, found, rest) =
          read_secret-eq-ok s.cluster.spec.tls.ca_secret_name _ (check_ca r) s s'
            (rw (h, check_ca_secret) at e) in
        inr (ca, found, (require-eq-ok (has_key "ca.crt" ca) _ (pure tt) _ s' rest).0)
  ]

  pub check_and_report-eq-ok :
      (s s' : Loop W) → check_and_report r s ≡ (ok tt, s') → check_tls_secrets r s ≡ (ok tt, s')
  unfolding check_and_report
  check_and_report-eq-ok s s' e =
      let (good, same) = report-eq-ok (check_tls_secrets r s).0 (check_tls_secrets r s).1 s' e in
      λ i. (good i, same i)

  -- A configuration that disables the plain listeners without TLS does not pass.
  pub reconcile_tls-allowed :
      (s s' : Loop W)
      → reconcile_tls r s ≡ (ok tt, s')
      → ((disable_non_tls_listeners s.cluster && not (tls_enabled s.cluster)) ≡ false)
        × (run_if (secret_tls_enabled s.cluster) (check_and_report r) s ≡ (ok tt, s'))
  unfolding reconcile_tls refuse_configuration
  reconcile_tls-allowed s s' e =
      elim (Bool-cases (disable_non_tls_listeners s.cluster && not (tls_enabled s.cluster))) [
        | inr h ↦ (h, rw (h, reconcile_tls) at e)
        | inl h ↦
            let (u, s1, e1, e2) =
              >>=-eq-ok
                (warn r "TLSError" disable_non_tls_message
                  >> set_reconcile_success r condition_false "TLSError" disable_non_tls_message)
                (λ _. fail disable_non_tls_config) s (rw (h, reconcile_tls) at e) in
            absurd (cc (ap (λ p. p.0) e2))
      ]
