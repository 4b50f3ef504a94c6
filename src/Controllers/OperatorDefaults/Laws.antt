-- ===== src/Controllers/OperatorDefaults/Laws.antt =====
-- controllers/reconcile_operator_defaults.go: what holds after the defaults were written.

use mathlib.Core.Option
use pos_data_showcase.Prelude.{
  ℕ, String, Bool, true, false, Option, none, some, List, ◌≡◌, refl, sym, ap, ◌∙◌, Bool-cases,
  Option-cases, str_eq, inl, inr, if◌then◌else◌,
}
use pos_data_showcase.Prelude.Strings.{split}
use pos_data_showcase.Kube.Exec.{Result, ok, err, Exec, pure, ◌>>◌}
use pos_data_showcase.Kube.Exec.Inversion.{>>=-eq-ok}
use pos_data_showcase.Cluster.{
  RabbitmqCluster, RabbitmqClusterSpec, VaultSpec, uses_default_user_updater_image,
}
use pos_data_showcase.Controllers.{Reconciler, Loop, requeue_after, store, stored}
use pos_data_showcase.Controllers.OperatorDefaults.{
  update_rabbitmq_cluster, write_default, default_if, reconcile_operator_defaults, image_missing,
  pull_secrets_missing, with_image, with_image_pull_secrets, with_updater_image, append_references,
}

-- The server stores the specification that it is sent.
abbrev pub StoresSpec : {W : Type 0} → Reconciler W → Type 0
StoresSpec {W} r =
    (c c' : RabbitmqCluster) (w : W) → (r.update_cluster c w).0 ≡ ok c' → c'.spec ≡ c.spec

-- A field that the step leaves alone.
unaffected :
    {A : Type 0} (f : RabbitmqClusterSpec → A) (b : Bool) (x y z : RabbitmqClusterSpec)
    → z ≡ (if b then x else y)
    → f x ≡ f y
    → f z ≡ f y
unaffected f true x y z e h = ap f e ∙ h
unaffected f false x y z e h = ap f e

image_after :
    (image : String) (c : RabbitmqCluster)
    → (if image_missing c then (with_image image c).spec else c.spec).image
      ≡ (if str_eq c.spec.image "" then image else c.spec.image)
image_after image c = elim (Bool-cases (str_eq c.spec.image "")) [ inl h ↦ rw h | inr h ↦ rw h ]

-- What the list of pull secrets becomes.
abbrev pub or_default_references : List String → Option (List String) → Option (List String)
or_default_references names none = append_references none names
or_default_references names (some refs) = some refs

pull_secrets_after :
    (names : List String) (c : RabbitmqCluster)
    → (if pull_secrets_missing c
        then (with_image_pull_secrets (append_references c.spec.image_pull_secrets names) c).spec
        else c.spec).image_pull_secrets
      ≡ or_default_references names c.spec.image_pull_secrets
pull_secrets_after names c = elim (Option-cases c.spec.image_pull_secrets) [
  | inl h ↦ rw h
  | inr (refs, h) ↦ rw h
]

updater_after :
    (image : String) (c : RabbitmqCluster)
    → uses_default_user_updater_image (record c {
      spec =
          if uses_default_user_updater_image c then (with_updater_image image c).spec else c.spec;
    })
      ≡ false
unfolding uses_default_user_updater_image
updater_after image c = elim (Option-cases c.spec.secret_backend.vault) [
  | inl h ↦ rw h
  | inr (v, h) ↦ elim (Option-cases v.default_user_updater_image) [
    | inl n ↦ rw (h, n)
    | inr (i, n) ↦ rw (h, n)
  ]
]

-- The updater's image of each Vault section, with a default for one that names none.
abbrev pub updater_images :
    (Option String → Option String) → RabbitmqClusterSpec → Option (Option String)
updater_images f sp =
    Option.map (λ (v : VaultSpec). f v.default_user_updater_image) sp.secret_backend.vault

abbrev pub or_image : String → Option String → Option String
or_image image none = some image
or_image image (some i) = some i

updater_image_after :
    (image : String) (c : RabbitmqCluster)
    → updater_images
        (λ i. i)
        (if uses_default_user_updater_image c then (with_updater_image image c).spec else c.spec)
      ≡ updater_images (or_image image) c.spec
unfolding uses_default_user_updater_image
updater_image_after image c = elim (Option-cases c.spec.secret_backend.vault) [
  | inl h ↦ rw h
  | inr (v, h) ↦ elim (Option-cases v.default_user_updater_image) [
    | inl n ↦ rw (h, n)
    | inr (i, n) ↦ rw (h, n)
  ]
]

module _ {W : Type 0} (r : Reconciler W) (stores : StoresSpec r) where
  stored_spec :
      (c : RabbitmqCluster) (x : Result RabbitmqCluster) (s : Loop W)
      → ((c' : RabbitmqCluster) → x ≡ ok c' → c'.spec ≡ c.spec)
      → s.cluster.spec ≡ c.spec
      → (stored x s).1.cluster.spec ≡ c.spec
  stored_spec c (ok c') s h e = h c' refl
  stored_spec c (err x) s h e = e

  requeue_keeps : (x : Result (Unit {0})) (s : Loop W) → (requeue_after x s).1 ≡ s
  requeue_keeps (ok u) s = refl
  requeue_keeps (err e) s = refl

  update_spec : (s : Loop W) → (update_rabbitmq_cluster r s).1.cluster.spec ≡ s.cluster.spec
  unfolding update_rabbitmq_cluster
  update_spec s =
      ap (λ (t : Loop W). t.cluster.spec)
        (requeue_keeps (store r.update_cluster s).0 (store r.update_cluster s).1)
      ∙ stored_spec s.cluster (r.update_cluster s.cluster s.world).0
          (record s { world = (r.update_cluster s.cluster s.world).1 })
          (λ c' e. stores s.cluster c' s.world e) refl

  write_default-spec :
      (change : RabbitmqCluster → RabbitmqCluster) (s s' : Loop W)
      → write_default r change s ≡ (ok tt, s')
      → s'.cluster.spec ≡ (change s.cluster).spec
  unfolding write_default
  write_default-spec change s s' e =
      let changed : Loop W = record s { cluster = change s.cluster } in
      let (d, s1, up, fin) = >>=-eq-ok (update_rabbitmq_cluster r) (λ _. pure tt) changed e in
      ap (λ p. p.1.cluster.spec) (sym fin ∙ ap (λ p. (ok tt, p.1)) (sym up)) ∙ update_spec changed

  default_if-spec :
      (test : RabbitmqCluster → Bool) (change : RabbitmqCluster → RabbitmqCluster) (s s' : Loop W)
      → default_if r test change s ≡ (ok tt, s')
      → s'.cluster.spec ≡ (if test s.cluster then (change s.cluster).spec else s.cluster.spec)
  unfolding default_if
  default_if-spec test change s s' e = elim (Bool-cases (test s.cluster)) [
    | inr h ↦ rw h (ap (λ p. p.1.cluster.spec) (sym (rw (h, default_if) at e)))
    | inl h ↦ rw h (write_default-spec change s s' (rw (h, default_if) at e))
  ]

  -- Where `reconcileOperatorDefaults` returns without an error, each of the three fields (the
  -- image, the pull secrets, and with Vault the image of the updater) is as it was if it was set,
  -- and the operator's default otherwise, given a server that stores the specification that it is
  -- sent. This holds after an update that failed because of a conflict, too: the 2 seconds that
  -- `updateRabbitmqCluster` asks for are then lost, since the duration is always 0.
  pub reconcile_operator_defaults-fields :
      (s s' : Loop W) (d : ℕ)
      → reconcile_operator_defaults r s ≡ (ok d, s')
      → (d ≡ 0)
        × (s'.cluster.spec.image ≡ (
            if str_eq s.cluster.spec.image ""
            then r.default_rabbitmq_image
            else s.cluster.spec.image))
        × (s'.cluster.spec.image_pull_secrets ≡ (
            or_default_references
              (split r.default_image_pull_secrets ",")
              s.cluster.spec.image_pull_secrets))
        × (updater_images (λ i. i) s'.cluster.spec
            ≡ updater_images (or_image r.default_user_updater_image) s.cluster.spec)
        × (uses_default_user_updater_image s'.cluster ≡ false)
  unfolding reconcile_operator_defaults uses_default_user_updater_image
  reconcile_operator_defaults-fields s s' d e =
      let names = split r.default_image_pull_secrets "," in
      let set_secrets : RabbitmqCluster → RabbitmqCluster =
        λ c. with_image_pull_secrets (append_references c.spec.image_pull_secrets names) c in
      let set_updater = with_updater_image r.default_user_updater_image in
      let last : Exec (Loop W) ℕ =
        default_if r uses_default_user_updater_image set_updater >> pure 0 in
      let (u1, s1, e1, rest1) =
        >>=-eq-ok (default_if r image_missing (with_image r.default_rabbitmq_image))
          (λ _. default_if r pull_secrets_missing set_secrets >> last) s e in
      let (u2, s2, e2, rest2) =
        >>=-eq-ok (default_if r pull_secrets_missing set_secrets) (λ _. last) s1 rest1 in
      let (u3, s3, e3, rest3) =
        >>=-eq-ok (default_if r uses_default_user_updater_image set_updater) (λ _. pure 0) s2
          rest2 in
      let one = default_if-spec image_missing (with_image r.default_rabbitmq_image) s s1 e1 in
      let two = default_if-spec pull_secrets_missing set_secrets s1 s2 e2 in
      let three = default_if-spec uses_default_user_updater_image set_updater s2 s3 e3 in
      let end = ap (λ (p : Result ℕ × Loop W). p.1.cluster.spec) (sym rest3) in
      let of_spec = λ (sp : RabbitmqClusterSpec).
        uses_default_user_updater_image (record s2.cluster { spec = sp }) in
      (
        sym (cc (ap (λ (p : Result ℕ × Loop W). p.0) rest3)),
        ap (λ sp. sp.image) end
            ∙ unaffected (λ sp. sp.image) (uses_default_user_updater_image s2.cluster)
                (set_updater s2.cluster).spec s2.cluster.spec s3.cluster.spec three refl
            ∙ unaffected (λ sp. sp.image) (pull_secrets_missing s1.cluster)
                (set_secrets s1.cluster).spec s1.cluster.spec s2.cluster.spec two refl
            ∙ ap (λ sp. sp.image) one
            ∙ image_after r.default_rabbitmq_image s.cluster,
        ap (λ sp. sp.image_pull_secrets) end
            ∙ unaffected (λ sp. sp.image_pull_secrets) (uses_default_user_updater_image s2.cluster)
                (set_updater s2.cluster).spec s2.cluster.spec s3.cluster.spec three refl
            ∙ ap (λ sp. sp.image_pull_secrets) two
            ∙ pull_secrets_after names s1.cluster
            ∙ ap (or_default_references names) (
                unaffected (λ sp. sp.image_pull_secrets) (image_missing s.cluster)
                  (with_image r.default_rabbitmq_image s.cluster).spec s.cluster.spec
                  s1.cluster.spec one refl),
        ap (updater_images (λ i. i)) (end ∙ three)
            ∙ updater_image_after r.default_user_updater_image s2.cluster
            ∙ unaffected (updater_images (or_image r.default_user_updater_image))
                (pull_secrets_missing s1.cluster) (set_secrets s1.cluster).spec s1.cluster.spec
                s2.cluster.spec two refl
            ∙ unaffected (updater_images (or_image r.default_user_updater_image))
                (image_missing s.cluster) (with_image r.default_rabbitmq_image s.cluster).spec
                s.cluster.spec s1.cluster.spec one refl,
        ap of_spec (end ∙ three) ∙ updater_after r.default_user_updater_image s2.cluster,
      )
