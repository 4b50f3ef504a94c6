-- ===== src/Scaling/Grown.antt =====
-- internal/scaling/scaling.go: after `Scale` has succeeded, the claims have the wished storage.
use mathlib.Core.Bool.{false≢true}
use mathlib.Core.Option
use mathlib.Core.Option.{some-injective}
use native.Mathlib.Nat.{zero-add}
use pos_data_showcase.Prelude.{
  ℕ, ◌<◌, ◌≤◌, ◌≡◌, refl, sym, ap, ◌∙◌, true, List, [], ◌∷◌, arith, ◌⊎◌, inl, inr, if◌then◌else◌,
  Option, none, some, String, ◌<>◌, str_eq, eq_refl, Bool-cases,
}
use pos_data_showcase.Prelude.Dict.{insert, lookup-insert}
use pos_data_showcase.Kube.Objects.{PersistentVolumeClaim, or_zero}
use pos_data_showcase.Kube.Pods.{Quantity}
use pos_data_showcase.Kube.Error.{Error, wrapped}
use pos_data_showcase.Kube.Exec.{ok, Exec, or_fail, attempt, unless}
use pos_data_showcase.Kube.Exec.Inversion.{>>=-eq-ok, or_fail-eq-ok}
use pos_data_showcase.Cluster.{RabbitmqCluster, pvc_name}
use pos_data_showcase.Scaling.{
  ScalerClient, storage, existing_capacity, get_cluster_pvcs, pvcs_needing_scaling, guard_capacity,
  delete_sts, get_latest, set_capacity, scale_up_pvc, scale_up_pvcs, delete_and_scale, scale_pvcs,
  scale,
}
use pos_data_showcase.Scaling.Listed.{has_name, get_pvcs_from-Lists}
use pos_data_showcase.Scaling.Claims.{PvcLaws, delete_sts-Keeps}

module _ {W : Type 0} (client : ScalerClient W) (laws : PvcLaws client) (rmq : RabbitmqCluster)
    (desired : Quantity) (n : String) where
  open laws use {
    stored, stored_name, get_pvc_keeps, get_pvc_found, get_pvc_absent, update_pvc_stores,
  }

  -- The claim of the name is large enough, or stands in the list.
  abbrev pub Covered : W → List PersistentVolumeClaim → Type 0
  Covered w ps =
      (p : PersistentVolumeClaim)
      → stored w rmq.namespace n ≡ some p
      → (desired ≤ storage p) ⊎ (has_name n ps ≡ true)

  storage-insert :
      (p : PersistentVolumeClaim)
      → storage (record p { requests = insert "storage" desired p.requests }) ≡ desired
  storage-insert p = ap or_zero (lookup-insert "storage" "storage" desired p.requests)

  grown :
      (pvc p : PersistentVolumeClaim)
      → some (record pvc { requests = insert "storage" desired pvc.requests }) ≡ some p
      → desired ≤ storage p
  grown pvc p e = omega (arith, storage-insert pvc, ap storage (some-injective _ p e))

  -- The claim after an update of `pvc`.
  updated :
      (pvc : PersistentVolumeClaim) (w : W)
      → let p' = record pvc { requests = insert "storage" desired pvc.requests } in
        (client.update_pvc rmq.namespace p' w).0 ≡ ok tt
        → stored (client.update_pvc rmq.namespace p' w).1 rmq.namespace n
          ≡ (if str_eq pvc.name n then some p' else stored w rmq.namespace n)
  updated pvc w e =
      update_pvc_stores rmq.namespace rmq.namespace n
        (record pvc { requests = insert "storage" desired pvc.requests }) w e
      ∙ rw eq_refl

  get_latest-stored :
      (listed pvc : PersistentVolumeClaim) (w w1 : W)
      → get_latest client listed w ≡ (ok pvc, w1)
      → (pvc.name ≡ listed.name) × (stored w1 ≡ stored w)
  unfolding get_latest
  get_latest-stored listed pvc w w1 e =
      let got =
        or_fail-eq-ok (wrapped "failed to get PVC from Kubernetes API")
          (client.get_pvc listed.namespace listed.name) w e in
      (
        (stored_name w listed.namespace listed.name pvc
            (get_pvc_found listed.namespace listed.name pvc w (ap (λ r. r.0) got))).0,
        ap (λ r. stored r.1) (sym got) ∙ get_pvc_keeps listed.namespace listed.name w,
      )

  set_capacity-stored :
      (pvc : PersistentVolumeClaim) (w w' : W)
      → set_capacity client rmq desired pvc w ≡ (ok tt, w')
      → stored w' rmq.namespace n ≡ (
          if str_eq pvc.name n
          then some (record pvc { requests = insert "storage" desired pvc.requests })
          else stored w rmq.namespace n)
  unfolding set_capacity
  set_capacity-stored pvc w w' e =
      let p' = record pvc { requests = insert "storage" desired pvc.requests } in
      let put =
        or_fail-eq-ok (wrapped ("failed to update PersistentVolumeClaim " <> pvc.name))
          (client.update_pvc rmq.namespace p') w e in
      ap (λ r. stored r.1 rmq.namespace n) (sym put) ∙ updated pvc w (ap (λ r. r.0) put)

  scale_up_pvc-Covered :
      (listed : PersistentVolumeClaim) (rest : List PersistentVolumeClaim) (w w' : W)
      → scale_up_pvc client rmq desired listed w ≡ (ok tt, w')
      → Covered w (listed ∷ rest)
      → Covered w' rest
  unfolding scale_up_pvc
  scale_up_pvc-Covered listed rest w w' e c p found =
      let (pvc, w1, got, put) =
        >>=-eq-ok (get_latest client listed) (set_capacity client rmq desired) w e in
      let (same, kept) = get_latest-stored listed pvc w w1 got in
      let after = set_capacity-stored pvc w1 w' put in
      elim (Bool-cases (str_eq pvc.name n)) [
        | inl here ↦ inl (grown pvc p (sym (rw here at after) ∙ found))
        | inr other ↦
            let old = ap (λ s. s rmq.namespace n) (sym kept) ∙ sym (rw other at after) ∙ found in
            elim (c p old) [ inl big ↦ inl big | inr listed_here ↦ inr (ground arith) ]
      ]

  pub scale_up_pvcs-Covered :
      (ps : List PersistentVolumeClaim) (w w' : W)
      → scale_up_pvcs client rmq ps desired w ≡ (ok tt, w')
      → Covered w ps
      → Covered w' []
  unfolding scale_up_pvcs
  scale_up_pvcs-Covered [] w w' e c =
      λ p found. c p (ap (λ r. stored r.1 rmq.namespace n) e ∙ found)
  scale_up_pvcs-Covered (listed ∷ rest) w w' e c =
      let (done, w1, first, others) =
        >>=-eq-ok (scale_up_pvc client rmq desired listed)
          (λ _. scale_up_pvcs client rmq rest desired) w e in
      scale_up_pvcs-Covered rest w1 w' others (scale_up_pvc-Covered listed rest w w1 first c)

  or_fail_delete-keeps :
      (f : Error → Error) (w : W) → stored (or_fail f (delete_sts client rmq) w).1 ≡ stored w
  or_fail_delete-keeps f w = delete_sts-Keeps client laws rmq w

  delete_and_scale-Covered :
      (ps : List PersistentVolumeClaim) (w w' : W)
      → delete_and_scale client rmq ps desired w ≡ (ok tt, w')
      → Covered w ps
      → Covered w' []
  unfolding delete_and_scale
  delete_and_scale-Covered [] w w' e c =
      λ p found. c p (ap (λ r. stored r.1 rmq.namespace n) e ∙ found)
  delete_and_scale-Covered (q ∷ ps) w w' e c =
      let wrapping = wrapped "failed to delete Statefulset from Kubernetes API" in
      let (done, w1, deleted, scaled) =
        >>=-eq-ok (or_fail wrapping (delete_sts client rmq))
          (λ _. scale_up_pvcs client rmq (q ∷ ps) desired) w e in
      let kept = ap (λ r. stored r.1) (sym deleted) ∙ or_fail_delete-keeps wrapping w in
      scale_up_pvcs-Covered (q ∷ ps) w1 w' scaled
        (λ p found. c p (ap (λ s. s rmq.namespace n) (sym kept) ∙ found))

unless-eq-ok :
    {W A : Type 0} (o : Option Error) (m : Exec W A) (w : W) {a : A} {w' : W}
    → unless o m w ≡ (ok a, w')
    → m w ≡ (ok a, w')
unless-eq-ok none m w e = e
unless-eq-ok (some x) m w e = absurd (cc (ap (λ r. r.0) e))

module _ {W : Type 0} (client : ScalerClient W) (laws : PvcLaws client) (rmq : RabbitmqCluster)
    (desired : Quantity) (n : String) where
  open laws use {stored}

  scale_pvcs-Covered :
      (j : ℕ) (w w' : W)
      → scale_pvcs client rmq desired w ≡ (ok tt, w')
      → j < Option.get_or rmq.spec.replicas 1
      → pvc_name rmq j ≡ n
      → Covered client laws rmq desired n w' []
  unfolding scale_pvcs get_cluster_pvcs
  scale_pvcs-Covered j w w' e l name =
      let (ps, w1, got, done) =
        >>=-eq-ok (get_cluster_pvcs client rmq)
          (λ ps. delete_and_scale client rmq (pvcs_needing_scaling ps desired) desired) w e in
      let (kept, more, found) =
        get_pvcs_from-Lists client laws rmq desired n (Option.get_or rmq.spec.replicas 1) 0 [] w ps
          w1 got in
      delete_and_scale-Covered client laws rmq desired n (pvcs_needing_scaling ps desired) w1 w'
        done
        (λ p there. found j p l (rw zero-add name) (ap (λ s. s rmq.namespace n) (sym kept) ∙ there))

-- With a client that behaves as `PvcLaws` says: after `Scale` has succeeded, every claim of the cluster
-- that is there, one for each of its replicas (1 where the cluster names no number), has at least the
-- wished storage, whatever the claims were before.
pub scale-grows :
    {W : Type 0} (client : ScalerClient W) (laws : PvcLaws client) (rmq : RabbitmqCluster)
    (desired : Quantity) (w w' : W) (j : ℕ) (p : PersistentVolumeClaim)
    → scale client rmq desired w ≡ (ok tt, w')
    → j < Option.get_or rmq.spec.replicas 1
    → laws.stored w' rmq.namespace (pvc_name rmq j) ≡ some p
    → desired ≤ storage p
unfolding scale
scale-grows client laws rmq desired w w' j p e l there =
    let (r, w1, read, rest) =
      >>=-eq-ok (attempt (existing_capacity client rmq))
        (λ r. unless (guard_capacity r desired) (scale_pvcs client rmq desired)) w e in
    let scaled = unless-eq-ok (guard_capacity r desired) (scale_pvcs client rmq desired) w1 rest in
    elim (scale_pvcs-Covered client laws rmq desired (pvc_name rmq j) j w1 w' scaled l refl p
      there) [ inl big ↦ big | inr h ↦ absurd (false≢true h) ]
