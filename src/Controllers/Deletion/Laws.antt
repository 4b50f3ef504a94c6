-- ===== src/Controllers/Deletion/Laws.antt =====
-- controllers/reconcile_finalizer.go: the finalizer's way, and whose StatefulSet is deleted.
use pos_data_showcase.Prelude.{
  String, Bool, true, false, Option, none, some, ◌≡◌, refl, sym, ap, ◌∙◌, Bool-cases, inl, inr,
  str_eq, eq_iff,
}
use pos_data_showcase.Kube.Objects.{StatefulSet, OwnerReference}
use pos_data_showcase.Kube.Error.{wrapped}
use pos_data_showcase.Kube.Exec.{Result, ok, err, or_fail}
use pos_data_showcase.Kube.Exec.Inversion.{>>=-eq-ok, or_fail-eq-ok}
use pos_data_showcase.Cluster.{RabbitmqCluster}
use pos_data_showcase.Controllers.{Reconciler, Loop, store, stored}
use pos_data_showcase.Controllers.Steps.Inversion.{stored_is_ok}
use pos_data_showcase.Controllers.Access.{stateful_set_of}
use pos_data_showcase.Controllers.Deletion.{
  deletion_finalizer, is_deleting, owned_uid, stateful_set_uid, delete_once,
  add_finalizer_if_needed, remove_finalizer, prepare_for_deletion,
}

owned_uid-eq-ok :
    (rmq : RabbitmqCluster) (sts : StatefulSet) (o : Option OwnerReference) (uid : String)
    → owned_uid rmq sts o ≡ ok uid
    → (ref : OwnerReference) × (o ≡ some ref) × (ref.uid ≡ rmq.uid) × (uid ≡ sts.uid)
unfolding owned_uid
owned_uid-eq-ok rmq sts none uid e = absurd (cc e)
owned_uid-eq-ok rmq sts (some ref) uid e = elim (Bool-cases (str_eq rmq.uid ref.uid)) [
  | inl h ↦ (ref, refl, sym ((eq_iff rmq.uid ref.uid).0 h), sym (cc (rw (h, owned_uid) at e)))
  | inr h ↦ absurd (cc (rw (h, owned_uid) at e))
]

-- Where `statefulSetUID` returns a UID, it is that of the StatefulSet that was read, and the UID of
-- that StatefulSet's controller is the cluster's own.
pub stateful_set_uid-owned :
    {W : Type 0} (r : Reconciler W) (rmq : RabbitmqCluster) (uid : String) (w w' : W)
    → stateful_set_uid r rmq w ≡ (ok uid, w')
    → (sts : StatefulSet) × (ref : OwnerReference) × ((stateful_set_of r rmq w).0 ≡ ok sts)
      × (sts.controller ≡ some ref)
      × (ref.uid ≡ rmq.uid)
      × (uid ≡ sts.uid)
unfolding stateful_set_uid
stateful_set_uid-owned r rmq uid w w' e =
    let (sts, w1, got, rest) =
      >>=-eq-ok (or_fail (wrapped "failed to get statefulSet") (stateful_set_of r rmq))
        (λ sts w. (owned_uid rmq sts sts.controller, w)) w e in
    let (ref, controlled, same, own) =
      owned_uid-eq-ok rmq sts sts.controller uid (ap (λ p. p.0) rest) in
    (
      sts,
      ref,
      ap (λ p. p.0)
          (or_fail-eq-ok (wrapped "failed to get statefulSet") (stateful_set_of r rmq) w got),
      controlled,
      same,
      own,
    )

-- What controller-runtime and the API document: an added finalizer is there, a removed one is not,
-- and an update stores the finalizers that it is sent.
pub record FinalizerLaws {W : Type 0} (r : Reconciler W) : Type 0 where
  pub contains-add :
      (c : RabbitmqCluster) (f : String) → r.contains_finalizer (r.with_finalizer c f) f ≡ true
  pub contains-remove :
      (c : RabbitmqCluster) (f : String) → r.contains_finalizer (r.without_finalizer c f) f ≡ false
  pub update_stores :
      (c c' : RabbitmqCluster) (w : W) (f : String)
      → (r.update_cluster c w).0 ≡ ok c'
      → r.contains_finalizer c' f ≡ r.contains_finalizer c f

-- Whether the object that the API server keeps has a finalizer. An update that succeeds stores the
-- finalizers that it is sent.
pub record ServerFinalizers {W : Type 0} (r : Reconciler W) : Type 0 where
  pub kept : W → String → Bool
  pub update_keeps :
      (c c' : RabbitmqCluster) (w w' : W) (f : String)
      → r.update_cluster c w ≡ (ok c', w')
      → kept w' f ≡ r.contains_finalizer c f

module _ {W : Type 0} (r : Reconciler W) (laws : FinalizerLaws r) where
  open laws use {contains-add, contains-remove, update_stores}

  abbrev has : RabbitmqCluster → Bool
  has c = r.contains_finalizer c deletion_finalizer

  stored-eq-ok :
      (c : RabbitmqCluster) (x : Result RabbitmqCluster) (s s' : Loop W)
      → ((c' : RabbitmqCluster) → x ≡ ok c' → has c' ≡ has c)
      → stored x s ≡ (ok tt, s')
      → has s'.cluster ≡ has c
  stored-eq-ok c (ok c') s s' h e =
      ap (λ (p : Result (Unit {0}) × Loop W). has p.1.cluster) (sym e) ∙ h c' refl
  stored-eq-ok c (err x) s s' h e = absurd (cc (ap (λ (p : Result (Unit {0}) × Loop W). p.0) e))

  store-eq-ok :
      (s s' : Loop W) → store r.update_cluster s ≡ (ok tt, s') → has s'.cluster ≡ has s.cluster
  store-eq-ok s s' e =
      let (x, w) = r.update_cluster s.cluster s.world in
      stored-eq-ok s.cluster x (record s { world = w }) s'
        (λ c' got. update_stores s.cluster c' s.world deletion_finalizer got) e

  -- With `FinalizerLaws`: after `addFinalizerIfNeeded` has succeeded for a cluster that is not
  -- being deleted, the cluster has the finalizer.
  add_finalizer_if_needed-contains :
      (s s' : Loop W)
      → add_finalizer_if_needed r s ≡ (ok tt, s')
      → s.cluster.deletion_timestamp ≡ none
      → r.contains_finalizer s'.cluster deletion_finalizer ≡ true
  unfolding add_finalizer_if_needed
  add_finalizer_if_needed-contains s s' e alive =
      let kept = ap is_deleting alive in
      elim (Bool-cases (has s.cluster)) [
        | inl h ↦
            ap (λ (p : Result (Unit {0}) × Loop W). has p.1.cluster)
              (sym (rw (kept, h, add_finalizer_if_needed) at e))
            ∙ h
        | inr h ↦
            store-eq-ok (record s { cluster = r.with_finalizer s.cluster deletion_finalizer }) s'
              (rw (kept, h, add_finalizer_if_needed) at e)
            ∙ contains-add s.cluster deletion_finalizer
      ]

  stored-kept :
      (server : ServerFinalizers r) (c : RabbitmqCluster) (w : W) (s' : Loop W)
      → stored (r.update_cluster c w).0 (record { cluster = c; world = (r.update_cluster c w).1 })
        ≡ (ok tt, s')
      → server.kept s'.world deletion_finalizer ≡ has c
  stored-kept server c w s' e =
      let (c', got, _, same) =
        stored_is_ok (r.update_cluster c w).0
          (record { cluster = c; world = (r.update_cluster c w).1 }) s' e in
      ap (λ v. server.kept v deletion_finalizer) (sym same)
      ∙ server.update_keeps c c' w (r.update_cluster c w).1 deletion_finalizer
          (λ i. (got i, (r.update_cluster c w).1))

  -- With `FinalizerLaws` and `ServerFinalizers`, for an object that has the finalizer exactly where the
  -- server's has it: after `prepareForDeletion` has succeeded neither the object nor the one that the
  -- server keeps has the finalizer, whether or not the pods could be marked and the StatefulSet
  -- deleted before.
  pub prepare_for_deletion-contains :
      (server : ServerFinalizers r) (s s' : Loop W)
      → server.kept s.world deletion_finalizer ≡ r.contains_finalizer s.cluster deletion_finalizer
      → prepare_for_deletion r s ≡ (ok tt, s')
      → (r.contains_finalizer s'.cluster deletion_finalizer ≡ false)
        × (server.kept s'.world deletion_finalizer ≡ false)
  unfolding prepare_for_deletion remove_finalizer
  prepare_for_deletion-contains server s s' agree e = elim (Bool-cases (has s.cluster)) [
    | inr h ↦
        let same = sym (rw (h, prepare_for_deletion) at e) in
        (
          ap (λ (p : Result (Unit {0}) × Loop W). has p.1.cluster) same ∙ h,
          ap (λ (p : Result (Unit {0}) × Loop W). server.kept p.1.world deletion_finalizer) same
              ∙ agree
              ∙ h,
        )
    | inl h ↦
        let c = r.without_finalizer s.cluster deletion_finalizer in
        let w = (r.retry_on_conflict (delete_once r s.cluster) s.world).1 in
        let e1 = rw (h, prepare_for_deletion) at e in
        (
          store-eq-ok (record s { cluster = c; world = w }) s' e1
              ∙ contains-remove s.cluster deletion_finalizer,
          stored-kept server c w s' e1 ∙ contains-remove s.cluster deletion_finalizer,
        )
  ]
