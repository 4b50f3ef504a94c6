-- ===== src/Controllers/UserReferences/Settled.antt =====
-- controllers/reconcile_status.go: once the references are written, a further pass writes nothing.
use pos_data_showcase.Prelude.{
  Bool, true, Option, none, some, ◌≡◌, refl, sym, ap, ◌∙◌, eq_refl, str_eq, Bool-cases, inl, inr,
}
use pos_data_showcase.Prelude.Dict.{lookup}
use pos_data_showcase.Kube.Exec.{Result, ok, err}
use pos_data_showcase.Cluster.{
  RabbitmqCluster, child_resource_name, vault_default_user_secret_enabled,
}
use pos_data_showcase.Controllers.{Reconciler, Loop, stored}
use pos_data_showcase.ClusterStatus.{RabbitmqClusterStatus}
use pos_data_showcase.Controllers.Steps.Inversion.{stored_is_ok}
use pos_data_showcase.Controllers.UserReferences.{
  pointer_eq, entries_in, map_eq, secret_reference_eq, service_reference_eq, default_user_eq,
  user_secret_reference, default_user_status, binding_status, has_references, with_references,
  reconcile_status,
}

-- What the API server documents of a status update: it stores the status, and the name and the
-- specification of the object stay as they are.
pub record StoresStatus {W : Type 0} (r : Reconciler W) : Type 0 where
  pub status_stored :
      (c c' : RabbitmqCluster) (w : W) → (r.update_status c w).0 ≡ ok c' → c'.status ≡ c.status
  pub name_kept :
      (c c' : RabbitmqCluster) (w : W) → (r.update_status c w).0 ≡ ok c' → c'.name ≡ c.name
  pub namespace_kept :
      (c c' : RabbitmqCluster) (w : W)
      → (r.update_status c w).0 ≡ ok c'
      → c'.namespace ≡ c.namespace
  pub spec_kept :
      (c c' : RabbitmqCluster) (w : W) → (r.update_status c w).0 ≡ ok c' → c'.spec ≡ c.spec

-- The status that the API server keeps: an update that succeeds stores the one that it is sent.
pub record ServerStatus {W : Type 0} (r : Reconciler W) : Type 0 where
  pub kept : W → RabbitmqClusterStatus
  pub update_keeps :
      (c c' : RabbitmqCluster) (w w' : W) → r.update_status c w ≡ (ok c', w') → kept w' ≡ c.status

pointer_eq_refl :
    {A : Type 0} (eq : A → A → Bool) (o : Option A)
    → ((a : A) → eq a a ≡ true)
    → pointer_eq eq o o ≡ true
unfolding pointer_eq
pointer_eq_refl eq none h = refl
pointer_eq_refl eq (some a) h = h a

wished_user_eq :
    (c : RabbitmqCluster)
    → pointer_eq default_user_eq (some (default_user_status c)) (some (default_user_status c))
      ≡ true
unfolding pointer_eq default_user_eq default_user_status secret_reference_eq service_reference_eq
    user_secret_reference map_eq entries_in lookup
wished_user_eq c = elim (Bool-cases (vault_default_user_secret_enabled c)) [
  | inl h ↦ rw (h, pointer_eq, default_user_eq, default_user_status) (simp eq_refl)
  | inr h ↦ rw (h, pointer_eq, default_user_eq, default_user_status) (simp eq_refl)
]

same_user : (c : RabbitmqCluster) → default_user_status (with_references c) ≡ default_user_status c
unfolding default_user_status vault_default_user_secret_enabled child_resource_name
    user_secret_reference
same_user c = refl

same_binding : (c : RabbitmqCluster) → binding_status (with_references c) ≡ binding_status c
unfolding binding_status vault_default_user_secret_enabled child_resource_name
same_binding c = refl

with_references-has : (c : RabbitmqCluster) → has_references (with_references c) ≡ true
unfolding has_references
with_references-has c =
    simp
      (same_user, same_binding, wished_user_eq, pointer_eq_refl str_eq (binding_status c) eq_refl)

module _ {W : Type 0} (r : Reconciler W) (laws : StoresStatus r) where
  open laws use {status_stored, name_kept, namespace_kept, spec_kept}

  stored-has :
      (c c' : RabbitmqCluster) (w : W)
      → (r.update_status c w).0 ≡ ok c'
      → has_references c' ≡ has_references c
  unfolding has_references default_user_status binding_status user_secret_reference
      vault_default_user_secret_enabled child_resource_name
  stored-has c c' w e = λ i. has_references (record c' {
    status = status_stored c c' w e i;
    name = name_kept c c' w e i;
    namespace = namespace_kept c c' w e i;
    spec = spec_kept c c' w e i;
  })

  stored-references :
      (c : RabbitmqCluster) (x : Result RabbitmqCluster) (s s' : Loop W)
      → ((c' : RabbitmqCluster) → x ≡ ok c' → has_references c' ≡ has_references c)
      → stored x s ≡ (ok tt, s')
      → has_references s'.cluster ≡ has_references c
  stored-references c (ok c') s s' h e =
      ap (λ (p : Result (Unit {0}) × Loop W). has_references p.1.cluster) (sym e) ∙ h c' refl
  stored-references c (err x) s s' h e =
      absurd (cc (ap (λ (p : Result (Unit {0}) × Loop W). p.0) e))

  stored-kept :
      (server : ServerStatus r) (c : RabbitmqCluster) (w : W) (s' : Loop W)
      → stored (r.update_status c w).0 (record { cluster = c; world = (r.update_status c w).1 })
        ≡ (ok tt, s')
      → server.kept s'.world ≡ s'.cluster.status
  stored-kept server c w s' e =
      let w1 = (r.update_status c w).1 in
      let (c', got, object, same) =
        stored_is_ok (r.update_status c w).0 (record { cluster = c; world = w1 }) s' e in
      ap server.kept (sym same)
      ∙ server.update_keeps c c' w w1 (λ i. (got i, w1))
      ∙ sym (status_stored c c' w got)
      ∙ ap (λ (d : RabbitmqCluster). d.status) object

  -- With `StoresStatus` and `ServerStatus`, for an object whose status is the server's: where
  -- `reconcileStatus` succeeds, the cluster has the references, the status that the server keeps is
  -- the cluster's, and a second call changes and writes nothing.
  pub reconcile_status_settles :
      (server : ServerStatus r) (s s' : Loop W)
      → server.kept s.world ≡ s.cluster.status
      → reconcile_status r s ≡ (ok tt, s')
      → (has_references s'.cluster ≡ true)
        × (server.kept s'.world ≡ s'.cluster.status)
        × (reconcile_status r s' ≡ (ok tt, s'))
  unfolding reconcile_status
  reconcile_status_settles server s s' agree e =
      let (has, kept) : (has_references s'.cluster ≡ true)
          × (server.kept s'.world ≡ s'.cluster.status) =
        elim (Bool-cases (has_references s.cluster)) [
          | inl h ↦
              let same = sym (rw (h, reconcile_status) at e) in
              (
                ap (λ (p : Result (Unit {0}) × Loop W). has_references p.1.cluster) same ∙ h,
                ap (λ (p : Result (Unit {0}) × Loop W). server.kept p.1.world) same
                    ∙ agree
                    ∙ sym (ap (λ (p : Result (Unit {0}) × Loop W). p.1.cluster.status) same),
              )
          | inr h ↦
              let c = with_references s.cluster in
              let (x, w) = r.update_status c s.world in
              let written = rw (h, reconcile_status) at e in
              (
                stored-references c x (record { cluster = c; world = w }) s'
                      (λ c' got. stored-has c c' s.world got) written
                    ∙ with_references-has s.cluster,
                stored-kept server c s.world s' written,
              )
        ] in
      (has, kept, rw (has, reconcile_status))
