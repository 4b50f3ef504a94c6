-- ===== src/Resource/StatefulSets/Built.antt =====
-- internal/resource/statefulset.go: the StatefulSet that `Build` makes for a new cluster, and what
-- `Update` makes of it.
use pos_data_showcase.Prelude.{
  true, false, none, some, List, [], ◌∷◌, ◌≡◌, refl, sym, ap, ◌∙◌, ◌==◌,
}
use mathlib.Core.Path.{subst}
use mathlib.Core.Option.{some-injective}
use pos_data_showcase.Kube.Error.{wrapped}
use pos_data_showcase.Kube.Outcome.{
  returned, deref, or_failed, >>=-eq-returned, or_failed-eq-returned, deref-eq-returned,
  returned-injective,
}
use pos_data_showcase.Kube.Objects.{PersistentVolumeClaim, StatefulSet}
use pos_data_showcase.Kube.Pods.{Quantity}
use pos_data_showcase.Cluster.{RabbitmqCluster}
use pos_data_showcase.Resource.PodTemplate.Mounted.{claim_named}
use pos_data_showcase.Resource.StatefulSets.{
  Packages, build, update, persistent_volume_claim, claims_for, owned_claim, new_claim,
  disable_block_owner_deletion, override_fixed, new_stateful_set,
}
use pos_data_showcase.Resource.StatefulSets.Startable.{
  PackageLaws, IsFitting, IsStartable, update-IsStartable,
}

module _ (pkg : Packages) (laws : PackageLaws pkg) where
  open laws use {zero_storage, claim_kept}

  claim_named-owned_claim :
      (c : RabbitmqCluster) (ts : List PersistentVolumeClaim) (q : Quantity)
      → owned_claim pkg c q ≡ returned ts
      → claim_named "persistence" ts ≡ true
  unfolding owned_claim new_claim claim_named disable_block_owner_deletion
  claim_named-owned_claim c ts q e =
      let (pvc, set, e1) =
        >>=-eq-returned
          (or_failed (wrapped "failed setting controller reference")
            (pkg.set_claim_controller c (new_claim pkg c q)))
          (λ p. returned (disable_block_owner_deletion p ∷ [])) e in
      let named =
        ap (λ (p : PersistentVolumeClaim). p.name)
          (claim_kept c (new_claim pkg c q) pvc (or_failed-eq-returned _ _ set)) in
      subst (λ xs. claim_named "persistence" xs ≡ true)
        (returned-injective (disable_block_owner_deletion pvc ∷ []) ts e1) (rw named refl)

  claim_named-claims_for :
      (c : RabbitmqCluster) (ts : List PersistentVolumeClaim) (q : Quantity)
      → claims_for pkg c q ≡ returned ts
      → q == 0 ≡ false
      → claim_named "persistence" ts ≡ true
  unfolding claims_for
  claim_named-claims_for c ts q e nonzero =
      claim_named-owned_claim c ts q (rw (zero_storage, nonzero, claims_for) at e)

  claim_named-persistent_volume_claim :
      (c : RabbitmqCluster) (ts : List PersistentVolumeClaim) (q : Quantity)
      → persistent_volume_claim pkg c ≡ returned ts
      → c.spec.persistence.storage ≡ some q
      → q == 0 ≡ false
      → claim_named "persistence" ts ≡ true
  unfolding persistent_volume_claim
  claim_named-persistent_volume_claim c ts q e has nonzero =
      let (p, got, e1) = >>=-eq-returned (deref c.spec.persistence.storage) (claims_for pkg c) e in
      let same =
        some-injective _ q (sym (deref-eq-returned c.spec.persistence.storage got) ∙ has) in
      claim_named-claims_for c ts p e1 (rw same nonzero)

  -- With `PackageLaws`: what `Build` returns for a cluster that overrides no field of the StatefulSet
  -- fits the cluster, and where `Update` then succeeds on it, the result can start its pods.
  pub build-update-IsStartable :
      (c : RabbitmqCluster) (s s' : StatefulSet)
      → c.spec.override.stateful_set ≡ none
      → build pkg c ≡ returned s
      → update pkg c s ≡ returned s'
      → IsFitting c s × IsStartable c s'
  unfolding build override_fixed new_stateful_set
  build-update-IsStartable c s s' plain e updated =
      let (ts, made, e1) = >>=-eq-returned (persistent_volume_claim pkg c) _ e in
      let fits =
        subst (IsFitting c)
          (sym (ap (λ o. override_fixed o (new_stateful_set c ts)) plain)
            ∙ returned-injective _ s e1)
          (record {
            selector = refl;
            stored = λ q has nonzero. claim_named-persistent_volume_claim c ts q made has nonzero;
          }) in
      (fits, (update-IsStartable pkg laws c s s' plain fits updated).0)
