-- ===== src/Scaling/Refusals.antt =====
-- internal/scaling/scaling.go: what `Scale` refuses, and that it has then only read.
use pos_data_showcase.Prelude.{
  ◌<◌, ◌≡◌, ◌≢◌, refl, ◌∙◌, true, List, [], ◌∷◌, arith, All, ltb, ◌≤◌, ◌⊎◌, if◌then◌else◌, none,
  some,
}
use pos_data_showcase.Kube.Objects.{PersistentVolumeClaim}
use pos_data_showcase.Kube.Pods.{Quantity}
use pos_data_showcase.Kube.Error.{Error, plain, is_not_found}
use pos_data_showcase.Kube.Exec.{ok, err, Result}
use pos_data_showcase.Cluster.{RabbitmqCluster}
use pos_data_showcase.Scaling.{
  ScalerClient, storage, existing_capacity, get_cluster_pvcs, pvcs_needing_scaling, guard_capacity,
  scale, scale_pvcs, delete_and_scale,
}

module _ {W : Type 0} (client : ScalerClient W) (rmq : RabbitmqCluster) (desired : Quantity)
    (w w' : W) where
  scale_refused :
      (r : Result Quantity) (e : Error)
      → existing_capacity client rmq w ≡ (r, w')
      → guard_capacity r desired ≡ some e
      → scale client rmq desired w ≡ (err e, w')
  unfolding scale
  scale_refused r e read g = rw (read, scale) (rw g)

  scale_allowed :
      (r : Result Quantity)
      → existing_capacity client rmq w ≡ (r, w')
      → guard_capacity r desired ≡ none
      → scale client rmq desired w ≡ scale_pvcs client rmq desired w'
  unfolding scale
  scale_allowed r read g = rw (read, scale) (rw g)

  -- A wish for less storage than the StatefulSet has, or for storage where it has none, is refused with
  -- the error that says so, and the world is as the one read of the StatefulSet left it: nothing was
  -- deleted and no claim was changed.
  pub scale_refuses :
      (existing : Quantity)
      → existing_capacity client rmq w ≡ (ok existing, w')
      → (desired < existing) ⊎ ((existing ≡ 0) × (desired ≢ 0))
      → scale client rmq desired w ≡ (
        err (
            if ltb desired existing
            then plain "shrinking persistent volumes is not supported"
            else plain "changing from ephemeral to persistent storage is not supported"),
        w',
      )
  unfolding guard_capacity
  scale_refuses existing read h = scale_refused (ok existing) _ read (ground arith)

  -- What the guards let pass: no StatefulSet, or one with no more storage than is wished, and not with
  -- none where some is wished.
  abbrev pub Allowed : Result Quantity → Type 0
  Allowed (ok existing) = (existing ≤ desired) × ((existing ≢ 0) ⊎ (desired ≡ 0))
  Allowed (err e) = is_not_found e ≡ true

  guard_allows : (r : Result Quantity) → Allowed r → guard_capacity r desired ≡ none
  unfolding guard_capacity
  guard_allows (ok existing) h = ground arith
  guard_allows (err e) h = rw h

  none_needs_scaling :
      (pvcs : List PersistentVolumeClaim)
      → All (λ pvc. desired ≤ storage pvc) pvcs
      → pvcs_needing_scaling pvcs desired ≡ []
  unfolding pvcs_needing_scaling
  none_needs_scaling [] h = refl
  none_needs_scaling (pvc ∷ rest) (p, h) = ground (arith, none_needs_scaling rest h)

  -- Where every claim that is there has the wished storage already, `Scale` succeeds after its reads:
  -- the StatefulSet is not deleted and no claim is changed.
  pub scale_nothing :
      (r : Result Quantity) (pvcs : List PersistentVolumeClaim) (w'' : W)
      → existing_capacity client rmq w ≡ (r, w')
      → Allowed r
      → get_cluster_pvcs client rmq w' ≡ (ok pvcs, w'')
      → All (λ pvc. desired ≤ storage pvc) pvcs
      → scale client rmq desired w ≡ (ok tt, w'')
  unfolding scale_pvcs delete_and_scale
  scale_nothing r pvcs w'' read a got h =
      scale_allowed r read (guard_allows r a)
      ∙ rw (got, scale_pvcs) (rw (none_needs_scaling pvcs h))
