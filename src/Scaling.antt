-- ===== src/Scaling.antt =====
-- internal/scaling/scaling.go: the storage of a cluster is scaled by changing the claims themselves,
-- with the StatefulSet deleted first, since its claim templates cannot be changed.
pub mod Retry
pub mod Refusals
pub mod Claims
pub mod Listed
pub mod Grown
use pos_data_showcase.Prelude.{
  ℕ, zero, suc, ◌+◌, String, ◌<>◌, Bool, true, false, not, ◌&&◌, Option, none, some, List, [], ◌∷◌,
  ◌++◌, str_eq, ltb, ◌==◌, if◌then◌else◌,
}
use mathlib.Core.Option
use pos_data_showcase.Prelude.Dict.{lookup, insert}
use pos_data_showcase.Kube.Objects.{StatefulSet, PersistentVolumeClaim, or_zero}
use pos_data_showcase.Kube.Pods.{Quantity}
use pos_data_showcase.Kube.Error.{Error, plain, wrapped, is_not_found}
use pos_data_showcase.Kube.Exec.{
  Exec, Result, ok, err, pure, fail, attempt, or_fail, unless, ◌>>=◌, ◌>>◌,
}
use pos_data_showcase.Cluster.{RabbitmqCluster, child_resource_name, pvc_name}

-- What the scaler calls of the Kubernetes client, each with a namespace and a name.
-- `delete_stateful_set` deletes with the propagation policy Orphan.
pub record ScalerClient (W : Type 0) : Type 0 where
  pub get_stateful_set : String → String → Exec W StatefulSet
  pub delete_stateful_set : String → String → Exec W (Unit {0})
  pub get_pvc : String → String → Exec W PersistentVolumeClaim
  pub update_pvc : String → PersistentVolumeClaim → Exec W (Unit {0})
  pub sleep : ℕ → W → W

abbrev pub storage : PersistentVolumeClaim → Quantity
storage pvc = or_zero (lookup "storage" pvc.requests)

-- The loop of `existingCapacity`, and `persistenceStorageCapacity` of reconcile_persistence.go.
unfoldable pub persistence_storage_capacity : List PersistentVolumeClaim → Quantity
persistence_storage_capacity [] = 0
persistence_storage_capacity (t ∷ rest) =
    if str_eq t.name "persistence" then storage t else persistence_storage_capacity rest

unfoldable pub pvcs_needing_scaling :
    List PersistentVolumeClaim → Quantity → List PersistentVolumeClaim
pvcs_needing_scaling [] desired = []
pvcs_needing_scaling (pvc ∷ rest) desired =
    let others = pvcs_needing_scaling rest desired in
    if ltb (storage pvc) desired then pvc ∷ others else others

-- `retryWithInterval`: `f` is polled at most `retry` times, with a pause after each failure.
unfoldable pub retry_with_interval :
    {W : Type 0} → (W → W) → Error → ℕ → (W → Bool × W) → Exec W (Unit {0})
retry_with_interval sleep failure zero f w = (err failure, w)
retry_with_interval sleep failure (suc retry) f w =
    let (done, w') = f w in
    elim done [ true ↦ (ok tt, w') | false ↦ retry_with_interval sleep failure retry f (sleep w') ]

-- `k8serrors.IsNotFound(err)`, after a call.
abbrev pub is_absent {ℓ} : {A : Type ℓ} → Result A → Bool
is_absent (ok a) = false
is_absent (err e) = is_not_found e

-- The guards of `Scale` on what was found of the StatefulSet's storage.
unfoldable pub guard_capacity : Result Quantity → Quantity → Option Error
guard_capacity (err e) desired =
    if is_not_found e then none else some (wrapped "failed to determine existing STS capactiy" e)
guard_capacity (ok existing) desired =
    if existing == 0 && not (desired == 0)
    then some (plain "changing from ephemeral to persistent storage is not supported")
    else if ltb desired existing
    then some (plain "shrinking persistent volumes is not supported")
    else none

-- The body of the loop of `getClusterPVCs` after its read: `rest` is the rest of the loop.
abbrev pub with_claim :
    {W : Type 0}
    → (List PersistentVolumeClaim → Exec W (List PersistentVolumeClaim))
    → List PersistentVolumeClaim
    → Result PersistentVolumeClaim
    → Exec W (List PersistentVolumeClaim)
with_claim rest pvcs (ok pvc) w = rest (pvcs ++ pvc ∷ []) w
with_claim rest pvcs (err e) w =
    if is_not_found e
    then rest pvcs w
    else (err (wrapped "failed to get PVC from Kubernetes API" e), w)

module _ {W : Type 0} (client : ScalerClient W) where
  unfoldable pub get_sts : RabbitmqCluster → Exec W StatefulSet
  get_sts rmq = client.get_stateful_set rmq.namespace (child_resource_name rmq "server")

  unfoldable pub existing_capacity : RabbitmqCluster → Exec W Quantity
  unfolding get_sts
  existing_capacity rmq = do
    sts ← get_sts rmq
    pure (persistence_storage_capacity sts.volume_claim_templates)

  -- The loop of `getClusterPVCs`, with the number of claims that are left and the next index.
  unfoldable pub get_pvcs_from :
      RabbitmqCluster → ℕ → ℕ → List PersistentVolumeClaim → Exec W (List PersistentVolumeClaim)
  get_pvcs_from rmq zero i pvcs w = (ok pvcs, w)
  get_pvcs_from rmq (suc left) i pvcs w =
      let (r, w') = client.get_pvc rmq.namespace (pvc_name rmq i) w in
      with_claim (λ ps. get_pvcs_from rmq left (i + 1) ps) pvcs r w'

  unfoldable pub get_cluster_pvcs : RabbitmqCluster → Exec W (List PersistentVolumeClaim)
  get_cluster_pvcs rmq = get_pvcs_from rmq (Option.get_or rmq.spec.replicas 1) 0 []

  -- One poll of `deleteSts`: is the StatefulSet gone?
  unfoldable pub sts_gone : RabbitmqCluster → W → Bool × W
  unfolding get_sts
  sts_gone rmq w = let (r, w') = get_sts rmq w in (is_absent r, w')

  unfoldable pub delete_and_wait : RabbitmqCluster → StatefulSet → Exec W (Unit {0})
  delete_and_wait rmq sts = do
    or_fail (wrapped ("failed to delete statefulSet " <> sts.name))
        (client.delete_stateful_set sts.namespace sts.name)
    or_fail (wrapped ("statefulSet not deleting after 30 seconds " <> sts.name)) (
        retry_with_interval (client.sleep 3) (plain "failed to delete statefulSet after 10 retries")
          10 (sts_gone rmq))

  -- The three cases of the first read in `deleteSts`.
  unfoldable pub after_get_sts : RabbitmqCluster → Result StatefulSet → Exec W (Unit {0})
  after_get_sts rmq (ok sts) = delete_and_wait rmq sts
  after_get_sts rmq (err e) =
      if is_not_found e
      then pure tt
      else fail (wrapped "failed to get statefulset from Kubernetes API" e)

  unfoldable pub delete_sts : RabbitmqCluster → Exec W (Unit {0})
  delete_sts rmq = do found ← attempt (get_sts rmq); after_get_sts rmq found

  unfoldable pub get_latest : PersistentVolumeClaim → Exec W PersistentVolumeClaim
  get_latest listed =
      or_fail (wrapped "failed to get PVC from Kubernetes API")
        (client.get_pvc listed.namespace listed.name)

  unfoldable pub set_capacity :
      RabbitmqCluster → Quantity → PersistentVolumeClaim → Exec W (Unit {0})
  set_capacity rmq desired pvc =
      or_fail (wrapped ("failed to update PersistentVolumeClaim " <> pvc.name)) (
        client.update_pvc rmq.namespace
          (record pvc { requests = insert "storage" desired pvc.requests }))

  -- One round of the loop of `scaleUpPVCs`: the latest claim is read and written.
  unfoldable pub scale_up_pvc :
      RabbitmqCluster → Quantity → PersistentVolumeClaim → Exec W (Unit {0})
  scale_up_pvc rmq desired listed = do pvc ← get_latest listed; set_capacity rmq desired pvc

  unfoldable pub scale_up_pvcs :
      RabbitmqCluster → List PersistentVolumeClaim → Quantity → Exec W (Unit {0})
  scale_up_pvcs rmq [] desired = pure tt
  scale_up_pvcs rmq (pvc ∷ rest) desired = do
    scale_up_pvc rmq desired pvc
    scale_up_pvcs rmq rest desired

  -- The rest of `Scale` where some claims are too small.
  unfoldable pub delete_and_scale :
      RabbitmqCluster → List PersistentVolumeClaim → Quantity → Exec W (Unit {0})
  delete_and_scale rmq [] desired = pure tt
  delete_and_scale rmq (pvc ∷ rest) desired = do
    or_fail (wrapped "failed to delete Statefulset from Kubernetes API") (delete_sts rmq)
    scale_up_pvcs rmq (pvc ∷ rest) desired

  unfoldable pub scale_pvcs : RabbitmqCluster → Quantity → Exec W (Unit {0})
  scale_pvcs rmq desired = do
    existing ← get_cluster_pvcs rmq
    delete_and_scale rmq (pvcs_needing_scaling existing desired) desired

  unfoldable pub scale : RabbitmqCluster → Quantity → Exec W (Unit {0})
  scale rmq desired = do
    existing ← attempt (existing_capacity rmq)
    unless (guard_capacity existing desired) (scale_pvcs rmq desired)
