-- ===== src/Scaling/Claims.antt =====
-- internal/scaling/scaling.go: what the scaler relies on of the API's claims, and the steps of `Scale`
-- that change no claim.

use pos_data_showcase.Prelude.{
  ℕ, zero, suc, ◌≡◌, refl, ◌∙◌, Bool, true, inl, inr, if◌then◌else◌, Option, none, some, String,
  ◌<>◌, str_eq, ◌&&◌, Bool-cases,
}
use pos_data_showcase.Kube.Objects.{StatefulSet, PersistentVolumeClaim}
use pos_data_showcase.Kube.Error.{Error, plain, wrapped, is_not_found}
use pos_data_showcase.Kube.Exec.{ok, err, Result, or_fail, attempt}
use pos_data_showcase.Kube.Exec.Inversion.{Keeps, Keeps-bind}
use pos_data_showcase.Cluster.{RabbitmqCluster, child_resource_name}
use pos_data_showcase.Scaling.{
  ScalerClient, get_sts, existing_capacity, retry_with_interval, sts_gone, delete_and_wait,
  after_get_sts, delete_sts,
}

-- What the scaler relies on of the API: `stored` is the claim under a namespace and a name. A read
-- changes no claim and tells the stored one, or truly that there is none; an update that succeeds
-- stores the claim under its name and leaves the others; a StatefulSet is read, and deleted with
-- the policy Orphan, without an effect on claims. A call may always fail with another error.
pub record PvcLaws {W : Type 0} (client : ScalerClient W) : Type 0 where
  pub stored : W → String → String → Option PersistentVolumeClaim
  pub stored_name :
      (w : W) (ns n : String) (p : PersistentVolumeClaim)
      → stored w ns n ≡ some p
      → (p.name ≡ n) × (p.namespace ≡ ns)
  pub get_pvc_keeps : (ns n : String) → Keeps stored (client.get_pvc ns n)
  pub get_pvc_found :
      (ns n : String) (p : PersistentVolumeClaim) (w : W)
      → (client.get_pvc ns n w).0 ≡ ok p
      → stored w ns n ≡ some p
  pub get_pvc_absent :
      (ns n : String) (e : Error) (w : W)
      → (client.get_pvc ns n w).0 ≡ err e
      → is_not_found e ≡ true
      → stored w ns n ≡ none
  pub update_pvc_stores :
      (ns ns' n : String) (p : PersistentVolumeClaim) (w : W)
      → (client.update_pvc ns p w).0 ≡ ok tt
      → stored (client.update_pvc ns p w).1 ns' n
        ≡ (if str_eq ns ns' && str_eq p.name n then some p else stored w ns' n)
  pub get_stateful_set_keeps : (ns n : String) → Keeps stored (client.get_stateful_set ns n)
  pub delete_stateful_set_keeps : (ns n : String) → Keeps stored (client.delete_stateful_set ns n)
  pub sleep_keeps : (t : ℕ) (w : W) → stored (client.sleep t w) ≡ stored w

module _ {W : Type 0} (client : ScalerClient W) (laws : PvcLaws client) where
  open laws use {
    stored, stored_name, get_pvc_keeps, get_pvc_found, get_pvc_absent, update_pvc_stores,
    get_stateful_set_keeps, delete_stateful_set_keeps, sleep_keeps,
  }

  retry-Keeps :
      (interval : ℕ) (failure : Error) (n : ℕ) (f : W → Bool × W)
      → ((w : W) → stored (f w).1 ≡ stored w)
      → Keeps stored (retry_with_interval (client.sleep interval) failure n f)
  unfolding retry_with_interval
  retry-Keeps interval failure zero f k w = refl
  retry-Keeps interval failure (suc n) f k w = elim (Bool-cases (f w).0) [
    | inl e ↦ rw (e, retry_with_interval) (k w)
    | inr e ↦
        rw (e, retry_with_interval)
          (retry-Keeps interval failure n f k (client.sleep interval (f w).1)
            ∙ sleep_keeps interval (f w).1
            ∙ k w)
  ]

  after_get_sts-Keeps :
      (rmq : RabbitmqCluster) (r : Result StatefulSet) → Keeps stored (after_get_sts client rmq r)
  unfolding after_get_sts delete_and_wait sts_gone get_sts
  after_get_sts-Keeps rmq (ok sts) w =
      Keeps-bind stored
        (or_fail (wrapped ("failed to delete statefulSet " <> sts.name))
          (client.delete_stateful_set sts.namespace sts.name))
        _ (delete_stateful_set_keeps sts.namespace sts.name)
        (λ _.
          retry-Keeps 3 (plain "failed to delete statefulSet after 10 retries") 10
            (sts_gone client rmq)
            (get_stateful_set_keeps rmq.namespace (child_resource_name rmq "server")))
        w
  after_get_sts-Keeps rmq (err e) w = elim (Bool-cases (is_not_found e)) [
    | inl h ↦ rw (h, after_get_sts)
    | inr h ↦ rw (h, after_get_sts)
  ]

  pub delete_sts-Keeps : (rmq : RabbitmqCluster) → Keeps stored (delete_sts client rmq)
  unfolding delete_sts get_sts
  delete_sts-Keeps rmq =
      Keeps-bind stored (attempt (get_sts client rmq)) (after_get_sts client rmq)
        (get_stateful_set_keeps rmq.namespace (child_resource_name rmq "server"))
        (after_get_sts-Keeps rmq)

  pub existing_capacity-Keeps :
      (rmq : RabbitmqCluster) → Keeps stored (existing_capacity client rmq)
  unfolding existing_capacity get_sts
  existing_capacity-Keeps rmq =
      Keeps-bind stored (get_sts client rmq) _
        (get_stateful_set_keeps rmq.namespace (child_resource_name rmq "server")) (λ _ _. refl)
