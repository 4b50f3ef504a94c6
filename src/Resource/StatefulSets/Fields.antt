-- ===== src/Resource/StatefulSets/Fields.antt =====
-- internal/resource/statefulset.go: what `Update` writes in the fields of a StatefulSet.
use pos_data_showcase.Prelude.{
  ℕ, String, true, false, Option, none, some, List, [], ◌∷◌, ◌≡◌, refl, sym, arith, str_eq, ◌==◌,
  if◌then◌else◌, Bool-cases, inl, inr,
}
use mathlib.Core.Option.{some-injective}
use pos_data_showcase.Prelude.Dict.{Dict, AllEntries, lookup, lookup-insert}
use pos_data_showcase.Kube.Objects.{PersistentVolumeClaim}
use pos_data_showcase.Kube.Pods.{Quantity, ResourceRequirements, PodTemplate}
use pos_data_showcase.Metadata.{label, label_selector}
use pos_data_showcase.Cluster.{RabbitmqCluster}
use pos_data_showcase.Scaling.{persistence_storage_capacity}
use pos_data_showcase.Resource.PodTemplate.{template_from, template_with}
use pos_data_showcase.Resource.PodTemplate.Mounted.{claim_named}
use pos_data_showcase.Kube.Objects.{StatefulSet}
use pos_data_showcase.Kube.Outcome.{returned}
use pos_data_showcase.Resource.StatefulSets.{
  Packages, update_persistence_storage_capacity, has_requests, written_fields, update_fields,
}

pub claim_named-update :
    (n : String) (ts : List PersistentVolumeClaim) (q : Quantity)
    → claim_named n (update_persistence_storage_capacity ts q) ≡ claim_named n ts
unfolding claim_named update_persistence_storage_capacity
claim_named-update n [] q = refl
claim_named-update n (t ∷ ts) q = elim (Bool-cases (str_eq t.name "persistence")) [
  | inl h ↦ rw (h, claim_named-update n ts q) refl
  | inr h ↦ rw (h, claim_named-update n ts q) refl
]

persistence_storage_capacity-update :
    (ts : List PersistentVolumeClaim) (q : Quantity)
    → persistence_storage_capacity (update_persistence_storage_capacity ts q)
      ≡ (if claim_named "persistence" ts then q else 0)
unfolding claim_named update_persistence_storage_capacity persistence_storage_capacity
persistence_storage_capacity-update [] q = refl
persistence_storage_capacity-update (t ∷ ts) q = elim (Bool-cases (str_eq t.name "persistence")) [
  | inl h ↦ rw h (rw h (rw (lookup-insert "storage" "storage" q t.requests) refl))
  | inr h ↦ rw h (rw h (persistence_storage_capacity-update ts q))
]

-- With a claim of the name wherever there is storage, the claim templates have that storage.
pub capacity-update :
    (ts : List PersistentVolumeClaim) (q : Quantity)
    → (q == 0 ≡ false → claim_named "persistence" ts ≡ true)
    → persistence_storage_capacity (update_persistence_storage_capacity ts q) ≡ q
capacity-update ts q h = ground (arith, h, persistence_storage_capacity-update ts q)

pub template_from-eq-some :
    (parse : String → Quantity) (c : RabbitmqCluster) (previous : Dict String)
    (storage : Option Quantity) (resources : Option ResourceRequirements) (seconds : Option ℕ)
    (t : PodTemplate)
    → template_from parse c previous storage resources seconds ≡ some t
    → (q : Quantity) × (r : ResourceRequirements) × (n : ℕ) × (storage ≡ some q)
      × (t ≡ template_with parse c previous q r n)
unfolding template_from
template_from-eq-some parse c previous none resources seconds t e = absurd (cc e)
template_from-eq-some parse c previous (some q) none seconds t e = absurd (cc e)
template_from-eq-some parse c previous (some q) (some r) none t e = absurd (cc e)
template_from-eq-some parse c previous (some q) (some r) (some n) t e =
    (q, r, n, refl, sym (some-injective _ t e))

pub label-selected :
    (n : String) → AllEntries (λ k v. lookup k (label n) ≡ some v) (label_selector n)
unfolding label label_selector lookup
label-selected n = (refl, tt)

-- Where the fields are written, there were requests to write to.
pub update_fields-eq-returned :
    (pkg : Packages) (c : RabbitmqCluster) (s s' : StatefulSet)
    → update_fields pkg c s ≡ returned s'
    → (has_requests s.volume_claim_templates ≡ true) × (written_fields pkg c s ≡ returned s')
unfolding update_fields
update_fields-eq-returned pkg c s s' e = elim (Bool-cases (has_requests s.volume_claim_templates)) [
  | inl h ↦ (h, rw (h, update_fields) at e)
  | inr h ↦ absurd (cc (rw (h, update_fields) at e))
]
