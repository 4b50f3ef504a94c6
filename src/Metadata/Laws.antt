-- ===== src/Metadata/Laws.antt =====
-- What a reader finds in the labels and annotations that internal/metadata/label.go and
-- annotation.go build.
use pos_data_showcase.Prelude.{
  ◌≡◌, refl, sym, ap, ◌∙◌, inl, inr, String, Bool, true, false, not, Option, none, some, List, [],
  ◌∷◌, arith, str_eq, eq_iff, Bool-cases, All, if◌then◌else◌,
}
use mathlib.Core.Bool.{false≢true}
use pos_data_showcase.Prelude.Dict
use pos_data_showcase.Prelude.Dict.{Dict, NodupKeys, lookup, lookup-insert, insert-NodupKeys}
use pos_data_showcase.Metadata.{
  merge_one, merge_with_filter, add_labels, label, get_labels, is_reserved_label,
  is_kubernetes_annotation, is_not_kubernetes_annotation, reconcile_and_filter_annotations,
}

abbrev pub or_else {ℓ} : {A : Type ℓ} → Option A → Option A → Option A
or_else (some a) o = some a
or_else none o = o

pub lookup-merge_one :
    (keep : String → Bool) (result m : Dict String) (k : String)
    → NodupKeys m
    → lookup k (merge_one keep result m)
      ≡ (if keep k then or_else (lookup k m) (lookup k result) else lookup k result)
unfolding merge_one lookup
lookup-merge_one keep result [] k u = ground arith
lookup-merge_one keep result ((j, v) ∷ m) k (fresh, u) = ground (
  arith,
  eq_iff j k,
  lookup-merge_one keep (if keep j then Dict.insert j v result else result) m k u,
  lookup-insert k j v result,
)

pub merge_one-NodupKeys :
    (keep : String → Bool) (result m : Dict String)
    → NodupKeys result
    → NodupKeys (merge_one keep result m)
unfolding merge_one
merge_one-NodupKeys keep result [] u = u
merge_one-NodupKeys keep result ((k, v) ∷ m) u =
    merge_one-NodupKeys keep (if keep k then Dict.insert k v result else result) m
      (elim (Bool-cases (keep k)) [ inl h ↦ rw h (insert-NodupKeys k v result u) | inr h ↦ rw h u ])

-- The last of the maps that has the key, else what stood there.
abbrev pub last_value : String → List (Dict String) → Option String → Option String
last_value k [] o = o
last_value k (m ∷ maps) o = last_value k maps (or_else (lookup k m) o)

pub lookup-merge_with_filter :
    (keep : String → Bool) (base : Dict String) (maps : List (Dict String)) (k : String)
    → All NodupKeys maps
    → lookup k (merge_with_filter keep base maps)
      ≡ (if keep k then last_value k maps (lookup k base) else lookup k base)
unfolding merge_with_filter
lookup-merge_with_filter keep base [] k u = ground arith
lookup-merge_with_filter keep base (m ∷ maps) k (u, us) =
    lookup-merge_with_filter keep (merge_one keep base m) maps k us
    ∙ ground (arith, lookup-merge_one keep base m k u)

-- Of what `ReconcileAndFilterAnnotations` returns: the annotations that a resource already has keep
-- each key of Kubernetes itself (one with "kubernetes.io" or "k8s.io" in it) as it was, whatever
-- the given maps hold; under any other key a reader finds the value of the last given map that has
-- the key, and what stood there if none has. In no given map does a key stand twice.
pub lookup-reconcile_and_filter_annotations :
    (existing : Dict String) (maps : List (Dict String)) (k : String)
    → All NodupKeys maps
    → lookup k (reconcile_and_filter_annotations existing maps) ≡ (
        if is_kubernetes_annotation k
        then lookup k existing
        else last_value k maps (lookup k existing))
unfolding reconcile_and_filter_annotations is_not_kubernetes_annotation
lookup-reconcile_and_filter_annotations existing maps k u =
    ground (arith, lookup-merge_with_filter is_not_kubernetes_annotation existing maps k u)

-- The loop of `GetLabels` is the loop of `mergeWithFilter` with another test.
add_labels-eq-merge_one :
    (all m : Dict String) → add_labels all m ≡ merge_one (λ k. not (is_reserved_label k)) all m
unfolding add_labels merge_one
add_labels-eq-merge_one all [] = refl
add_labels-eq-merge_one all ((k, v) ∷ m) =
    add_labels-eq-merge_one (if not (is_reserved_label k) then Dict.insert k v all else all) m

not_reserved_differs :
    (j k : String) → is_reserved_label j ≡ true → is_reserved_label k ≡ false → str_eq j k ≡ false
not_reserved_differs j k h n = elim (Bool-cases (str_eq j k)) [
  | inl e ↦ absurd (false≢true (sym n ∙ sym (ap is_reserved_label ((eq_iff j k).0 e)) ∙ h))
  | inr e ↦ e
]

lookup-label : (n k : String) → is_reserved_label k ≡ false → lookup k (label n) ≡ none
unfolding label lookup
lookup-label n k h = rw (
  not_reserved_differs "app.kubernetes.io/name" k refl h,
  not_reserved_differs "app.kubernetes.io/component" k refl h,
  not_reserved_differs "app.kubernetes.io/part-of" k refl h,
)

-- The labels of a child resource: under a key that starts with "app.kubernetes.io" stands the
-- operator's own label, if it has one, whatever the labels of the cluster object are; under any
-- other key stands the label of the cluster object, in whose labels no key stands twice.
pub lookup-get_labels :
    (instance_name : String) (instance_labels : Dict String) (k : String)
    → NodupKeys instance_labels
    → lookup k (get_labels instance_name instance_labels)
      ≡ (if is_reserved_label k then lookup k (label instance_name) else lookup k instance_labels)
unfolding get_labels
lookup-get_labels n m k u = ground (
  arith,
  add_labels-eq-merge_one (label n) m,
  lookup-merge_one (λ k. not (is_reserved_label k)) (label n) m k u,
  lookup-label n k,
)
