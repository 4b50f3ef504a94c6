-- ===== src/Metadata.antt =====
-- internal/metadata/label.go and annotation.go: the labels and annotations of the child resources.
pub mod Laws
use pos_data_showcase.Prelude.{
  String, Bool, true, not, ◌||◌, Option, none, some, List, [], ◌∷◌, starts_with, find?,
  if◌then◌else◌,
}
use pos_data_showcase.Prelude.Dict.{Dict, insert}

unfoldable pub label : String → Dict String
label instance_name =
    ("app.kubernetes.io/name", instance_name)
    ∷ ("app.kubernetes.io/component", "rabbitmq")
    ∷ ("app.kubernetes.io/part-of", "rabbitmq")
    ∷ []

-- `strings.HasPrefix(label, "app.kubernetes.io")`
abbrev pub is_reserved_label : String → Bool
is_reserved_label k = starts_with k "app.kubernetes.io"

-- The loop of `GetLabels`, over the map that it fills.
unfoldable pub add_labels : Dict String → Dict String → Dict String
add_labels all [] = all
add_labels all ((k, v) ∷ rest) =
    add_labels (if not (is_reserved_label k) then insert k v all else all) rest

unfoldable pub get_labels : String → Dict String → Dict String
get_labels instance_name instance_labels = add_labels (label instance_name) instance_labels

unfoldable pub label_selector : String → Dict String
label_selector instance_name = ("app.kubernetes.io/name", instance_name) ∷ []

-- `strings.Contains`
abbrev pub contains_text : String → String → Bool
contains_text s t = elim (find? s t) [ none ↦ Bool.false | some _ ↦ true ]

unfoldable pub is_kubernetes_annotation : String → Bool
is_kubernetes_annotation k = contains_text k "kubernetes.io" || contains_text k "k8s.io"

unfoldable pub is_not_kubernetes_annotation : String → Bool
is_not_kubernetes_annotation k = not (is_kubernetes_annotation k)

-- The inner loop of `mergeWithFilter`: one map is written over the result.
unfoldable pub merge_one : (String → Bool) → Dict String → Dict String → Dict String
merge_one keep result [] = result
merge_one keep result ((k, v) ∷ rest) =
    merge_one keep (if keep k then insert k v result else result) rest

unfoldable pub merge_with_filter : (String → Bool) → Dict String → List (Dict String) → Dict String
merge_with_filter keep base [] = base
merge_with_filter keep base (m ∷ maps) = merge_with_filter keep (merge_one keep base m) maps

unfoldable pub reconcile_annotations : Dict String → List (Dict String) → Dict String
reconcile_annotations existing defaults = merge_with_filter (λ _. true) existing defaults

unfoldable pub reconcile_and_filter_annotations : Dict String → List (Dict String) → Dict String
reconcile_and_filter_annotations existing defaults =
    merge_with_filter is_not_kubernetes_annotation existing defaults
