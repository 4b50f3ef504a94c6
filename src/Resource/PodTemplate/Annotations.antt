-- ===== src/Resource/PodTemplate/Annotations.antt =====
-- internal/resource/statefulset.go: what a reader finds in the annotations of a pod with Vault.
use pos_data_showcase.Prelude.{
  ℕ, String, Bool, true, false, Option, none, some, [], ◌∷◌, ◌≡◌, refl, ◌∙◌, ap, if◌then◌else◌,
}
use pos_data_showcase.Prelude.Dict.{Dict, NodupKeys, lookup, insert-NodupKeys}
use pos_data_showcase.Kube.Pods.{Quantity, ResourceRequirements}
use pos_data_showcase.Metadata.{reconcile_annotations, merge_with_filter}
use pos_data_showcase.Metadata.Laws.{lookup-merge_with_filter, or_else, merge_one-NodupKeys}
use pos_data_showcase.Cluster.{
  RabbitmqCluster, VaultSpec, default_user_secret_enabled, vault_spec_tls_enabled,
}
use pos_data_showcase.Resource.Vault.{
  vault_annotations, append_vault_annotations, inject, add_default_user, add_tls, add_tls_file,
}
use pos_data_showcase.Resource.PodTemplate.{default_pod_annotations, template_with}

inject-NodupKeys :
    (file dir secret template : String) (m : Dict String)
    → NodupKeys m
    → NodupKeys (inject file dir secret template m)
unfolding inject
inject-NodupKeys file dir secret template m u =
    insert-NodupKeys _ template _ (insert-NodupKeys _ secret _ (insert-NodupKeys _ dir m u))

if-NodupKeys :
    (b : Bool) (m n : Dict String) → NodupKeys m → NodupKeys n → NodupKeys (if b then m else n)
if-NodupKeys true m n u w = u
if-NodupKeys false m n u w = w

add_tls-NodupKeys :
    (c : RabbitmqCluster) (v : VaultSpec) (m : Dict String)
    → NodupKeys m
    → NodupKeys (add_tls c v m)
unfolding add_tls add_tls_file
add_tls-NodupKeys c v m u =
    inject-NodupKeys _ _ _ _ _ (inject-NodupKeys _ _ _ _ _ (inject-NodupKeys _ _ _ _ m u))

add_default_user-NodupKeys :
    (v : VaultSpec) (m : Dict String) → NodupKeys m → NodupKeys (add_default_user v m)
unfolding add_default_user
add_default_user-NodupKeys v m u = insert-NodupKeys _ _ _ (inject-NodupKeys _ _ _ _ m u)

vault_annotations-NodupKeys :
    (c : RabbitmqCluster) (v : VaultSpec) → NodupKeys (vault_annotations c v)
unfolding vault_annotations lookup
vault_annotations-NodupKeys c v =
    let common : NodupKeys (
        ("vault.hashicorp.com/agent-inject", "true")
        ∷ ("vault.hashicorp.com/agent-init-first", "true")
        ∷ ("vault.hashicorp.com/role", v.role)
        ∷ []) =
      (refl, (refl, (refl, tt))) in
    let user =
      if-NodupKeys (default_user_secret_enabled v) _ _ (add_default_user-NodupKeys v _ common)
        common in
    if-NodupKeys (vault_spec_tls_enabled v) _ _ (add_tls-NodupKeys c v _ user) user

append_vault_annotations-NodupKeys :
    (c : RabbitmqCluster) (v : VaultSpec) → NodupKeys (append_vault_annotations [] c v)
unfolding append_vault_annotations reconcile_annotations merge_with_filter
append_vault_annotations-NodupKeys c v =
    merge_one-NodupKeys (λ _. true) _ v.annotations
      (merge_one-NodupKeys (λ _. true) [] (vault_annotations c v) tt)

or_else-none : (o : Option String) → or_else o none ≡ o
or_else-none none = refl
or_else-none (some s) = refl

lookup-append_vault_annotations :
    (c : RabbitmqCluster) (v : VaultSpec) (k : String)
    → NodupKeys v.annotations
    → lookup k (append_vault_annotations [] c v)
      ≡ or_else (lookup k v.annotations) (lookup k (vault_annotations c v))
unfolding append_vault_annotations reconcile_annotations lookup
lookup-append_vault_annotations c v k u =
    lookup-merge_with_filter (λ _. true) [] (vault_annotations c v ∷ v.annotations ∷ []) k
      (vault_annotations-NodupKeys c v, (u, tt))
    ∙ ap (or_else (lookup k v.annotations)) (or_else-none (lookup k (vault_annotations c v)))

or_else_assoc : (a b c : Option String) → or_else (or_else a b) c ≡ or_else a (or_else b c)
or_else_assoc none b c = refl
or_else_assoc (some s) b c = refl

lookup-with_vault :
    (c : RabbitmqCluster) (v : VaultSpec) (previous : Dict String) (k : String)
    → NodupKeys v.annotations
    → lookup k (reconcile_annotations previous (default_pod_annotations c (some v) ∷ []))
      ≡ or_else
          (lookup k v.annotations)
          (or_else (lookup k (vault_annotations c v)) (lookup k previous))
unfolding default_pod_annotations reconcile_annotations
lookup-with_vault c v previous k u =
    lookup-merge_with_filter (λ _. true) previous (append_vault_annotations [] c v ∷ []) k
      (append_vault_annotations-NodupKeys c v, tt)
    ∙ ap (λ o. or_else o (lookup k previous)) (lookup-append_vault_annotations c v k u)
    ∙ or_else_assoc (lookup k v.annotations) (lookup k (vault_annotations c v)) (lookup k previous)

-- For a cluster with Vault, a reader of the annotations of the pod template finds under each key the
-- annotation of the user's Vault settings, in which no key stands twice, else the one that the
-- operator writes for Vault, else what stood there before.
lookup-pod_annotations :
    (parse : String → Quantity) (c : RabbitmqCluster) (vault : VaultSpec) (previous : Dict String)
    (storage : Quantity) (resources : ResourceRequirements) (seconds : ℕ) (k : String)
    → c.spec.secret_backend.vault ≡ some vault
    → NodupKeys vault.annotations
    → lookup k (template_with parse c previous storage resources seconds).annotations
      ≡ or_else
          (lookup k vault.annotations)
          (or_else (lookup k (vault_annotations c vault)) (lookup k previous))
unfolding template_with
lookup-pod_annotations parse c vault previous storage resources seconds k has u =
    ap (λ o. lookup k (reconcile_annotations previous (default_pod_annotations c o ∷ []))) has
    ∙ lookup-with_vault c vault previous k u
