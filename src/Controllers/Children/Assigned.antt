-- ===== src/Controllers/Children/Assigned.antt =====
-- internal/resource: the maps of the objects that `Build` returns.
use pos_data_showcase.Prelude.{
  String, true, none, some, List, [], ◌∷◌, ◌∙◌, ◌≡◌, refl, ◌==◌, Bool-cases, inl, inr, sym, ap,
}
use pos_data_showcase.Prelude.Dict.{Dict, lookup}
use pos_data_showcase.Kube.Error.{wrapped}
use pos_data_showcase.Kube.Exec.{Result}
use pos_data_showcase.Kube.Outcome.{
  returned, deref, or_failed, or_failed-eq-returned, returned-injective, >>=-eq-returned,
}
use pos_data_showcase.Kube.Objects.{StatefulSet, Secret, PersistentVolumeClaim}
use pos_data_showcase.Kube.Pods.{Quantity}
use pos_data_showcase.Cluster.{RabbitmqCluster}
use pos_data_showcase.Resource.Ini.{IniPackage}
use pos_data_showcase.Resource.DefaultUser.Secret.{
  default_user_content, default_user_secret_of, generate_username, generate_default_user_conf,
  build_default_user,
}
use pos_data_showcase.Resource.StatefulSets.{
  Packages, build, has_entries, has_requests, override_fixed, new_stateful_set,
  disable_block_owner_deletion, persistent_volume_claim, claims_for, owned_claim, new_claim,
}
use pos_data_showcase.Resource.DefaultUser.{update_secret_ports}
use pos_data_showcase.Resource.DefaultUser.Kept.{lookup-update_secret_ports}
use pos_data_showcase.Resource.StatefulSets.Startable.{PackageLaws}

has_entries-lookup :
    (k : String) (m : Dict String) {v : String} → lookup k m ≡ some v → has_entries m ≡ true
unfolding lookup
has_entries-lookup k [] e = absurd (cc e)
has_entries-lookup k (x ∷ m) e = refl

-- The secret that `Build` returns has Data.
pub build_default_user-has_entries :
    {F : Type 0} (ini : IniPackage F) (first second : Result String) (c : RabbitmqCluster)
    (s : Secret)
    → build_default_user ini first second c ≡ returned s
    → has_entries s.content ≡ true
unfolding build_default_user default_user_content default_user_secret_of lookup
build_default_user-has_entries ini first second c s e =
    let (u, made_u, e1) = >>=-eq-returned (generate_username first) _ e in
    let (p, made_p, e2) = >>=-eq-returned (or_failed (λ e. e) second) _ e1 in
    let (conf, made_c, e3) = >>=-eq-returned (generate_default_user_conf ini u p) _ e2 in
    let content = default_user_content c u p conf in
    ap (λ (x : Secret). has_entries x.content)
      (sym (returned-injective (default_user_secret_of c content) s e3))
    ∙ has_entries-lookup "username" (update_secret_ports c content) {v = u}
        (lookup-update_secret_ports "username" c content refl)

-- The claim templates that `Build` makes have requests.
owned_claim-has_requests :
    (pkg : Packages) (laws : PackageLaws pkg) (c : RabbitmqCluster) (q : Quantity)
    (ts : List PersistentVolumeClaim)
    → owned_claim pkg c q ≡ returned ts
    → has_requests ts ≡ true
unfolding owned_claim new_claim disable_block_owner_deletion has_requests
owned_claim-has_requests pkg laws c q ts e =
    let (pvc, owned, e1) =
      >>=-eq-returned
        (or_failed (wrapped "failed setting controller reference")
          (pkg.set_claim_controller c (new_claim pkg c q)))
        _ e in
    let same =
      laws.claim_kept c (new_claim pkg c q) pvc
        (or_failed-eq-returned (wrapped "failed setting controller reference") _ owned) in
    ap has_requests (sym (returned-injective _ ts e1))
    ∙ ap (λ (x : PersistentVolumeClaim). has_requests (disable_block_owner_deletion x ∷ [])) same

claims_for-has_requests :
    (pkg : Packages) (laws : PackageLaws pkg) (c : RabbitmqCluster) (q : Quantity)
    (ts : List PersistentVolumeClaim)
    → claims_for pkg c q ≡ returned ts
    → has_requests ts ≡ true
unfolding claims_for has_requests
claims_for-has_requests pkg laws c q ts e = elim (Bool-cases (q == pkg.parse_quantity "0Gi")) [
  | inl z ↦ ap has_requests (sym (returned-injective [] ts (rw (z, claims_for) at e)))
  | inr z ↦ owned_claim-has_requests pkg laws c q ts (rw (z, claims_for) at e)
]

pub build-has_requests :
    (pkg : Packages) (laws : PackageLaws pkg) (c : RabbitmqCluster) (s : StatefulSet)
    → c.spec.override.stateful_set ≡ none
    → build pkg c ≡ returned s
    → has_requests s.volume_claim_templates ≡ true
unfolding build persistent_volume_claim override_fixed new_stateful_set
build-has_requests pkg laws c s plain e =
    let (ts, made, e1) = >>=-eq-returned (persistent_volume_claim pkg c) _ e in
    let (q, has, e2) = >>=-eq-returned (deref c.spec.persistence.storage) (claims_for pkg c) made in
    ap (λ (x : StatefulSet). has_requests x.volume_claim_templates)
      (sym (returned-injective _ s e1) ∙ ap (λ o. override_fixed o (new_stateful_set c ts)) plain)
    ∙ claims_for-has_requests pkg laws c q ts e2
