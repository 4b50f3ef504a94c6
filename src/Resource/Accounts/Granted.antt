-- ===== src/Resource/Accounts/Granted.antt =====
-- internal/resource/service_account.go, role.go, role_binding.go and statefulset.go: what the API
-- server lets the pods of a cluster do.
use pos_data_showcase.Prelude.{
  String, Bool, false, some, List, [], ◌∷◌, ◌≡◌, sym, ap, ◌∙◌, str_eq, eq_refl, ◌&&◌, ◌||◌, arith,
}
use pos_data_showcase.Prelude.Dict.{Dict}
use pos_data_showcase.Kube.Error.{wrapped}
use pos_data_showcase.Kube.Exec.{ok, wrap-eq-ok}
use pos_data_showcase.Kube.Pods.{Quantity, PodTemplate}
use pos_data_showcase.Kube.Rbac.{ServiceAccount, PolicyRule, Role, Subject, RoleBinding}
use pos_data_showcase.Cluster.{RabbitmqCluster, child_resource_name}
use pos_data_showcase.Resource.PodTemplate.{pod_template_spec, template_with}
use pos_data_showcase.Resource.StatefulSets.Fields.{template_from-eq-some}
use pos_data_showcase.Resource.Accounts.{
  References, build_service_account, build_role, build_role_binding, update_service_account,
  update_role, update_role_binding, peer_discovery_rules, role_name, service_account_name,
}

abbrev pub lists_text : String → List String → Bool
lists_text t [] = false
lists_text t (x ∷ xs) = str_eq x t || lists_text t xs

abbrev pub rules_allow : String → String → String → List PolicyRule → Bool
rules_allow group resource verb [] = false
rules_allow group resource verb (r ∷ rest) =
    (lists_text group r.api_groups && lists_text resource r.resources && lists_text verb r.verbs)
    || rules_allow group resource verb rest

abbrev pub has_subject : String → List Subject → Bool
has_subject account [] = false
has_subject account (s ∷ rest) =
    (str_eq s.kind "ServiceAccount" && str_eq s.name account) || has_subject account rest

-- What the role of a namespace allows an account of the namespace through a binding there.
abbrev pub is_granted : RoleBinding → Role → String → String → String → String → Bool
is_granted binding role account group resource verb =
    str_eq binding.namespace role.namespace
    && str_eq binding.role_ref.kind "Role"
    && str_eq binding.role_ref.name role.name
    && has_subject account binding.subjects
    && rules_allow group resource verb role.rules

-- A controller reference changes nothing but the owner of the object.
pub record ReferenceLaws (refs : References) : Type 0 where
  pub account_kept :
      (c : RabbitmqCluster) (a a' : ServiceAccount)
      → refs.set_account c a ≡ ok a'
      → a' ≡ record a { controller = a'.controller }
  pub role_kept :
      (c : RabbitmqCluster) (r r' : Role)
      → refs.set_role c r ≡ ok r'
      → r' ≡ record r { controller = r'.controller }
  pub binding_kept :
      (c : RabbitmqCluster) (b b' : RoleBinding)
      → refs.set_binding c b ≡ ok b'
      → b' ≡ record b { controller = b'.controller }

pod_account :
    (parse : String → Quantity) (c : RabbitmqCluster) (previous : Dict String) (t : PodTemplate)
    → pod_template_spec parse c previous ≡ some t
    → t.spec.service_account_name ≡ child_resource_name c service_account_name
unfolding pod_template_spec template_with
pod_account parse c previous t e =
    let (q, r, n, has, same) =
      template_from-eq-some parse c previous c.spec.persistence.storage c.spec.resources
        c.spec.termination_grace_period_seconds t e in
    ap (λ (x : PodTemplate). x.spec.service_account_name) same

module _ (refs : References) (laws : ReferenceLaws refs) where
  open laws use {account_kept, role_kept, binding_kept}

  updated_account :
      (c : RabbitmqCluster) (a a' : ServiceAccount)
      → update_service_account refs c a ≡ ok a'
      → (a'.name ≡ a.name) × (a'.namespace ≡ a.namespace)
  unfolding update_service_account
  updated_account c a a' e =
      let same =
        account_kept c _ a' (wrap-eq-ok (wrapped "failed setting controller reference") _ e) in
      (ap (λ (x : ServiceAccount). x.name) same, ap (λ (x : ServiceAccount). x.namespace) same)

  updated_role :
      (c : RabbitmqCluster) (r r' : Role)
      → update_role refs c r ≡ ok r'
      → (r'.name ≡ r.name) × (r'.namespace ≡ r.namespace) × (r'.rules ≡ peer_discovery_rules)
  unfolding update_role
  updated_role c r r' e =
      let same =
        role_kept c _ r' (wrap-eq-ok (wrapped "failed setting controller reference") _ e) in
      (
        ap (λ (x : Role). x.name) same,
        ap (λ (x : Role). x.namespace) same,
        ap (λ (x : Role). x.rules) same,
      )

  updated_binding :
      (c : RabbitmqCluster) (b b' : RoleBinding)
      → update_role_binding refs c b ≡ ok b'
      → (b'.namespace ≡ b.namespace)
        × (b'.role_ref.kind ≡ "Role")
        × (b'.role_ref.name ≡ child_resource_name c role_name)
        × (b'.subjects
            ≡ record { kind = "ServiceAccount"; name = child_resource_name c service_account_name }
              ∷ [])
  unfolding update_role_binding
  updated_binding c b b' e =
      let same =
        binding_kept c _ b' (wrap-eq-ok (wrapped "failed setting controller reference") _ e) in
      (
        ap (λ (x : RoleBinding). x.namespace) same,
        ap (λ (x : RoleBinding). x.role_ref.kind) same,
        ap (λ (x : RoleBinding). x.role_ref.name) same,
        ap (λ (x : RoleBinding). x.subjects) same,
      )

  -- With `ReferenceLaws`: where `Update` succeeds for the service account, the role and the binding
  -- of a cluster, each with the name and the namespace that its `Build` gives it and whatever else
  -- it held, the account of the pod template is that service account, in the namespace of the
  -- binding, and what the role allows it through the binding is to get endpoints and to create
  -- events, and no more.
  pub pod_template_spec-granted :
      (parse : String → Quantity) (c : RabbitmqCluster) (previous : Dict String) (t : PodTemplate)
      (a a' : ServiceAccount) (r r' : Role) (b b' : RoleBinding) (group resource verb : String)
      → (a.name ≡ (build_service_account c).name)
        × (a.namespace ≡ (build_service_account c).namespace)
      → (r.name ≡ (build_role c).name) × (r.namespace ≡ (build_role c).namespace)
      → b.namespace ≡ (build_role_binding c).namespace
      → pod_template_spec parse c previous ≡ some t
      → update_service_account refs c a ≡ ok a'
      → update_role refs c r ≡ ok r'
      → update_role_binding refs c b ≡ ok b'
      → (a'.name ≡ t.spec.service_account_name)
        × (a'.namespace ≡ b'.namespace)
        × (is_granted b' r' t.spec.service_account_name group resource verb ≡ (
            str_eq "" group
            && ((str_eq "endpoints" resource && str_eq "get" verb)
                || (str_eq "events" resource && str_eq "create" verb))))
  unfolding build_service_account build_role build_role_binding
  pod_template_spec-granted parse c previous t a a' r r' b b' group resource verb named_a named_r
        named_b made ea er eb =
      let account = pod_account parse c previous t made in
      let (a1, a2) = updated_account c a a' ea in
      let (r1, r2, r3) = updated_role c r r' er in
      let (b1, b2, b3, b4) = updated_binding c b b' eb in
      (
        a1 ∙ named_a.0 ∙ sym account,
        a2 ∙ named_a.1 ∙ sym (b1 ∙ named_b),
        rw
            (
              account, b1, named_b, r2, named_r.1, b2, b3, b4, r1, named_r.0, r3, eq_refl, eq_refl,
              eq_refl,
            )
            (ground arith),
      )
