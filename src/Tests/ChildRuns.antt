-- ===== src/Tests/ChildRuns.antt =====
-- The account, the role and the headless service of a sample cluster.
use pos_data_showcase.Prelude.{true, some, [], ◌≡◌, refl, str_eq, ◌&&◌, ◌||◌}
use mathlib.Core.Path.{subst}
use pos_data_showcase.Prelude.Dict.{AllEntries, lookup}
use pos_data_showcase.Kube.Exec.{Result, ok, err}
use pos_data_showcase.Kube.Pods.{PodTemplate}
use pos_data_showcase.Kube.Services.{Service}
use pos_data_showcase.Kube.Rbac.{ServiceAccount, Role, RoleBinding}
use pos_data_showcase.Cluster.{RabbitmqCluster}
use pos_data_showcase.Resource.PodTemplate.{template_with, pod_template_spec, template_from}
use pos_data_showcase.Prelude.Strings.{trim_prefix}
use pos_data_showcase.Resource.Vault.{pod_host_names, replicas_or_one}
use pos_data_showcase.Resource.Vault.HostNames.{pods_in}
use pos_data_showcase.Resource.Accounts.{
  References, build_service_account, build_role, build_role_binding, update_service_account,
  update_role, update_role_binding,
}
use pos_data_showcase.Resource.Accounts.Granted.{
  ReferenceLaws, is_granted, pod_template_spec-granted,
}
use pos_data_showcase.Resource.HeadlessService.{build_headless_service, update_headless_service}
use pos_data_showcase.Resource.HeadlessService.Found.{ServiceLaw, update_headless_service-found}
use pos_data_showcase.Tests.Sample.{resources_of}
use pos_data_showcase.Tests.ReconcilerRuns.{cc_ok}
use pos_data_showcase.Tests.StatefulSetRuns.{
  full_cluster, owner_of, test_packages, test_package_laws, built, running, built_lem, running_lem,
}

abbrev pub account_of : RabbitmqCluster → ServiceAccount → ServiceAccount
account_of c a = record a { controller = some (owner_of c) }

abbrev pub role_of : RabbitmqCluster → Role → Role
role_of c r = record r { controller = some (owner_of c) }

abbrev pub binding_of : RabbitmqCluster → RoleBinding → RoleBinding
binding_of c b = record b { controller = some (owner_of c) }

abbrev pub service_of : RabbitmqCluster → Service → Service
service_of c h = record h { controller = some (owner_of c) }

abbrev pub test_references : References
test_references = record {
  set_account = λ c a. ok (account_of c a);
  set_role = λ c r. ok (role_of c r);
  set_binding = λ c b. ok (binding_of c b);
}

abbrev test_reference_laws : ReferenceLaws test_references
test_reference_laws = record {
  account_kept = λ c a a' e.
      subst (λ (x : ServiceAccount). x ≡ record a { controller = x.controller })
        (cc_ok (account_of c a) a' e) refl;
  role_kept = λ c r r' e.
      subst (λ (x : Role). x ≡ record r { controller = x.controller }) (cc_ok (role_of c r) r' e)
        refl;
  binding_kept = λ c b b' e.
      subst (λ (x : RoleBinding). x ≡ record b { controller = x.controller })
        (cc_ok (binding_of c b) b' e) refl;
}

abbrev pub test_service_law : ServiceLaw (λ c h. ok (service_of c h))
test_service_law c h h' e =
    subst (λ (x : Service). x ≡ record h { controller = x.controller })
      (cc_ok (service_of c h) h' e) refl

-- A role that had lost its rules is given them again.
abbrev old_role : Role
old_role = build_role full_cluster

abbrev pub template : PodTemplate
template = template_with test_packages.parse_quantity full_cluster [] 10 (resources_of 4 4) 60

pub template_lem : pod_template_spec test_packages.parse_quantity full_cluster [] ≡ some template
unfolding pod_template_spec template_from
template_lem = refl

abbrev pub value_or : {A : Type 0} → Result A → A → A
value_or (ok a) b = a
value_or (err e) b = b

abbrev new_account : ServiceAccount
new_account =
    value_or
      (update_service_account test_references full_cluster (build_service_account full_cluster))
      (build_service_account full_cluster)

new_account_lem :
    update_service_account test_references full_cluster (build_service_account full_cluster)
    ≡ ok new_account
unfolding update_service_account
new_account_lem = refl

abbrev new_role : Role
new_role = value_or (update_role test_references full_cluster old_role) old_role

new_role_lem : update_role test_references full_cluster old_role ≡ ok new_role
unfolding update_role
new_role_lem = refl

abbrev new_binding : RoleBinding
new_binding =
    value_or (update_role_binding test_references full_cluster (build_role_binding full_cluster))
      (build_role_binding full_cluster)

new_binding_lem :
    update_role_binding test_references full_cluster (build_role_binding full_cluster)
    ≡ ok new_binding
unfolding update_role_binding
new_binding_lem = refl

pod_template_spec-granted_example :
    (new_account.name ≡ template.spec.service_account_name)
    × (new_account.namespace ≡ new_binding.namespace)
    × (is_granted new_binding new_role template.spec.service_account_name "" "endpoints" "get" ≡ (
        str_eq "" ""
        && ((str_eq "endpoints" "endpoints" && str_eq "get" "get")
            || (str_eq "events" "endpoints" && str_eq "create" "get"))))
pod_template_spec-granted_example =
    pod_template_spec-granted test_references test_reference_laws test_packages.parse_quantity
      full_cluster [] template (build_service_account full_cluster) new_account old_role new_role
      (build_role_binding full_cluster) new_binding "" "endpoints" "get" (refl, refl) (refl, refl)
      refl template_lem new_account_lem new_role_lem new_binding_lem

abbrev new_service : Service
new_service =
    value_or
      (update_headless_service (λ c h. ok (service_of c h)) full_cluster
        (build_headless_service full_cluster))
      (build_headless_service full_cluster)

new_service_lem :
    update_headless_service
      (λ c h. ok (service_of c h))
      full_cluster
      (build_headless_service full_cluster)
    ≡ ok new_service
unfolding update_headless_service
new_service_lem = refl

update_headless_service-found_example :
    (running.service_name ≡ new_service.name)
    × (running.namespace ≡ new_service.namespace)
    × (new_service.spec.cluster_ip ≡ "None")
    × (new_service.spec.publish_not_ready_addresses ≡ true)
    × AllEntries (λ k v. lookup k running.template.labels ≡ some v) new_service.spec.selector
    × (pod_host_names full_cluster
        ≡ trim_prefix
            (pods_in running.name new_service.name new_service.namespace
              (replicas_or_one full_cluster.spec.replicas))
            ",")
update_headless_service-found_example =
    update_headless_service-found test_packages test_package_laws (λ c h. ok (service_of c h))
      test_service_law full_cluster built running (build_headless_service full_cluster) new_service
      refl built_lem running_lem (refl, refl) new_service_lem
