-- ===== src/Resource/HeadlessService/Found.antt =====
-- internal/resource/headless_service.go and statefulset.go: the names of the pods of a new cluster.
use pos_data_showcase.Prelude.{true, none, some, [], ◌≡◌, sym, ap, ◌∙◌}
use mathlib.Core.Path.{subst}
use pos_data_showcase.Prelude.Dict.{AllEntries, lookup}
use pos_data_showcase.Kube.Error.{wrapped}
use pos_data_showcase.Kube.Exec.{Result, ok, wrap-eq-ok}
use pos_data_showcase.Kube.Outcome.{
  returned, deref, wrap_failed, >>=-eq-returned, or_failed-eq-returned, returned-injective,
}
use pos_data_showcase.Kube.Objects.{StatefulSet}
use pos_data_showcase.Kube.Services.{Service}
use pos_data_showcase.Cluster.{RabbitmqCluster}
use pos_data_showcase.Resource.PodTemplate.{pod_template_spec}
use pos_data_showcase.Resource.Vault.{pod_host_names, replicas_or_one}
use pos_data_showcase.Resource.Vault.HostNames.{pods_in, pod_host_names-eq}
use pos_data_showcase.Prelude.Strings.{trim_prefix}
use pos_data_showcase.Resource.StatefulSets.{
  Packages, build, update, update_fields, written_fields, apply_sts_override,
  persistent_volume_claim, override_fixed, new_stateful_set,
}
use pos_data_showcase.Resource.StatefulSets.Fields.{update_fields-eq-returned}
use pos_data_showcase.Resource.StatefulSets.Startable.{PackageLaws, update-IsStartable}
use pos_data_showcase.Resource.StatefulSets.Built.{build-update-IsStartable}
use pos_data_showcase.Resource.HeadlessService.{build_headless_service, update_headless_service}

-- A controller reference changes nothing but the owner of the service.
abbrev pub ServiceLaw : (RabbitmqCluster → Service → Result Service) → Type 0
ServiceLaw set_controller =
    (c : RabbitmqCluster) (h h' : Service)
    → set_controller c h ≡ ok h'
    → h' ≡ record h { controller = h'.controller }

built_names :
    (pkg : Packages) (c : RabbitmqCluster) (s : StatefulSet)
    → c.spec.override.stateful_set ≡ none
    → build pkg c ≡ returned s
    → (s.name ≡ (new_stateful_set c []).name)
      × (s.service_name ≡ (new_stateful_set c []).service_name)
      × (s.namespace ≡ c.namespace)
unfolding build override_fixed new_stateful_set
built_names pkg c s plain e =
    let (ts, made, e1) = >>=-eq-returned (persistent_volume_claim pkg c) _ e in
    let same =
      sym (returned-injective _ s e1) ∙ ap (λ o. override_fixed o (new_stateful_set c ts)) plain in
    (
      ap (λ (x : StatefulSet). x.name) same,
      ap (λ (x : StatefulSet). x.service_name) same,
      ap (λ (x : StatefulSet). x.namespace) same,
    )

-- `Update` does not change the names of a StatefulSet that is not overridden.
update_names :
    (pkg : Packages) (laws : PackageLaws pkg) (c : RabbitmqCluster) (s s' : StatefulSet)
    → c.spec.override.stateful_set ≡ none
    → update pkg c s ≡ returned s'
    → (s'.name ≡ s.name) × (s'.service_name ≡ s.service_name) × (s'.namespace ≡ s.namespace)
unfolding update written_fields apply_sts_override
update_names pkg laws c s s' plain e =
    let (written, wrote, e1) = >>=-eq-returned (update_fields pkg c s) _ e in
    let (q, has, w1) =
      >>=-eq-returned (deref c.spec.persistence.storage) _
        (update_fields-eq-returned pkg c s written wrote).1 in
    let (t, got, w2) =
      >>=-eq-returned (deref (pod_template_spec pkg.parse_quantity c s.template.annotations)) _
        w1 in
    let (given, over, e2) =
      >>=-eq-returned
        (wrap_failed (wrapped "failed applying StatefulSet override")
          (apply_sts_override pkg c c.spec.override.stateful_set written))
        _ e1 in
    let kept : returned written ≡ returned given = rw (plain, apply_sts_override) at over in
    let owned = laws.kept c given s' (
      or_failed-eq-returned (wrapped "failed setting controller reference")
        (pkg.set_controller c given) e2) in
    let same =
      sym (returned-injective written given kept) ∙ sym (returned-injective _ written w2) in
    (
      ap (λ (x : StatefulSet). x.name) owned ∙ ap (λ (x : StatefulSet). x.name) same,
      ap (λ (x : StatefulSet). x.service_name) owned
          ∙ ap (λ (x : StatefulSet). x.service_name) same,
      ap (λ (x : StatefulSet). x.namespace) owned ∙ ap (λ (x : StatefulSet). x.namespace) same,
    )

-- With `PackageLaws` and `ServiceLaw`: where, for a cluster that overrides no field of the
-- StatefulSet, `Build` and then `Update` make a StatefulSet and `Update` succeeds on a service of
-- the name and the namespace that the headless service's `Build` gives, the StatefulSet names that
-- service as its own, in the same namespace; the service has no address of its own and its selector
-- finds the pods, also those that are not ready; and `podHostNames`, from which the alternative
-- names of the Vault certificate are made, lists the names that the service gives the pods 0 to
-- replicas - 1 (one pod where no number is given), in this order and no others.
pub update_headless_service-found :
    (pkg : Packages) (laws : PackageLaws pkg)
    (set_controller : RabbitmqCluster → Service → Result Service) (law : ServiceLaw set_controller)
    (c : RabbitmqCluster) (s s' : StatefulSet) (h h' : Service)
    → c.spec.override.stateful_set ≡ none
    → build pkg c ≡ returned s
    → update pkg c s ≡ returned s'
    → (h.name ≡ (build_headless_service c).name)
      × (h.namespace ≡ (build_headless_service c).namespace)
    → update_headless_service set_controller c h ≡ ok h'
    → (s'.service_name ≡ h'.name)
      × (s'.namespace ≡ h'.namespace)
      × (h'.spec.cluster_ip ≡ "None")
      × (h'.spec.publish_not_ready_addresses ≡ true)
      × AllEntries (λ k v. lookup k s'.template.labels ≡ some v) h'.spec.selector
      × (pod_host_names c
          ≡ trim_prefix
              (pods_in s'.name h'.name h'.namespace (replicas_or_one c.spec.replicas))
              ",")
unfolding update_headless_service build_headless_service new_stateful_set
update_headless_service-found pkg laws set_controller law c s s' h h' plain made updated named
      wrote =
    let (n1, n2, n3) = built_names pkg c s plain made in
    let (m1, m2, m3) = update_names pkg laws c s s' plain updated in
    let fits = (build-update-IsStartable pkg laws c s s' plain made updated).0 in
    let (start, fits') = update-IsStartable pkg laws c s s' plain fits updated in
    let owned = law c _ h' (wrap-eq-ok (wrapped "failed setting controller reference") _ wrote) in
    let name = ap (λ (x : Service). x.name) owned ∙ named.0 in
    let namespace = ap (λ (x : Service). x.namespace) owned ∙ named.1 in
    (
      m2 ∙ n2 ∙ sym name,
      m3 ∙ n3 ∙ sym namespace,
      ap (λ (x : Service). x.spec.cluster_ip) owned,
      ap (λ (x : Service). x.spec.publish_not_ready_addresses) owned,
      subst (AllEntries (λ k v. lookup k s'.template.labels ≡ some v))
          (fits'.selector ∙ sym (ap (λ (x : Service). x.spec.selector) owned)) start.selected,
      rw (m1, n1, name, namespace) (pod_host_names-eq c),
    )
