-- ===== src/Resource/StatefulSets/Startable.antt =====
-- internal/resource/statefulset.go: the StatefulSet that `Build` and `Update` make can start its pods.
use pos_data_showcase.Prelude.{
  ℕ, String, true, false, none, some, [], ◌∷◌, ◌≡◌, refl, sym, ap, ◌∙◌, ◌==◌,
}
use mathlib.Core.Path.{subst}
use pos_data_showcase.Prelude.Dict.{Dict, AllEntries, lookup}
use pos_data_showcase.Kube.Exec.{ok}
use pos_data_showcase.Kube.Error.{wrapped}
use pos_data_showcase.Kube.Outcome.{
  returned, deref, wrap_failed, >>=-eq-returned, deref-eq-returned, or_failed-eq-returned,
}
use pos_data_showcase.Kube.Objects.{PersistentVolumeClaim, StatefulSet}
use pos_data_showcase.Kube.Pods.{Quantity, ResourceRequirements, PodTemplate}
use pos_data_showcase.Metadata.{label_selector, get_labels, reconcile_and_filter_annotations}
use pos_data_showcase.Cluster.{RabbitmqCluster}
use pos_data_showcase.Scaling.{persistence_storage_capacity}
use pos_data_showcase.Resource.ContainerPorts.Reached.{has_port}
use pos_data_showcase.Resource.ContainerPorts.Probe.{probe_number, probe_declared}
use pos_data_showcase.Resource.Containers.{readiness_probe_port, rabbitmq_container}
use pos_data_showcase.Resource.PodTemplate.{pod_template_spec, template_with}
use pos_data_showcase.Resource.PodTemplate.Mounted.{claim_named, pod_mounted, template_with-mounted}
use pos_data_showcase.Resource.StatefulSets.Fields.{
  update_fields-eq-returned, claim_named-update, capacity-update, template_from-eq-some,
  label-selected,
}
use pos_data_showcase.Resource.StatefulSets.{
  Packages, update, update_fields, written_fields, update_persistence_storage_capacity,
  apply_sts_override, rolling_update,
}

-- What a StatefulSet promises of a cluster: each mount of each container of the pod has its volume
-- or its claim, the selector finds the pods, the readiness probe is on a declared port, and the
-- claim templates have the storage and the StatefulSet the replicas of the specification.
pub record IsStartable (c : RabbitmqCluster) (sts : StatefulSet) : Type 0 where
  pub mounted : pod_mounted sts.volume_claim_templates sts.template.spec ≡ true
  pub selected : AllEntries (λ k v. lookup k sts.template.labels ≡ some v) sts.match_labels
  pub probed :
      (sts.template.spec.container.readiness_port ≡ some (readiness_probe_port c))
      × (has_port (readiness_probe_port c) (probe_number c) sts.template.spec.container.ports
          ≡ true)
  pub sized :
      some (persistence_storage_capacity sts.volume_claim_templates) ≡ c.spec.persistence.storage
  pub replicated : sts.replicas ≡ c.spec.replicas

-- What the documentation of the packages says: "0Gi" is no storage, and a controller reference
-- changes nothing but the owner of the object.
pub record PackageLaws (pkg : Packages) : Type 0 where
  pub zero_storage : pkg.parse_quantity "0Gi" ≡ 0
  pub claim_kept :
      (c : RabbitmqCluster) (p p' : PersistentVolumeClaim)
      → pkg.set_claim_controller c p ≡ ok p'
      → p' ≡ record p { owner_references = p'.owner_references }
  pub kept :
      (c : RabbitmqCluster) (s s' : StatefulSet)
      → pkg.set_controller c s ≡ ok s'
      → s' ≡ record s { controller = s'.controller }

-- The fields that a StatefulSet keeps from its creation fit the cluster.
pub record IsFitting (c : RabbitmqCluster) (sts : StatefulSet) : Type 0 where
  pub selector : sts.match_labels ≡ label_selector c.name
  pub stored :
      (q : Quantity)
      → c.spec.persistence.storage ≡ some q
      → q == 0 ≡ false
      → claim_named "persistence" sts.volume_claim_templates ≡ true

-- A template for the cluster, with claims that fit it.
template_with-IsStartable :
    (parse : String → Quantity) (c : RabbitmqCluster) (s : StatefulSet) (previous : Dict String)
    (q q' : Quantity) (r : ResourceRequirements) (n : ℕ)
    → parse "0Gi" ≡ 0
    → c.spec.persistence.storage ≡ some q
    → c.spec.persistence.storage ≡ some q'
    → IsFitting c s
    → s.replicas ≡ c.spec.replicas
    → IsStartable c (record s {
      template = template_with parse c previous q' r n;
      volume_claim_templates = update_persistence_storage_capacity s.volume_claim_templates q;
    })
unfolding template_with rabbitmq_container
template_with-IsStartable parse c s previous q q' r n zero has has' fits same =
    let claims = update_persistence_storage_capacity s.volume_claim_templates q in
    let stored : q' == 0 ≡ false → claim_named "persistence" claims ≡ true =
      λ h. claim_named-update "persistence" s.volume_claim_templates q ∙ fits.stored q' has' h in
    record {
      mounted = template_with-mounted parse c q' claims (λ h. stored (rw zero at h)) previous r n;
      selected = rw fits.selector (label-selected c.name);
      probed = (refl, probe_declared c);
      sized =
          ap some (capacity-update s.volume_claim_templates q (λ h. fits.stored q has h)) ∙ sym has;
      replicated = same;
    }

module _ (pkg : Packages) (laws : PackageLaws pkg) where
  open laws use {zero_storage, claim_kept, kept}

  -- The fields that `Update` writes, before an override.
  written-IsStartable :
      (c : RabbitmqCluster) (s s' : StatefulSet)
      → IsFitting c s
      → update_fields pkg c s ≡ returned s'
      → IsStartable c s' × IsFitting c s'
  unfolding written_fields pod_template_spec
  written-IsStartable c s s' fits e =
      let (q, has, e1) =
        >>=-eq-returned (deref c.spec.persistence.storage) _
          (update_fields-eq-returned pkg c s s' e).1 in
      let (t, got, e2) =
        >>=-eq-returned (deref (pod_template_spec pkg.parse_quantity c s.template.annotations)) _
          e1 in
      let (q', r, n, has', same) =
        template_from-eq-some pkg.parse_quantity c s.template.annotations c.spec.persistence.storage
          c.spec.resources c.spec.termination_grace_period_seconds t
          (deref-eq-returned (pod_template_spec pkg.parse_quantity c s.template.annotations) got) in
      let s1 = record s {
        replicas = c.spec.replicas;
        update_strategy = rolling_update;
        annotations = reconcile_and_filter_annotations s.annotations (c.annotations ∷ []);
        labels = get_labels c.name c.labels;
      } in
      let filled = λ (x : PodTemplate). record s1 {
        template = x;
        volume_claim_templates = update_persistence_storage_capacity s.volume_claim_templates q;
      } in
      let start =
        template_with-IsStartable pkg.parse_quantity c s1 s.template.annotations q q' r n
          zero_storage (deref-eq-returned c.spec.persistence.storage has) has'
          (record { selector = fits.selector; stored = fits.stored }) refl in
      subst (λ x. IsStartable c x × IsFitting c x) (cc e2)
        (
          subst (λ x. IsStartable c (filled x)) (sym same) start,
          record {
            selector = fits.selector;
            stored = λ p has nonzero.
                claim_named-update "persistence" s.volume_claim_templates q
                ∙ fits.stored p has nonzero;
          },
        )

  owned-IsStartable :
      (c : RabbitmqCluster) (s s' : StatefulSet)
      → IsStartable c s × IsFitting c s
      → pkg.set_controller c s ≡ ok s'
      → IsStartable c s' × IsFitting c s'
  owned-IsStartable c s s' (h, f) e =
      subst (λ x. IsStartable c x × IsFitting c x) (sym (kept c s s' e))
        (
          record {
            mounted = h.mounted;
            selected = h.selected;
            probed = h.probed;
            sized = h.sized;
            replicated = h.replicated;
          },
          record { selector = f.selector; stored = f.stored },
        )

  -- With `PackageLaws`: where `Update` succeeds for a cluster that overrides no field of the
  -- StatefulSet, on a StatefulSet whose selector and claim templates fit the cluster, the result
  -- can start its pods: each mount of each container has a volume of the pod or a claim template,
  -- the selector finds the pods, the readiness probe is on a declared port, and the claim templates
  -- have the storage and the StatefulSet the replicas of the cluster; and it still fits the
  -- cluster.
  pub update-IsStartable :
      (c : RabbitmqCluster) (s s' : StatefulSet)
      → c.spec.override.stateful_set ≡ none
      → IsFitting c s
      → update pkg c s ≡ returned s'
      → IsStartable c s' × IsFitting c s'
  unfolding update apply_sts_override
  update-IsStartable c s s' plain fits e =
      let (written, wrote, e1) = >>=-eq-returned (update_fields pkg c s) _ e in
      let (given, over, e2) =
        >>=-eq-returned
          (wrap_failed (wrapped "failed applying StatefulSet override")
            (apply_sts_override pkg c c.spec.override.stateful_set written))
          _ e1 in
      let same : returned written ≡ returned given = rw (plain, apply_sts_override) at over in
      owned-IsStartable c given s'
        (subst (λ x. IsStartable c x × IsFitting c x) (cc same)
          (written-IsStartable c s written fits wrote))
        (or_failed-eq-returned (wrapped "failed setting controller reference")
          (pkg.set_controller c given) e2)
