-- ===== src/Resource/ClientService/Served.antt =====
-- internal/resource/service.go and statefulset.go: what the client service promises its clients.
use pos_data_showcase.Prelude.{
  String, true, false, not, ◌&&◌, ◌||◌, none, some, List, [], ◌∷◌, ◌++◌, ◌≡◌, sym, ap, ◌∙◌, All,
  All-append, Option-cases, Bool-cases, inl, inr, str_eq,
}
use mathlib.Core.Path.{subst}
use pos_data_showcase.Prelude.Dict.{
  Dict, AllEntries, lookup, erase, erase-AllEntries, lookup-AllEntries,
}
use pos_data_showcase.Kube.Error.{wrapped}
use pos_data_showcase.Kube.Exec.{ok, err, wrap, wrap-eq-ok}
use pos_data_showcase.Kube.Pods.{Quantity, PodTemplate}
use pos_data_showcase.Kube.Services.{ServicePort, Service}
use pos_data_showcase.Cluster.{RabbitmqCluster, disable_non_tls_listeners, tls_enabled}
use pos_data_showcase.Resource.ContainerPorts.{update_container_ports}
use pos_data_showcase.Resource.ContainerPorts.Reached.{has_port, generate-IsReached}
use pos_data_showcase.Resource.Containers.{rabbitmq_container}
use pos_data_showcase.Resource.PodTemplate.{pod_template_spec, template_with}
use pos_data_showcase.Resource.StatefulSets.Fields.{template_from-eq-some, label-selected}
use pos_data_showcase.Resource.ServicePorts.{
  generate_service_ports_map, keep_ports, values, update_ports, clear_node_ports,
  service_spec_ports,
}
use pos_data_showcase.Resource.ServicePorts.Update.{keep_missing, keep_found}
use pos_data_showcase.Resource.ClientService.{
  ServicePackages, update_service, apply_svc_override, service_fields,
}

-- A port whose traffic goes to a port that the RabbitMQ container declares under the same name.
abbrev IsServed : RabbitmqCluster → ServicePort → Type 0
IsServed c p = has_port p.name p.target_port (update_container_ports c) ≡ true

module _ (c : RabbitmqCluster) where
  abbrev Served : String → ServicePort → Type 0
  Served k p = (p.name ≡ k) × IsServed c p

  abbrev BothServed : Dict ServicePort × List ServicePort → Type 0
  BothServed (ports, updated) = AllEntries Served ports × All (IsServed c) updated

  values-IsServed :
      (ports : Dict ServicePort) → AllEntries Served ports → All (IsServed c) (values ports)
  unfolding values
  values-IsServed [] h = tt
  values-IsServed ((k, p) ∷ rest) (h, hs) = (h.1, values-IsServed rest hs)

  keep_ports-IsServed :
      (existing : List ServicePort) (ports : Dict ServicePort) (updated : List ServicePort)
      → AllEntries Served ports
      → All (IsServed c) updated
      → AllEntries Served (keep_ports existing ports updated).0
        × All (IsServed c) (keep_ports existing ports updated).1
  unfolding keep_ports
  keep_ports-IsServed [] ports updated h k = (h, k)
  keep_ports-IsServed (p ∷ rest) ports updated h k = elim (Option-cases (lookup p.name ports)) [
    | inl missing ↦
        subst BothServed (sym (keep_missing p rest ports updated missing))
          (keep_ports-IsServed rest ports updated h k)
    | inr (value, found) ↦ subst BothServed (sym (keep_found p value rest ports updated found)) (
        keep_ports-IsServed rest (erase p.name ports)
          (updated ++ record value { node_port = p.node_port } ∷ [])
          (erase-AllEntries Served p.name ports h)
          (All-append (IsServed c) updated _ k
            ((lookup-AllEntries Served p.name ports h found).1, tt)))
  ]

  clear_node_ports-IsServed :
      (ports : List ServicePort)
      → All (IsServed c) ports
      → All (IsServed c) (clear_node_ports ports)
  unfolding clear_node_ports
  clear_node_ports-IsServed [] h = tt
  clear_node_ports-IsServed (p ∷ rest) (h, hs) = (h, clear_node_ports-IsServed rest hs)

  service_spec_ports-IsServed :
      (existing : List ServicePort)
      → (disable_non_tls_listeners c && not (tls_enabled c)) ≡ false
      → All (IsServed c) (service_spec_ports c existing)
  unfolding service_spec_ports update_ports
  service_spec_ports-IsServed existing allowed =
      let (left, kept) =
        keep_ports-IsServed existing (generate_service_ports_map c) []
          (generate-IsReached c allowed) tt in
      let ports =
        All-append (IsServed c) (keep_ports existing (generate_service_ports_map c) []).1 _ kept
          (values-IsServed (keep_ports existing (generate_service_ports_map c) []).0 left) in
      elim (Bool-cases (str_eq c.spec.service.type "ClusterIP" || str_eq c.spec.service.type "")) [
        | inl e ↦ rw e (clear_node_ports-IsServed _ ports)
        | inr e ↦ rw e ports
      ]

-- What is left where the service is not overridden.
update_service-eq-ok :
    (pkg : ServicePackages) (c : RabbitmqCluster) (s s' : Service)
    → c.spec.override.service ≡ none
    → update_service pkg c s ≡ ok s'
    → pkg.set_service c (service_fields c s) ≡ ok s'
unfolding update_service apply_svc_override
update_service-eq-ok pkg c s s' plain e =
    wrap-eq-ok (wrapped "failed setting controller reference") _ (
      ap
        (λ o.
          elim (wrap (wrapped "failed applying Service override")
            (apply_svc_override pkg o (service_fields c s))) [
              | ok given ↦
                  wrap (wrapped "failed setting controller reference") (pkg.set_service c given)
              | err x ↦ err x
            ])
        (sym plain)
      ∙ e)

-- Where `Update` of the client service succeeds for a cluster that does not override the service
-- and is not refused for its TLS configuration, whatever ports the service had: its selector finds
-- the pods of the template, and the container of the template declares, under the same name and
-- number, the port that each port of the service sends traffic to. The owner reference is taken to
-- change nothing but the owner.
pub update_service-IsServed :
    (pkg : ServicePackages)
    (kept : (c : RabbitmqCluster) (o o' : Service)
      → pkg.set_service c o ≡ ok o'
      → o' ≡ record o { controller = o'.controller })
    (parse : String → Quantity) (c : RabbitmqCluster) (previous : Dict String) (t : PodTemplate)
    (s s' : Service)
    → c.spec.override.service ≡ none
    → (disable_non_tls_listeners c && not (tls_enabled c)) ≡ false
    → pod_template_spec parse c previous ≡ some t
    → update_service pkg c s ≡ ok s'
    → AllEntries (λ k v. lookup k t.labels ≡ some v) s'.spec.selector
      × All (λ p. has_port p.name p.target_port t.spec.container.ports ≡ true) s'.spec.ports
unfolding service_fields pod_template_spec template_with rabbitmq_container
update_service-IsServed pkg kept parse c previous t s s' plain allowed made e =
    let same = kept c _ s' (update_service-eq-ok pkg c s s' plain e) in
    let (q, r, n, has, template) =
      template_from-eq-some parse c previous c.spec.persistence.storage c.spec.resources
        c.spec.termination_grace_period_seconds t made in
    let selector = ap (λ (x : Service). x.spec.selector) same in
    let ports = ap (λ (x : Service). x.spec.ports) same in
    rw (selector, ports, template)
      (label-selected c.name, service_spec_ports-IsServed c s.spec.ports allowed)
