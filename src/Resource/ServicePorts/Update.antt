-- ===== src/Resource/ServicePorts/Update.antt =====
-- internal/resource/service.go: `updatePorts` against a description of its result, name by name.
use pos_data_showcase.Prelude.{
  ℕ, ◌≡◌, refl, ap, ◌∙◌, inl, inr, String, Bool, Option, none, some, List, [], ◌∷◌, ◌++◌, arith,
  str_eq, ◌||◌, eq_iff, Option-cases, if◌then◌else◌,
}
use mathlib.Core.List.{append_assoc}
use pos_data_showcase.Prelude.Dict.{
  Dict, lookup, erase, lookup-erase, NodupKeys, erase-NodupKeys, erase-AllEntries,
  lookup-AllEntries,
}
use pos_data_showcase.Cluster.{RabbitmqCluster}
use pos_data_showcase.Kube.Services.{ServicePort}
use pos_data_showcase.Resource.ServicePorts.{
  generate_service_ports_map, keep_ports, values, update_ports, clear_node_ports,
  service_spec_ports,
}
use pos_data_showcase.Resource.ServicePorts.Map.{IsKeyed, generate-IsKeyed, generate-NodupKeys}

-- The ports of a name, in order.
abbrev pub named : String → List ServicePort → List ServicePort
named name [] = []
named name (p ∷ rest) =
    let others = named name rest in if str_eq p.name name then p ∷ others else others

-- The node port of the first of the ports with the name.
abbrev pub first_node_port : String → List ServicePort → Option ℕ
first_node_port name [] = none
first_node_port name (p ∷ rest) =
    if str_eq p.name name then some p.node_port else first_node_port name rest

-- What a service with the ports `existing` should have under a name, where the map has `wanted`.
abbrev pub expected : Option ServicePort → Option ℕ → List ServicePort
expected none node_port = []
expected (some p) none = p ∷ []
expected (some p) (some node_port) = record p { node_port = node_port } ∷ []

named-append :
    (name : String) (xs ys : List ServicePort)
    → named name (xs ++ ys) ≡ named name xs ++ named name ys
named-append name [] ys = refl
named-append name (x ∷ xs) ys = ground (arith, named-append name xs ys)

named-values :
    (name : String) (ports : Dict ServicePort)
    → IsKeyed ports
    → NodupKeys ports
    → named name (values ports) ≡ expected (lookup name ports) none
unfolding values lookup
named-values name [] k u = refl
named-values name ((j, p) ∷ ports) (e, k) (fresh, u) =
    ground (arith, eq_iff j name, named-values name ports k u)

-- A port of the service that is not in the map is dropped.
skipped :
    (name other : String) (ports : Dict ServicePort)
    → lookup other ports ≡ none
    → (n : ℕ) (later : Option ℕ)
    → expected (lookup name ports) later
      ≡ expected (lookup name ports) (if str_eq other name then some n else later)
skipped name other ports missing n later = ground (arith, eq_iff other name)

-- A port of the service that is in the map is the only one of its name, with its node port.
kept_one :
    (name other : String) (ports : Dict ServicePort) (value : ServicePort) (n : ℕ)
    (later : Option ℕ) (before : List ServicePort) (updated : List ServicePort)
    → before ≡ named name updated
    → lookup other ports ≡ some value
    → value.name ≡ other
    → named name (updated ++ record value { node_port = n } ∷ [])
        ++ expected (lookup name (erase other ports)) later
      ≡ before ++ expected (lookup name ports) (if str_eq other name then some n else later)
kept_one name other ports value n later before updated b found e =
    rw (named-append, lookup-erase, append_assoc, ← b)
      (ap (λ t. before ++ t) (ground (arith, eq_iff other name)))

pub keep_missing :
    (p : ServicePort) (existing : List ServicePort) (ports : Dict ServicePort)
    (updated : List ServicePort)
    → lookup p.name ports ≡ none
    → keep_ports (p ∷ existing) ports updated ≡ keep_ports existing ports updated
unfolding keep_ports
keep_missing p existing ports updated e = rw (e, keep_ports)

pub keep_found :
    (p value : ServicePort) (existing : List ServicePort) (ports : Dict ServicePort)
    (updated : List ServicePort)
    → lookup p.name ports ≡ some value
    → keep_ports (p ∷ existing) ports updated
      ≡ keep_ports existing
          (erase p.name ports)
          (updated ++ record value { node_port = p.node_port } ∷ [])
unfolding keep_ports
keep_found p value existing ports updated e = rw (e, keep_ports)

-- The loop and the values that it leaves, for any list that was collected before.
named-keep_ports :
    (name : String) (existing : List ServicePort) (ports : Dict ServicePort)
    (updated : List ServicePort)
    → IsKeyed ports
    → NodupKeys ports
    → let (left, kept) = keep_ports existing ports updated in
      named name (kept ++ values left)
      ≡ named name updated ++ expected (lookup name ports) (first_node_port name existing)
named-keep_ports name [] ports updated k u =
    unfold keep_ports in
    named-append name updated (values ports)
    ∙ ap (λ t. named name updated ++ t) (named-values name ports k u)
named-keep_ports name (p ∷ existing) ports updated k u = elim (Option-cases (lookup p.name ports)) [
  | inl missing ↦ rw (keep_missing p existing ports updated missing) (
      named-keep_ports name existing ports updated k u
      ∙ ap (λ t. named name updated ++ t)
          (skipped name p.name ports missing p.node_port (first_node_port name existing)))
  | inr (value, found) ↦ rw (keep_found p value existing ports updated found) (
      named-keep_ports name existing (erase p.name ports)
        (updated ++ record value { node_port = p.node_port } ∷ [])
        (erase-AllEntries (λ key q. q.name ≡ key) p.name ports k) (erase-NodupKeys p.name ports u)
      ∙ kept_one name p.name ports value p.node_port (first_node_port name existing)
          (named name updated) updated refl found
          (lookup-AllEntries (λ key q. q.name ≡ key) p.name ports k found))
]

-- For every name, the updated ports of the service hold what the cluster needs and nothing else: no
-- port where the map of ports has none, and otherwise exactly one, the map's, with the node port of
-- the first port of that name that the service had, if it had one.
named-update_ports :
    (cluster : RabbitmqCluster) (existing : List ServicePort) (name : String)
    → named name (update_ports cluster existing)
      ≡ expected (lookup name (generate_service_ports_map cluster)) (first_node_port name existing)
unfolding update_ports
named-update_ports cluster existing name =
    named-keep_ports name existing (generate_service_ports_map cluster) []
      (generate-IsKeyed cluster) (generate-NodupKeys cluster)

named-clear_node_ports :
    (name : String) (ports : List ServicePort)
    → named name (clear_node_ports ports) ≡ clear_node_ports (named name ports)
unfolding clear_node_ports
named-clear_node_ports name [] = refl
named-clear_node_ports name (p ∷ rest) = ground (arith, named-clear_node_ports name rest)

-- A service that is reached in the cluster only: its type is "ClusterIP" or not set.
abbrev pub is_cluster_ip : RabbitmqCluster → Bool
is_cluster_ip cluster =
    str_eq cluster.spec.service.type "ClusterIP" || str_eq cluster.spec.service.type ""

-- The ports that `Update` gives the service: for every name those of `updatePorts`, with the node
-- ports cleared exactly where the service is reached in the cluster only.
pub named-service_spec_ports :
    (cluster : RabbitmqCluster) (existing : List ServicePort) (name : String)
    → named name (service_spec_ports cluster existing) ≡ (
        let wanted =
          expected
            (lookup name (generate_service_ports_map cluster))
            (first_node_port name existing) in
        if is_cluster_ip cluster then clear_node_ports wanted else wanted)
unfolding service_spec_ports
named-service_spec_ports cluster existing name = ground (
  arith,
  named-update_ports cluster existing name,
  named-clear_node_ports name (update_ports cluster existing),
)
