-- ===== src/Status/Reports.antt =====
-- internal/status: which status the conditions report on the child resources of a cluster, which
-- are a StatefulSet and the endpoints of the service, each perhaps missing.
use mathlib.Core.Option
use mathlib.Core.Bool.{false≢true}
use mathlib.Core.List.{Memᴰ}
use pos_data_showcase.Prelude.{
  ◌≡◌, refl, ap, ◌∙◌, true, Option, none, some, List, [], ◌∷◌, arith, ◌==◌, ◌↔◌, ◌<◌, inl, inr,
  Bool-cases, ltb, length, if◌then◌else◌,
}
use pos_data_showcase.Prelude.Dict.{lookup}
use pos_data_showcase.Kube.Objects.{StatefulSet, Endpoints, EndpointSubset, Time, or_zero}
use pos_data_showcase.Status.{
  RabbitmqClusterCondition, ConditionStatus, condition_true, condition_false, condition_unknown,
  Resource, stateful_set, endpoints, all_replicas_ready_condition, cluster_available_condition,
  no_warnings_condition, assign_last_transition_time, scan_replicas, scan_endpoints, scan_memory,
  start_condition, has_address, memory_differs, all_replicas_ready, cluster_available, no_warnings,
}

-- `getChildResources`
abbrev pub children : Option StatefulSet → Option Endpoints → List Resource
children sts e = stateful_set sts ∷ endpoints e ∷ []

assign_status :
    (now : Time) (old : Option RabbitmqClusterCondition) (c : RabbitmqClusterCondition)
    → (assign_last_transition_time now old c).status ≡ c.status
unfolding assign_last_transition_time
assign_status now none c = refl
assign_status now (some old) c = ground arith

abbrev pub expected_replicas : Option StatefulSet → ConditionStatus
expected_replicas none = condition_unknown
expected_replicas (some sts) =
    if Option.get_or sts.replicas 1 == sts.ready_replicas then condition_true else condition_false

abbrev pub expected_memory : Option StatefulSet → ConditionStatus
expected_memory none = condition_unknown
expected_memory (some sts) =
    let r = sts.template.spec.container.resources in
    if or_zero (lookup "memory" r.limits) == or_zero (lookup "memory" r.requests)
    then condition_true
    else condition_false

-- AllReplicasReady is unknown without a StatefulSet, else true exactly when the ready replicas are
-- the desired ones (1 if the StatefulSet names no number), and false otherwise; NoWarnings is unknown
-- without a StatefulSet, else true exactly when memory limit and request of the first container
-- agree, and false otherwise. The old conditions, the endpoints and the time play no part.
pub stateful_set_statuses :
    (now : Time) (sts : Option StatefulSet) (e : Option Endpoints)
    (old old' : Option RabbitmqClusterCondition)
    → ((all_replicas_ready_condition now (children sts e) old).status ≡ expected_replicas sts)
      × ((no_warnings_condition now (children sts e) old').status ≡ expected_memory sts)
unfolding all_replicas_ready_condition no_warnings_condition scan_replicas scan_memory
    memory_differs
stateful_set_statuses now none e old old' = (assign_status now old _, assign_status now old' _)
stateful_set_statuses now (some sts) e old old' = (
  assign_status now old
        (scan_replicas (children (some sts) e) (start_condition all_replicas_ready old))
      ∙ ground arith,
  assign_status now old' (scan_memory (children (some sts) e) (start_condition no_warnings old'))
      ∙ ground arith,
)

-- A subset of the list has an address.
abbrev pub SomeAddress : List EndpointSubset → Type 0
SomeAddress subsets = (s : EndpointSubset) × Memᴰ s subsets × (0 < length s.addresses)

has_address→SomeAddress :
    (subsets : List EndpointSubset) → has_address subsets ≡ true → SomeAddress subsets
unfolding has_address
has_address→SomeAddress [] h = absurd (false≢true h)
has_address→SomeAddress (s ∷ rest) h = elim (Bool-cases (ltb 0 (length s.addresses))) [
  | inl e ↦ (s, Memᴰ.head refl, ground arith)
  | inr e ↦ let (t, m, a) = has_address→SomeAddress rest (ground arith) in (t, Memᴰ.tail m, a)
]

SomeAddress→has_address :
    (subsets : List EndpointSubset) → SomeAddress subsets → has_address subsets ≡ true
unfolding has_address
SomeAddress→has_address [] (s, m, h) = elim m [ ]
SomeAddress→has_address (s ∷ rest) (t, Memᴰ.head e, h) =
    ground (arith, ap (λ (u : EndpointSubset). length u.addresses) e)
SomeAddress→has_address (s ∷ rest) (t, Memᴰ.tail m, h) =
    ground (arith, SomeAddress→has_address rest (t, m, h))

available_lem :
    (now : Time) (sts : Option StatefulSet) (e : Endpoints) (old : Option RabbitmqClusterCondition)
    → (cluster_available_condition now (children sts (some e)) old).status
      ≡ (if has_address e.subsets then condition_true else condition_false)
unfolding cluster_available_condition scan_endpoints
available_lem now sts e old =
    assign_status now old
      (scan_endpoints (children sts (some e)) (start_condition cluster_available old))
    ∙ ground arith

-- ClusterAvailable is unknown without endpoints, true exactly when a subset of the endpoints has an
-- address, and false exactly when the endpoints are there and no subset has one. The old condition,
-- the StatefulSet and the time play no part.
pub cluster_available_status :
    (now : Time) (sts : Option StatefulSet) (e : Endpoints) (old : Option RabbitmqClusterCondition)
    → ((cluster_available_condition now (children sts none) old).status ≡ condition_unknown)
      × (((cluster_available_condition now (children sts (some e)) old).status ≡ condition_true)
          ↔ SomeAddress e.subsets)
      × (((cluster_available_condition now (children sts (some e)) old).status ≡ condition_false)
          ↔ (¬ SomeAddress e.subsets))
unfolding cluster_available_condition scan_endpoints
cluster_available_status now sts e old =
    let lem = available_lem now sts e old in
    let to = has_address→SomeAddress e.subsets in
    let from = SomeAddress→has_address e.subsets in
    (
      assign_status now old _,
      (λ h. to (ground arith), λ a. ground (arith, from a)),
      (
        λ h a. ground (arith, from a),
        λ none_has. elim (Bool-cases (has_address e.subsets)) [
          | inl yes_has ↦ absurd (none_has (to yes_has))
          | inr no_has ↦ lem ∙ rw no_has
        ],
      ),
    )
