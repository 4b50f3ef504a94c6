-- ===== src/ClusterStatus/SetCondition.antt =====
-- api/v1beta1/rabbitmqcluster_status.go: `SetCondition` writes one condition.
use pos_data_showcase.Prelude.{
  ◌≡◌, refl, String, true, false, List, [], ◌∷◌, ◌++◌, arith, if◌then◌else◌, All, eq_refl,
}
use pos_data_showcase.Kube.Objects.{Time}
use pos_data_showcase.Status.{
  RabbitmqClusterCondition, RabbitmqClusterConditionType, ConditionStatus, status_eq, update_state,
  all_replicas_ready, cluster_available, no_warnings, reconcile_success, other_type, update_reason,
  join,
}
use pos_data_showcase.ClusterStatus.{RabbitmqClusterStatus, type_eq, update_first, set_condition}

abbrev pub IsOther : RabbitmqClusterConditionType → RabbitmqClusterCondition → Type 0
IsOther t c = type_eq c.type t ≡ false

-- The condition that is written in the place of `c`.
abbrev written :
    Time
    → ConditionStatus
    → String
    → List String
    → RabbitmqClusterCondition
    → RabbitmqClusterCondition
written now status reason messages c = record {
  type = c.type;
  status = status;
  last_transition_time = if status_eq c.status status then c.last_transition_time else now;
  reason = reason;
  message = join ". " messages;
}

pub type_eq_refl : (t : RabbitmqClusterConditionType) → type_eq t t ≡ true
type_eq_refl all_replicas_ready = refl
type_eq_refl cluster_available = refl
type_eq_refl no_warnings = refl
type_eq_refl reconcile_success = refl
type_eq_refl (other_type s) = eq_refl s

module _ (now : Time) (t : RabbitmqClusterConditionType) (st : ConditionStatus) (reason : String)
    (messages : List String) where
  update_first_none :
      (cs : List RabbitmqClusterCondition)
      → All (IsOther t) cs
      → update_first now t st reason messages cs ≡ cs
  unfolding update_first
  update_first_none [] h = refl
  update_first_none (c ∷ cs) (o, h) = rw (o, update_first_none cs h)

  update_first_some :
      (before after : List RabbitmqClusterCondition) (c : RabbitmqClusterCondition)
      → All (IsOther t) before
      → c.type ≡ t
      → update_first now t st reason messages (before ++ c ∷ after)
        ≡ before ++ written now st reason messages c ∷ after
  unfolding update_first update_reason update_state
  update_first_some [] after c h e = ground (arith, type_eq_refl t)
  update_first_some (b ∷ before) after c (o, h) e = rw (o, update_first_some before after c h e)

-- The first condition of the given type gets the status, the reason and the joined messages, and the
-- present time if its status changes; its place, its type, all conditions around it and the rest of
-- the cluster's status stay as they were.
set_condition-first :
    (now : Time) (t : RabbitmqClusterConditionType) (st : ConditionStatus) (reason : String)
    (messages : List String) (status : RabbitmqClusterStatus)
    (before after : List RabbitmqClusterCondition) (c : RabbitmqClusterCondition)
    → status.conditions ≡ before ++ c ∷ after
    → All (IsOther t) before
    → c.type ≡ t
    → set_condition now t st reason messages status
      ≡ record status { conditions = before ++ written now st reason messages c ∷ after }
unfolding set_condition
set_condition-first now t st reason messages status before after c e h ec =
    cc (update_first_some now t st reason messages before after c h ec)
