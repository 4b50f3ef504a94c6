-- ===== src/Resource/PodPatch.antt =====
-- internal/resource/statefulset.go: what an override makes of the metadata and of the pod.
use pos_data_showcase.Prelude.{
  String, Bool, true, false, Option, none, some, List, [], ◌∷◌, str_eq, if◌then◌else◌,
}
use pos_data_showcase.Prelude.Dict.{Dict, insert}
use pos_data_showcase.Kube.Error.{Error}
use pos_data_showcase.Kube.Exec.{Result}
use pos_data_showcase.Kube.Outcome.{Outcome, returned, panic, or_failed, ◌>>=◌}
use pos_data_showcase.Kube.Pods.{PodSpec, Container}
use pos_data_showcase.Override.{ContainerOverride, PodSpecOverride}
use pos_data_showcase.Resource.Order.{sort_env_var, sort_volume_mounts}

unfoldable pub merge_map : Dict String → Dict String → Dict String
merge_map base [] = base
merge_map base ((k, v) ∷ rest) = merge_map (insert k v base) rest

-- The first container of the name, else a container without environment and mounts.
unfoldable pub container_rabbitmq : List ContainerOverride → ContainerOverride
container_rabbitmq [] = record {
  name = "";
  image = "";
  env = none;
  volume_mounts = none;
  security_context = none;
}
container_rabbitmq (c ∷ rest) = if str_eq c.name "rabbitmq" then c else container_rabbitmq rest

-- `p != nil && reflect.DeepEqual(*p, SecurityContext{})`
abbrev pub is_empty_context : Option (Dict String) → Bool
is_empty_context none = false
is_empty_context (some []) = true
is_empty_context (some (_ ∷ _)) = false

-- The loop over the init containers of the override, beside those of the patched pod; where the pod
-- has fewer, a write is past the end.
unfoldable pub clear_contexts : List ContainerOverride → List Container → Outcome (List Container)
clear_contexts [] patched = returned patched
clear_contexts (o ∷ rest) [] =
    if is_empty_context o.security_context then panic else clear_contexts rest []
clear_contexts (o ∷ rest) (c ∷ patched) = do
  others ← clear_contexts rest patched
  returned (
      (if is_empty_context o.security_context then record c { security_context = none } else c)
      ∷ others)

-- `if given != nil { sort(list) }`
abbrev pub sort_if :
    {A B : Type 0} → Option B → (List A → Outcome (List A)) → List A → Outcome (List A)
sort_if none sort xs = returned xs
sort_if (some _) sort xs = sort xs

-- `merge` is the strategic merge patch of k8s.io/apimachinery between two JSON texts, with the
-- wrapping of its errors.
unfoldable pub patch_pod_spec :
    (PodSpec → PodSpecOverride → Result PodSpec) → PodSpec → PodSpecOverride → Outcome PodSpec
patch_pod_spec merge spec given = do
  patched ← or_failed (λ (e : Error). e) (merge spec given)
  env ← sort_if (container_rabbitmq given.containers).env sort_env_var patched.container.env
  mounts ←
      sort_if (container_rabbitmq given.containers).volume_mounts sort_volume_mounts
        patched.container.volume_mounts
  inits ← clear_contexts given.init_containers patched.init_containers
  returned (record patched {
    container = record patched.container { env = env; volume_mounts = mounts };
    security_context =
        if is_empty_context given.security_context then none else patched.security_context;
    init_containers = inits;
  })
