-- ===== src/Resource/Order.antt =====
-- internal/resource/statefulset.go: `sortEnvVar` and `sortVolumeMounts`, which swap elements of a
-- slice in place. The loops read the element of the round after the swaps of the rounds before.
pub mod Swapped
pub mod Placed
use pos_data_showcase.Prelude.{
  ℕ, zero, suc, ◌+◌, List, get_elem?, set, length, str_eq, if◌then◌else◌,
}
use pos_data_showcase.Kube.Pods.{EnvVar, VolumeMount}
use pos_data_showcase.Kube.Outcome.{Outcome, returned, deref, ◌>>=◌}

-- `xs[i], xs[j] = xs[j], xs[i]`, which panics out of range.
unfoldable pub swap : {A : Type 0} → List A → ℕ → ℕ → Outcome (List A)
swap xs i j = do
  a ← deref (get_elem? xs i)
  b ← deref (get_elem? xs j)
  returned (set (set xs i b) j a)

-- The bodies of the two loops, for the element at `i`.
unfoldable pub place_env_var : List EnvVar → ℕ → EnvVar → Outcome (List EnvVar)
place_env_var vars i e =
    if str_eq e.name "MY_POD_NAME"
    then swap vars 0 i
    else if str_eq e.name "MY_POD_NAMESPACE"
    then swap vars 1 i
    else if str_eq e.name "K8S_SERVICE_NAME"
    then swap vars 2 i
    else returned vars

unfoldable pub place_volume_mount : List VolumeMount → ℕ → VolumeMount → Outcome (List VolumeMount)
place_volume_mount mounts i m =
    if str_eq m.name "rabbitmq-erlang-cookie"
    then swap mounts 0 i
    else if str_eq m.name "persistence"
    then swap mounts 1 i
    else returned mounts

-- `for i, x := range xs` from `i` on, for `n` rounds.
unfoldable pub for_each_from :
    {A : Type 0} → (List A → ℕ → A → Outcome (List A)) → ℕ → ℕ → List A → Outcome (List A)
for_each_from body zero i xs = returned xs
for_each_from body (suc n) i xs = do
  x ← deref (get_elem? xs i)
  ys ← body xs i x
  for_each_from body n (i + 1) ys

unfoldable pub sort_env_var : List EnvVar → Outcome (List EnvVar)
sort_env_var vars = for_each_from place_env_var (length vars) 0 vars

unfoldable pub sort_volume_mounts : List VolumeMount → Outcome (List VolumeMount)
sort_volume_mounts mounts = for_each_from place_volume_mount (length mounts) 0 mounts
