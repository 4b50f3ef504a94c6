-- ===== src/Resource/PodTemplate/Mounted.antt =====
-- internal/resource/statefulset.go: each mount of the containers has its volume.
use pos_data_showcase.Prelude.{
  ℕ, String, Bool, true, false, not, ◌&&◌, ◌||◌, Option, none, some, List, [], ◌∷◌, ◌++◌, when, ◌≡◌,
  refl, arith, str_eq, ◌==◌, Bool-cases, Option-cases, inl, inr,
}
use pos_data_showcase.Prelude.Dict.{Dict}
use pos_data_showcase.Kube.Pods.{
  ResourceRequirements, Quantity, VolumeMount, Volume, Container, PodSpec, containers,
}
use pos_data_showcase.Kube.Objects.{PersistentVolumeClaim}
use pos_data_showcase.Cluster.{
  RabbitmqCluster, VaultSpec, is_set, secret_tls_enabled, vault_default_user_secret_enabled,
}
use pos_data_showcase.Resource.Volumes.{
  base_volumes, append_default_user_secret_volume_projection, pod_volumes, tls_projected_volume,
}
use pos_data_showcase.Resource.Containers.{
  rabbitmq_container, rabbitmq_container_volume_mounts, setup_container,
  default_user_credential_updater,
}
use pos_data_showcase.Resource.PodTemplate.{updater_for, updater_containers, template_with}

unfoldable pub volume_named : String → List Volume → Bool
volume_named n [] = false
volume_named n (v ∷ vs) = str_eq v.name n || volume_named n vs

unfoldable pub claim_named : String → List PersistentVolumeClaim → Bool
claim_named n [] = false
claim_named n (c ∷ cs) = str_eq c.name n || claim_named n cs

unfoldable pub mounts_in : (String → Bool) → List VolumeMount → Bool
mounts_in there [] = true
mounts_in there (m ∷ ms) = there m.name && mounts_in there ms

unfoldable pub all_mounted : (String → Bool) → List Container → Bool
all_mounted there [] = true
all_mounted there (c ∷ cs) = mounts_in there c.volume_mounts && all_mounted there cs

-- Each mount of each container of the pod names a volume of the pod or a claim of it.
unfoldable pub pod_mounted : List PersistentVolumeClaim → PodSpec → Bool
pod_mounted claims spec =
    let there = λ (n : String). volume_named n spec.volumes || claim_named n claims in
    all_mounted there spec.init_containers && all_mounted there (containers spec)

volume_named-append :
    (n : String) (vs ws : List Volume)
    → volume_named n (vs ++ ws) ≡ (volume_named n vs || volume_named n ws)
unfolding volume_named
volume_named-append n [] ws = refl
volume_named-append n (v ∷ vs) ws = ground (arith, volume_named-append n vs ws)

volume_named-when :
    (n : String) (b : Bool) (vs : List Volume)
    → volume_named n (when b vs) ≡ (b && volume_named n vs)
unfolding volume_named when
volume_named-when n true vs = refl
volume_named-when n false vs = refl

volume_named-append_default_user :
    (n : String) (vs : List Volume) (c : RabbitmqCluster)
    → volume_named n (append_default_user_secret_volume_projection vs c) ≡ volume_named n vs
unfolding volume_named append_default_user_secret_volume_projection
volume_named-append_default_user n [] c = refl
volume_named-append_default_user n (v ∷ vs) c = elim (Bool-cases (str_eq v.name "rabbitmq-confd")) [
  | inl h ↦ rw (h, volume_named-append_default_user n vs c) refl
  | inr h ↦ rw (h, volume_named-append_default_user n vs c) refl
]

mounts_in-append :
    (there : String → Bool) (ms ns : List VolumeMount)
    → mounts_in there (ms ++ ns) ≡ (mounts_in there ms && mounts_in there ns)
unfolding mounts_in
mounts_in-append there [] ns = refl
mounts_in-append there (m ∷ ms) ns = ground (arith, mounts_in-append there ms ns)

mounts_in-when :
    (there : String → Bool) (b : Bool) (ms : List VolumeMount)
    → mounts_in there (when b ms) ≡ (not b || mounts_in there ms)
unfolding mounts_in when
mounts_in-when there true ms = refl
mounts_in-when there false ms = refl

-- Which volumes the pod has.
abbrev pub pod_volume : Quantity → RabbitmqCluster → Quantity → String → Bool
pod_volume no_storage c storage n =
    volume_named n (base_volumes c)
    || ((is_set c.spec.rabbitmq.advanced_config || is_set c.spec.rabbitmq.env_config)
        && str_eq "server-conf" n)
    || ((storage == no_storage) && str_eq "persistence" n)
    || (secret_tls_enabled c && str_eq "rabbitmq-tls" n)

mounts_in-cons :
    (there : String → Bool) (m : VolumeMount) (ms : List VolumeMount)
    → mounts_in there (m ∷ ms) ≡ (there m.name && mounts_in there ms)
unfolding mounts_in
mounts_in-cons there m ms = refl

mounts_in-nil : (there : String → Bool) → mounts_in there [] ≡ true
unfolding mounts_in
mounts_in-nil there = refl

ruleset names = (
  mounts_in-cons, mounts_in-nil, volume_named-append, volume_named-when,
  volume_named-append_default_user, mounts_in-append, mounts_in-when,
)

volume_named-pod_volumes :
    (no_storage : Quantity) (c : RabbitmqCluster) (storage : Quantity) (n : String)
    → volume_named n (pod_volumes no_storage c storage) ≡ pod_volume no_storage c storage n
unfolding pod_volumes volume_named tls_projected_volume
volume_named-pod_volumes no_storage c storage n =
    elim (Bool-cases (vault_default_user_secret_enabled c)) [
      | inl h ↦ rw h (simp names (ground arith))
      | inr h ↦ rw h (simp names (ground arith))
    ]

-- The names that a pod of the cluster needs.
record Covers (c : RabbitmqCluster) (there : String → Bool) : Type 0 where
  cookie : there "rabbitmq-erlang-cookie" ≡ true
  cookie_secret : there "erlang-cookie-secret" ≡ true
  persistence : there "persistence" ≡ true
  plugins : there "rabbitmq-plugins" ≡ true
  plugins_conf : there "plugins-conf" ≡ true
  confd : there "rabbitmq-confd" ≡ true
  pod_info : there "pod-info" ≡ true
  advanced : is_set c.spec.rabbitmq.advanced_config ≡ true → there "server-conf" ≡ true
  env : is_set c.spec.rabbitmq.env_config ≡ true → there "server-conf" ≡ true
  tls : secret_tls_enabled c ≡ true → there "rabbitmq-tls" ≡ true

module _ (parse_quantity : String → Quantity) (c : RabbitmqCluster) (there : String → Bool)
    (covers : Covers c there) where
  open covers use {
    cookie, cookie_secret, persistence, plugins, plugins_conf, confd, pod_info, advanced, env, tls,
  }

  rabbitmq_mounted : mounts_in there (rabbitmq_container_volume_mounts c) ≡ true
  unfolding rabbitmq_container_volume_mounts
  rabbitmq_mounted =
      simp (names, cookie, persistence, plugins, confd, pod_info)
        (ground (arith, advanced, env, tls))

  setup_mounted : mounts_in there (setup_container parse_quantity c).volume_mounts ≡ true
  unfolding setup_container
  setup_mounted =
      simp (names, cookie, cookie_secret, persistence, plugins, plugins_conf, confd) (ground arith)

  updater_mounted :
      (image : String)
      → mounts_in there (default_user_credential_updater parse_quantity c image).volume_mounts
        ≡ true
  unfolding default_user_credential_updater
  updater_mounted image = simp (names, cookie) (ground (arith, tls))

  all_mounted-when :
      (b : Bool) (cs : List Container)
      → all_mounted there cs ≡ true
      → all_mounted there (when b cs) ≡ true
  unfolding when all_mounted
  all_mounted-when true cs h = h
  all_mounted-when false cs h = refl

  updaters_mounted :
      (o : Option VaultSpec) → all_mounted there (updater_containers parse_quantity c o) ≡ true
  unfolding updater_containers updater_for all_mounted
  updaters_mounted none = refl
  updaters_mounted (some vault) = elim (Option-cases vault.default_user_updater_image) [
    | inl i ↦ rw i refl
    | inr (image, i) ↦ rw i (all_mounted-when _ _ (rw (updater_mounted image) refl))
  ]

module _ (parse_quantity : String → Quantity) (c : RabbitmqCluster) (storage : Quantity)
    (claims : List PersistentVolumeClaim)
    (stored : (storage == parse_quantity "0Gi") ≡ false
      → claim_named "persistence" claims ≡ true) where
  -- The names that the pod's volumes and the claims give.
  abbrev there : String → Bool
  there n = volume_named n (pod_volumes (parse_quantity "0Gi") c storage) || claim_named n claims

  there-Covers : Covers c there
  unfolding volume_named base_volumes
  there-Covers = record {
    cookie = simp volume_named-pod_volumes;
    cookie_secret = simp volume_named-pod_volumes;
    persistence =
        ground
          (arith, stored, volume_named-pod_volumes (parse_quantity "0Gi") c storage "persistence");
    plugins = simp volume_named-pod_volumes;
    plugins_conf = simp volume_named-pod_volumes;
    confd = simp volume_named-pod_volumes;
    pod_info = simp volume_named-pod_volumes;
    advanced = λ h.
        ground (arith, h, volume_named-pod_volumes (parse_quantity "0Gi") c storage "server-conf");
    env = λ h.
        ground (arith, h, volume_named-pod_volumes (parse_quantity "0Gi") c storage "server-conf");
    tls = λ h.
        ground (arith, h, volume_named-pod_volumes (parse_quantity "0Gi") c storage "rabbitmq-tls");
  }

  pub template_with-mounted :
      (previous : Dict String) (resources : ResourceRequirements) (seconds : ℕ)
      → pod_mounted claims (template_with parse_quantity c previous storage resources seconds).spec
        ≡ true
  unfolding pod_mounted template_with all_mounted rabbitmq_container
  template_with-mounted previous resources seconds = simp (
    setup_mounted parse_quantity c there there-Covers,
    rabbitmq_mounted parse_quantity c there there-Covers,
    updaters_mounted parse_quantity c there there-Covers,
  )
