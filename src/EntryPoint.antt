-- ===== src/EntryPoint.antt =====
-- main.go, pkg/profiling/pprof.go and SetupWithManager of
-- controllers/rabbitmqcluster_controller.go: how the operator starts.
pub mod Refused
pub mod Durations
use pos_data_showcase.Prelude.{
  ℕ, zero, suc, ◌*◌, ◌%◌, ◌^◌, String, Bool, true, false, Option, none, some, List, [], ◌∷◌, str_eq,
  if◌then◌else◌,
}
use pos_data_showcase.Kube.Exec.{Result, ok, err, Exec}

-- time.Duration: nanoseconds, the bits of an int64. So is what strconv.ParseInt reads.
abbrev pub Duration : Type 0
Duration = ℕ

abbrev pub second : Duration
second = 1000000000

-- `time.Duration(n) * time.Second`, which wraps around.
unfoldable pub of_seconds : ℕ → Duration
of_seconds n = (n * second) % 2 ^ 64

-- The fields of ctrl.Options that are set.
pub record ManagerOptions : Type 0 where
  pub metrics_bind_address : String
  pub leader_election : Bool
  pub leader_election_namespace : String
  pub leader_election_id : String
  pub namespace : String
  pub lease_duration : Option Duration
  pub renew_deadline : Option Duration
  pub retry_period : Option Duration

-- The fields of RabbitmqClusterReconciler that do not come from the manager.
pub record ReconcilerSettings (C K : Type 0) : Type 0 where
  pub namespace : String
  pub cluster_config : C
  pub clientset : K
  pub default_rabbitmq_image : String
  pub default_user_updater_image : String
  pub default_image_pull_secrets : String

-- The handlers of net/http/pprof.
pub data ProfileHandler : Type 0 where
  index_handler cmdline_handler profile_handler symbol_handler trace_handler : ProfileHandler

-- The rest of the process, or its end: by os.Exit(1), or in a panic of a function named OrDie.
abbrev pub Program : Type 0 → Type 0 → Type 0
Program W A = W → Option A × W

module _ {W A B : Type 0} where
  abbrev pub run_on : Option A → (A → Program W B) → Program W B
  run_on none f w = (none, w)
  run_on (some a) f w = f a w

  infixl 10 ◌>>=◌ ◌>>◌
  abbrev pub ◌>>=◌ : Program W A → (A → Program W B) → Program W B
  ◌>>=◌ m f w = let (x, w') = m w in run_on x f w'

  abbrev pub ◌>>◌ : Program W A → Program W B → Program W B
  ◌>>◌ m n w = let (x, w') = m w in run_on x (λ _. n) w'

abbrev pub unless_error : {A : Type 0} → Result A → Option A
unless_error (ok a) = some a
unless_error (err e) = none

module _ {W A : Type 0} where
  abbrev pub known : Option A → Program W A
  known x w = (x, w)

  -- `if err != nil { log.Error(…); os.Exit(1) }`
  abbrev pub or_exit : Exec W A → Program W A
  or_exit m w = let (x, w') = m w in (unless_error x, w')

-- What the packages of Go, client-go and controller-runtime do, with a manager `M`, a configuration of
-- the client `C` and a client set `K`. `range` is an order in which Go ranges over a map.
pub record Packages (W M C K : Type 0) : Type 0 where
  pub metrics_addr : String
  pub lookup_env : String → Option String
  pub parse_int : String → Result ℕ
  pub parse_bool : String → Result Bool
  pub get_config_or_die : Program W C
  pub new_for_config_or_die : C → Program W K
  pub new_manager : C → ManagerOptions → Exec W M
  pub add_metrics_extra_handler : M → String → ProfileHandler → Exec W (Unit {0})
  pub range : List (String × ProfileHandler) → List (String × ProfileHandler)
  pub index_field : M → String → String → Exec W (Unit {0})
  pub complete : M → String → List String → ReconcilerSettings C K → Exec W (Unit {0})
  pub start : M → Exec W (Unit {0})

abbrev pub pprof_endpoints : List (String × ProfileHandler)
pprof_endpoints =
    ("/debug/pprof", index_handler)
    ∷ ("/debug/pprof/allocs", index_handler)
    ∷ ("/debug/pprof/block", index_handler)
    ∷ ("/debug/pprof/cmdline", cmdline_handler)
    ∷ ("/debug/pprof/goroutine", index_handler)
    ∷ ("/debug/pprof/heap", index_handler)
    ∷ ("/debug/pprof/mutex", index_handler)
    ∷ ("/debug/pprof/profile", profile_handler)
    ∷ ("/debug/pprof/symbol", symbol_handler)
    ∷ ("/debug/pprof/threadcreate", index_handler)
    ∷ ("/debug/pprof/trace", trace_handler)
    ∷ []

abbrev pub value_or : Option String → String → String
value_or none d = d
value_or (some s) d = s

abbrev pub unless_zero : Duration → Option Duration
unless_zero zero = none
unless_zero (suc n) = some (suc n)

abbrev pub ignore_error : Result Bool → Bool
ignore_error (ok b) = b
ignore_error (err e) = false

module _ {W M C K : Type 0} (pkg : Packages W M C K) where
  -- os.Getenv
  abbrev pub getenv : String → String
  getenv name = value_or (pkg.lookup_env name) ""

  unfoldable pub get_env_in_duration : String → Option Duration
  get_env_in_duration name =
      if str_eq (getenv name) ""
      then some (of_seconds 0)
      else elim (pkg.parse_int (getenv name)) [ ok n ↦ some (of_seconds n) | err e ↦ none ]

  -- `if d := getEnvInDuration(name); d != 0 { options.… = &d }`
  unfoldable pub duration_option : String → Option (Option Duration)
  duration_option name = elim (get_env_in_duration name) [
    | none ↦ none
    | some d ↦ some (unless_zero d)
  ]

  unfoldable pub operator_namespace : Option String
  operator_namespace =
      if str_eq (getenv "OPERATOR_NAMESPACE") "" then none else some (getenv "OPERATOR_NAMESPACE")

  unfoldable pub add_handlers : M → List (String × ProfileHandler) → Program W M
  add_handlers mgr [] = known (some mgr)
  add_handlers mgr ((path, handler) ∷ rest) = do
    or_exit (pkg.add_metrics_extra_handler mgr path handler)
    add_handlers mgr rest

  unfoldable pub add_debug_pprof_endpoints : M → Program W M
  add_debug_pprof_endpoints mgr = add_handlers mgr (pkg.range pprof_endpoints)

  abbrev pub pprof_enabled : Option String → Bool
  pprof_enabled none = false
  pprof_enabled (some text) = ignore_error (pkg.parse_bool text)

  unfoldable pub add_profiling : M → Program W M
  add_profiling mgr w = elim (pprof_enabled (pkg.lookup_env "ENABLE_DEBUG_PPROF")) [
    | true ↦ add_debug_pprof_endpoints mgr w
    | false ↦ (some mgr, w)
  ]

  unfoldable pub index_owned : M → List String → Program W (Unit {0})
  index_owned mgr [] = known (some tt)
  index_owned mgr (kind ∷ rest) = do
    or_exit (pkg.index_field mgr kind ".metadata.controller")
    index_owned mgr rest

  unfoldable pub setup_with_manager : M → ReconcilerSettings C K → Program W (Unit {0})
  setup_with_manager mgr settings = do
    index_owned mgr ("StatefulSet" ∷ "ConfigMap" ∷ "Service" ∷ [])
    or_exit (
        pkg.complete mgr "RabbitmqCluster"
          ("StatefulSet" ∷ "ConfigMap" ∷ "Service" ∷ "Role" ∷ "RoleBinding" ∷ "ServiceAccount"
            ∷ "Secret" ∷ [])
          settings)

  abbrev pub settings_of : String → C → K → ReconcilerSettings C K
  settings_of namespace config clientset = record {
    namespace = namespace;
    cluster_config = config;
    clientset = clientset;
    default_rabbitmq_image =
        value_or (pkg.lookup_env "DEFAULT_RABBITMQ_IMAGE") "rabbitmq:3.10.2-management";
    default_user_updater_image =
        value_or (pkg.lookup_env "DEFAULT_USER_UPDATER_IMAGE")
          "rabbitmqoperator/default-user-credential-updater:1.0.2";
    default_image_pull_secrets = value_or (pkg.lookup_env "DEFAULT_IMAGE_PULL_SECRETS") "";
  }

  -- What follows the reading of the environment.
  unfoldable pub start_manager : String → ManagerOptions → Program W (Unit {0})
  start_manager namespace options = do
    config ← pkg.get_config_or_die
    mgr ← or_exit (pkg.new_manager config options)
    profiled ← add_profiling mgr
    cluster_config ← pkg.get_config_or_die
    clientset ← pkg.new_for_config_or_die cluster_config
    setup_with_manager profiled (settings_of namespace cluster_config clientset)
    or_exit (pkg.start profiled)

  unfoldable pub main : Program W (Unit {0})
  main = do
    namespace ← known operator_namespace
    lease ← known (duration_option "LEASE_DURATION")
    renew ← known (duration_option "RENEW_DEADLINE")
    retry ← known (duration_option "RETRY_PERIOD")
    start_manager namespace (record {
      metrics_bind_address = pkg.metrics_addr;
      leader_election = true;
      leader_election_namespace = namespace;
      leader_election_id = "rabbitmq-cluster-operator-leader-election";
      namespace = getenv "OPERATOR_SCOPE_NAMESPACE";
      lease_duration = lease;
      renew_deadline = renew;
      retry_period = retry;
    })
