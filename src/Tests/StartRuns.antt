-- ===== src/Tests/StartRuns.antt =====
-- Starts of the operator, with a log of what is called.
use pos_data_showcase.Prelude.{
  ◌*◌, ◌%◌, ◌^◌, ◌<◌, String, Option, false, none, some, List, [], ◌∷◌, arith, ◌≡◌, ◌↔◌, inl, inr,
  refl, str_eq, if◌then◌else◌,
}
use pos_data_showcase.Kube.Error.{plain}
use pos_data_showcase.Kube.Exec.{ok, err}
use pos_data_showcase.EntryPoint.{
  Packages, Duration, second, duration_option, main, operator_namespace, start_manager,
  get_env_in_duration, of_seconds, add_profiling, setup_with_manager, index_owned,
}
use pos_data_showcase.EntryPoint.Durations.{signed, duration_option_lem}
use pos_data_showcase.EntryPoint.Refused.{main-refused}

abbrev environment : String → String → Option String
environment lease name =
    if str_eq name "OPERATOR_NAMESPACE"
    then some "rabbitmq-system"
    else if str_eq name "LEASE_DURATION"
    then some lease
    else none

abbrev start_packages : String → Packages (List String) (Unit {0}) (Unit {0}) (Unit {0})
start_packages lease = record {
  metrics_addr = ":9782";
  lookup_env = environment lease;
  parse_int = λ text. if str_eq text "15" then ok 15 else err (plain "invalid syntax");
  parse_bool = λ text. err (plain "invalid syntax");
  get_config_or_die = λ w. (some tt, "configuration" ∷ w);
  new_for_config_or_die = λ config w. (some tt, w);
  new_manager = λ config options w. (ok tt, "manager" ∷ w);
  add_metrics_extra_handler = λ mgr path handler w. (ok tt, path ∷ w);
  range = λ handlers. handlers;
  index_field = λ mgr kind key w. (ok tt, kind ∷ w);
  complete = λ mgr kind owned settings w. (ok tt, kind ∷ w);
  start = λ mgr w. (ok tt, "start" ∷ w);
}

started_test : main (start_packages "15") [] ≡ (
  some tt,
  "start" ∷ "RabbitmqCluster" ∷ "Service" ∷ "ConfigMap" ∷ "StatefulSet" ∷ "configuration"
      ∷ "manager" ∷ "configuration" ∷ [],
)
unfolding main operator_namespace duration_option get_env_in_duration of_seconds start_manager
    add_profiling setup_with_manager index_owned
started_test = refl

duration_option_lem_example :
    ((duration_option (start_packages "15") "LEASE_DURATION" ≡ some none) ↔ (15 % 2 ^ 55 ≡ 0))
    × (((d : Duration) × (duration_option (start_packages "15") "LEASE_DURATION" ≡ some (some d))
          × (signed d ≡ (false, 15 * second)))
        ↔ ((0 < 15) × (15 * second < 2 ^ 63)))
duration_option_lem_example =
    duration_option_lem (start_packages "15") "LEASE_DURATION" "15" false 15 (omega arith) refl refl
      refl

main-refused_example : main (start_packages "soon") [] ≡ (none, [])
main-refused_example =
    main-refused (start_packages "soon") [] (inr (inl (refl, plain "invalid syntax", refl)))
