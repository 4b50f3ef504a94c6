-- ===== src/EntryPoint/Refused.antt =====
-- main.go: where the operator does not start.
use pos_data_showcase.Prelude.{
  String, Option, true, false, none, some, ◌≡◌, ◌⊎◌, inl, inr, refl, str_eq,
}
use pos_data_showcase.Kube.Error.{Error}
use pos_data_showcase.Kube.Exec.{err}
use pos_data_showcase.EntryPoint.{
  Packages, getenv, get_env_in_duration, duration_option, operator_namespace, main, Program, run_on,
}

module _ {W M C K : Type 0} (pkg : Packages W M C K) where
  -- A text that is no number of seconds.
  abbrev pub IsUnreadable : String → Type 0
  IsUnreadable name =
      (str_eq (getenv pkg name) "" ≡ false)
      × (e : Error) × (pkg.parse_int (getenv pkg name) ≡ err e)

  duration_option-none : (name : String) → IsUnreadable name → duration_option pkg name ≡ none
  unfolding duration_option get_env_in_duration
  duration_option-none name (given, e, unread) =
      rw (given, duration_option, get_env_in_duration) (rw unread refl)

  run_on-ended :
      {A B : Type 0} (o : Option A) (f : A → Program W B) (w : W)
      → ((a : A) → f a w ≡ (none, w))
      → run_on o f w ≡ (none, w)
  run_on-ended none f w h = refl
  run_on-ended (some a) f w h = h a

  -- The operator ends before it calls anything, whatever the rest of its environment says, where it
  -- is given no namespace of its own, or where the lease duration, the renew deadline or the retry
  -- period is no number.
  pub main-refused :
      (w : W)
      → (str_eq (getenv pkg "OPERATOR_NAMESPACE") "" ≡ true)
        ⊎ (IsUnreadable "LEASE_DURATION"
            ⊎ (IsUnreadable "RENEW_DEADLINE" ⊎ IsUnreadable "RETRY_PERIOD"))
      → main pkg w ≡ (none, w)
  unfolding main operator_namespace
  main-refused w (inl h) = rw (h, main, operator_namespace) refl
  main-refused w (inr (inl h)) =
      run_on-ended (operator_namespace pkg) _ w
        (λ _. rw (duration_option-none "LEASE_DURATION" h) refl)
  main-refused w (inr (inr (inl h))) = run_on-ended (operator_namespace pkg) _ w (λ _.
      run_on-ended (duration_option pkg "LEASE_DURATION") _ w
        (λ _. rw (duration_option-none "RENEW_DEADLINE" h) refl))
  main-refused w (inr (inr (inr h))) = run_on-ended (operator_namespace pkg) _ w (λ _.
      run_on-ended (duration_option pkg "LEASE_DURATION") _ w (λ _.
        run_on-ended (duration_option pkg "RENEW_DEADLINE") _ w
          (λ _. rw (duration_option-none "RETRY_PERIOD" h) refl)))
