-- ===== src/EntryPoint/Durations.antt =====
-- main.go: what getEnvInDuration makes of the number of seconds in the environment.
use mathlib.Core.Option.{some-injective}
use pos_data_showcase.Prelude.{
  ℕ, zero, suc, ◌-◌, ◌*◌, ◌%◌, ◌^◌, ◌<◌, ◌≤◌, ltb, String, Bool, true, false, Bool-cases, ◌⊎◌, inl,
  inr, if◌then◌else◌, none, some, ◌≡◌, ◌↔◌, refl, sym, ap, ◌∙◌, arith, str_eq,
}
use pos_data_showcase.Kube.Exec.{ok}
use pos_data_showcase.EntryPoint.{
  Duration, Packages, of_seconds, second, unless_zero, get_env_in_duration, duration_option,
}

-- 10 ^ 9 is 2 ^ 9 times an odd number.
of_seconds-zero : (n : ℕ) → of_seconds n ≡ 0 → n % 2 ^ 55 ≡ 0
unfolding of_seconds
of_seconds-zero n e = omega arith

zero-of_seconds : (n : ℕ) → n % 2 ^ 55 ≡ 0 → of_seconds n ≡ 0
unfolding of_seconds
zero-of_seconds n e = omega arith

-- The bits of an int64 of a sign and an amount, and what the bits of an int64 say: whether the number
-- is negative, and its amount.
abbrev pub int64_of : Bool → ℕ → ℕ
int64_of false m = m
int64_of true m = (2 ^ 64 - m) % 2 ^ 64

abbrev pub signed : Duration → Bool × ℕ
signed d = if ltb d (2 ^ 63) then (false, d) else (true, 2 ^ 64 - d)

signed-eq :
    (d x : ℕ) (negative : Bool)
    → signed d ≡ (negative, x)
    → ((negative ≡ false) × (d < 2 ^ 63) × (d ≡ x))
      ⊎ ((negative ≡ true) × (2 ^ 63 ≤ d) × (2 ^ 64 - d ≡ x))
signed-eq d x negative e = elim (Bool-cases (ltb d (2 ^ 63))) [
  | inl h ↦
      let f : (false, d) ≡ (negative, x) = rw h at e in
      inl (sym (ap (λ p. p.0) f), ground (arith, h), ap (λ p. p.1) f)
  | inr h ↦
      let f : (true, 2 ^ 64 - d) ≡ (negative, x) = rw h at e in
      inr (sym (ap (λ p. p.0) f), ground (arith, h), ap (λ p. p.1) f)
]

signed-positive : (d : ℕ) → d < 2 ^ 63 → signed d ≡ (false, d)
signed-positive d h = let t : ltb d (2 ^ 63) ≡ true = ground arith in rw t refl

signed-negative : (d : ℕ) → 2 ^ 63 ≤ d → signed d ≡ (true, 2 ^ 64 - d)
signed-negative d h = let t : ltb d (2 ^ 63) ≡ false = ground arith in rw t refl

-- A duration that is read as an amount of seconds is that of a number that did not wrap around.
amount_small :
    (n m : ℕ) (negative : Bool)
    → 0 < of_seconds n
    → signed (of_seconds n) ≡ (negative, m * second)
    → (0 < m) × (m * second < 2 ^ 63)
unfolding of_seconds
amount_small n m negative positive e = elim (signed-eq (of_seconds n) (m * second) negative e) [
  | inl (_, small, same) ↦ (omega arith, omega arith)
  | inr (_, big, same) ↦ (omega arith, omega arith)
]

small_amount :
    (negative : Bool) (m : ℕ)
    → 0 < m
    → m * second < 2 ^ 63
    → (0 < of_seconds (int64_of negative m))
      × (signed (of_seconds (int64_of negative m)) ≡ (negative, m * second))
unfolding of_seconds
small_amount false m positive small =
    let same : of_seconds m ≡ m * second = omega arith in
    (omega arith, signed-positive (of_seconds m) (omega arith) ∙ ap (λ x. (false, x)) same)
small_amount true m positive small =
    let same : of_seconds (int64_of true m) ≡ 2 ^ 64 - m * second = omega arith in
    (
      omega arith,
      signed-negative (of_seconds (int64_of true m)) (omega arith)
          ∙ ap (λ x. (true, x)) (omega arith),
    )

low_bits :
    (negative : Bool) (m : ℕ) → m < 2 ^ 63 → (int64_of negative m % 2 ^ 55 ≡ 0) ↔ (m % 2 ^ 55 ≡ 0)
low_bits false m h = (λ e. e, λ e. e)
low_bits true m h = (λ e. omega arith, λ e. omega arith)

unless_zero-eq-none : (d : Duration) → unless_zero d ≡ none → d ≡ 0
unless_zero-eq-none zero e = refl
unless_zero-eq-none (suc d) e = absurd (cc e)

unless_zero-eq-some : (d x : Duration) → unless_zero d ≡ some x → (d ≡ x) × (0 < d)
unless_zero-eq-some zero x e = absurd (cc e)
unless_zero-eq-some (suc d) x e = (some-injective (suc d) x e, omega arith)

unless_zero-positive : (d : Duration) → 0 < d → unless_zero d ≡ some d
unless_zero-positive zero l = absurd (omega (arith, l))
unless_zero-positive (suc d) l = refl

module _ {W M C K : Type 0} (pkg : Packages W M C K) (name text : String) where
  duration_option-value :
      (n : ℕ)
      → pkg.lookup_env name ≡ some text
      → str_eq text "" ≡ false
      → pkg.parse_int text ≡ ok n
      → duration_option pkg name ≡ some (unless_zero (of_seconds n))
  unfolding duration_option get_env_in_duration
  duration_option-value n given given_text parsed =
      rw (given, duration_option, get_env_in_duration) (rw given_text (rw parsed refl))

  -- Of a duration that the environment gives as a text of so many seconds, an int64 of a sign and an
  -- amount `m` below 2 ^ 63: the manager's option is left unset exactly where `m` is a multiple of
  -- 2 ^ 55, and it is set to a duration that is exactly that many seconds, in nanoseconds and with that
  -- sign, exactly where `m` is not 0 and its nanoseconds are below 2 ^ 63.
  pub duration_option_lem :
      (negative : Bool) (m : ℕ)
      → m < 2 ^ 63
      → pkg.lookup_env name ≡ some text
      → str_eq text "" ≡ false
      → pkg.parse_int text ≡ ok (int64_of negative m)
      → ((duration_option pkg name ≡ some none) ↔ (m % 2 ^ 55 ≡ 0))
        × (((d : Duration) × (duration_option pkg name ≡ some (some d))
              × (signed d ≡ (negative, m * second)))
            ↔ ((0 < m) × (m * second < 2 ^ 63)))
  duration_option_lem negative m fits given given_text parsed =
      let n = int64_of negative m in
      let value = duration_option-value n given given_text parsed in
      (
        (
          λ e. (low_bits negative m fits).0 (
              of_seconds-zero n
                (unless_zero-eq-none (of_seconds n) (some-injective _ _ (sym value ∙ e)))),
          λ e.
              value
              ∙ ap (λ d. some (unless_zero d)) (zero-of_seconds n ((low_bits negative m fits).1 e)),
        ),
        (
          λ (d, set, read).
              let (same, positive) =
                unless_zero-eq-some (of_seconds n) d (some-injective _ _ (sym value ∙ set)) in
              amount_small n m negative positive (ap signed same ∙ read),
          λ (positive, small).
              let (set, read) = small_amount negative m positive small in
              (of_seconds n, value ∙ ap some (unless_zero-positive (of_seconds n) set), read),
        ),
      )
