-- ===== src/Prelude/Strings.antt =====
-- What the program uses of Go's package strings, besides `HasPrefix`. Positions count bytes.
use Prim.Native.Nat.{ℕ, zero, suc, ◌+◌, ◌-◌}
use mathlib.Core.List.{List, [], ◌∷◌}
use mathlib.Core.Option.{none, some}
use Prim.Native.String.{String, len, slice}
use mathlib.Core.Bool.{Bool}
use text.Mathlib.Text.{◌==◌ as str_eq, find?, starts_with}
use pos_data_showcase.Prelude.Tests.{leb, if◌then◌else◌}
use mathlib.Core.Bool.{◌&&◌}

-- `strings.HasSuffix`
unfoldable pub has_suffix : String → String → Bool
has_suffix s t = leb (len t) (len s) && str_eq (slice s (len s - len t) (len s)) t

-- `strings.TrimSuffix`
unfoldable pub trim_suffix : String → String → String
unfolding has_suffix
trim_suffix s t = if has_suffix s t then slice s 0 (len s - len t) else s

-- `strings.TrimPrefix`
unfoldable pub trim_prefix : String → String → String
trim_prefix s t = if starts_with s t then slice s (len t) (len s) else s

-- `strings.Split`, on fuel: each round takes a separator off, so one more than the length is enough.
unfoldable pub split_from : ℕ → String → String → List String
split_from zero s sep = s ∷ []
split_from (suc fuel) s sep = elim (find? s sep) [
  | none ↦ s ∷ []
  | some i ↦ slice s 0 i ∷ split_from fuel (slice s (i + len sep) (len s)) sep
]

unfoldable pub split : String → String → List String
split s sep = split_from (suc (len s)) s sep
