-- ===== src/Resource/Headroom.antt =====
-- internal/resource/configmap.go: `removeHeadroom`, on a limit that is not negative, as an int64.
pub mod Bounds
use pos_data_showcase.Prelude.{ℕ, ◌-◌, ◌*◌, ◌/◌, ltb, if◌then◌else◌}

abbrev pub gib : ℕ
gib = 1073741824

unfoldable pub remove_headroom : ℕ → ℕ
remove_headroom mem_limit =
    if ltb (2 * gib) (mem_limit / 5) then mem_limit - 2 * gib else mem_limit - mem_limit / 5
