-- ===== src/Resource/Headroom/Bounds.antt =====
-- internal/resource/configmap.go: the headroom that the Erlang VM is left.
use Prim.Native.Nat.{min}
use pos_data_showcase.Prelude.{ℕ, ◌≡◌, ◌+◌, ◌*◌, ◌/◌, arith}
use pos_data_showcase.Resource.Headroom.{gib, remove_headroom}

-- What is taken off the limit is the smaller of a fifth of it, rounded down, and 2 GiB.
remove_headroom-min : (limit : ℕ) → remove_headroom limit + min (limit / 5) (2 * gib) ≡ limit
unfolding remove_headroom
remove_headroom-min limit = ground arith
