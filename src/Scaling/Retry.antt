-- ===== src/Scaling/Retry.antt =====
-- internal/scaling/scaling.go: `retryWithInterval` returns at the first success, or gives up after the
-- given number of polls.
use native.Mathlib.Nat.{zero-add, suc-add}
use pos_data_showcase.Prelude.{ℕ, zero, suc, ◌+◌, ◌≡◌, Bool, true, false}
use pos_data_showcase.Kube.Error.{Error}
use pos_data_showcase.Kube.Exec.{ok}
use pos_data_showcase.Scaling.{retry_with_interval}

module _ {W : Type 0} (sleep : W → W) (failure : Error) (f : W → Bool × W) where
  -- The world after `n` polls, each with a pause behind it.
  abbrev pub polled : ℕ → W → W
  polled zero w = w
  polled (suc n) w = polled n (sleep (f w).1)

  -- The first `n` polls fail.
  abbrev pub AllFail : ℕ → W → Type 0
  AllFail zero w = Unit
  AllFail (suc n) w = ((f w).0 ≡ false) × AllFail n (sleep (f w).1)

  -- Where the first success is poll `n` and at least that many are allowed, the call returns there,
  -- with no pause behind it and no poll after it.
  pub retry-success :
      (n more : ℕ) (w : W)
      → AllFail n w
      → (f (polled n w)).0 ≡ true
      → retry_with_interval sleep failure (n + suc more) f w ≡ (ok tt, (f (polled n w)).1)
  unfolding retry_with_interval
  retry-success zero more w h e = rw zero-add (rw (e, retry_with_interval))
  retry-success (suc n) more w (h, hs) e =
      rw suc-add (rw (h, retry_with_interval) (retry-success n more (sleep (f w).1) hs e))
