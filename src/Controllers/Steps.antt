-- ===== src/Controllers/Steps.antt =====
-- controllers/rabbitmqcluster_controller.go: the steps of Reconcile, each of which may return from it.
pub mod Inversion
use pos_data_showcase.Prelude.{ℕ, zero, suc, Bool, true, false}
use pos_data_showcase.Kube.Exec.{Result, ok, err, Exec}
use pos_data_showcase.Kube.Outcome.{Outcome, returned, failed, panic}
use pos_data_showcase.Controllers.{Loop}

-- After a step: go on, return from Reconcile with a delay in seconds or an error, or a panic.
pub data Reply (A : Type 0) : Type 0 where
  next : A → Reply A
  answer : Result ℕ → Reply A
  panicked : Reply A

abbrev pub Step : Type 0 → Type 0 → Type 0
Step W A = Loop W → Reply A × Loop W

module _ {W A B : Type 0} where
  abbrev pub follow : Reply A → (A → Step W B) → Step W B
  follow (next a) f s = f a s
  follow (answer x) f s = (answer x, s)
  follow panicked f s = (panicked, s)

  infixl 10 ◌>>=◌ ◌>>◌
  abbrev pub ◌>>=◌ : Step W A → (A → Step W B) → Step W B
  ◌>>=◌ m f s = let (x, s') = m s in follow x f s'

  abbrev pub ◌>>◌ : Step W A → Step W B → Step W B
  ◌>>◌ m n s = let (x, s') = m s in follow x (λ _. n) s'

abbrev pub reply_to : {A : Type 0} → Result A → Reply A
reply_to (ok a) = next a
reply_to (err e) = answer (err e)

module _ {W A : Type 0} where
  abbrev pub go_on : A → Step W A
  go_on a s = (next a, s)

  abbrev pub return : Result ℕ → Step W A
  return x s = (answer x, s)

  -- `if err := call(); err != nil { return ctrl.Result{}, err }`
  abbrev pub or_return : Exec (Loop W) A → Step W A
  or_return m s = let (x, s') = m s in (reply_to x, s')

  -- The same for a function that may panic.
  abbrev pub or_panic : Outcome A → Step W A
  or_panic (returned a) s = (next a, s)
  or_panic (failed e) s = (answer (err e), s)
  or_panic panic s = (panicked, s)

abbrev pub requeue_reply : Result ℕ → Reply (Unit {0})
requeue_reply (ok zero) = next tt
requeue_reply (ok (suc n)) = answer (ok (suc n))
requeue_reply (err e) = answer (err e)

module _ {W : Type 0} where
  -- `if requeueAfter, err := call(); err != nil || requeueAfter > 0 { return … }`
  abbrev pub or_requeue : Exec (Loop W) ℕ → Step W (Unit {0})
  or_requeue m s = let (x, s') = m s in (requeue_reply x, s')

  -- `if test { …; return }`
  abbrev pub return_if : Bool → Step W (Unit {0}) → Step W (Unit {0})
  return_if true m s = m s
  return_if false m s = (next tt, s)
