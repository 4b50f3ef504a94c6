-- ===== src/Kube/Exec.antt =====
-- A call that the operator makes: it changes the world outside (`W`: the cluster, the clock) and
-- returns a value or an error.
pub mod Inversion
use pos_data_showcase.Prelude.{◌≡◌, Bool, true, false, Option, none, some}
use pos_data_showcase.Kube.Error.{Error}

pub data Result {ℓ} (A : Type ℓ) : Type ℓ where
  ok : A → Result A
  err : Error → Result A

abbrev pub Exec : Type 0 → Type 0 → Type 0
Exec W A = W → Result A × W

module _ {W A : Type 0} where
  abbrev pub pure : A → Exec W A
  pure a w = (ok a, w)

  abbrev pub fail : Error → Exec W A
  fail e w = (err e, w)

  -- `v, err := call()`, where the code looks at the error itself.
  abbrev pub attempt : Exec W A → Exec W (Result A)
  attempt m w = let (r, w') = m w in (ok r, w')

module _ {W A B : Type 0} where
  abbrev pub continue : Result A → (A → Exec W B) → Exec W B
  continue (ok a) f w = f a w
  continue (err e) f w = (err e, w)

  infixl 10 ◌>>=◌ ◌>>◌
  -- `if err != nil { return err }` after a call.
  abbrev pub ◌>>=◌ : Exec W A → (A → Exec W B) → Exec W B
  ◌>>=◌ m f w = let (r, w') = m w in continue r f w'

  abbrev pub ◌>>◌ : Exec W A → Exec W B → Exec W B
  ◌>>◌ m n w = let (r, w') = m w in continue r (λ _. n) w'

abbrev pub wrap {ℓ} : {A : Type ℓ} → (Error → Error) → Result A → Result A
wrap f (ok a) = ok a
wrap f (err e) = err (f e)

-- `if err != nil { return f(err) }` after a call.
abbrev pub or_fail : {W A : Type 0} → (Error → Error) → Exec W A → Exec W A
or_fail f m w = let (r, w') = m w in (wrap f r, w')

-- `if cond { return err }`, for a test that gives the error to return.
abbrev pub unless : {W A : Type 0} → Option Error → Exec W A → Exec W A
unless (some e) m w = (err e, w)
unless none m w = m w

-- `if test { if err := call(); err != nil { return err } }`
abbrev pub run_if : {W : Type 0} → Bool → Exec W (Unit {0}) → Exec W (Unit {0})
run_if false m w = (ok tt, w)
run_if true m w = m w

pub wrap-eq-ok :
    {A : Type 0} (f : Error → Error) (r : Result A) {a : A} → wrap f r ≡ ok a → r ≡ ok a
wrap-eq-ok f (ok b) e = cc e
wrap-eq-ok f (err x) e = absurd (cc e)
