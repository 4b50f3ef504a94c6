-- ===== src/Kube/Outcome.antt =====
-- What a function gives back that may return an error, and that panics where it follows a nil pointer
-- or writes past the end of a slice.
use pos_data_showcase.Prelude.{Option, none, some, ◌≡◌, ◌≢◌, refl}
use pos_data_showcase.Kube.Error.{Error}
use pos_data_showcase.Kube.Exec.{Result, ok, err}

pub data Outcome (A : Type 0) : Type 0 where
  returned : A → Outcome A
  failed : Error → Outcome A
  panic : Outcome A

module _ {A : Type 0} where
  -- `*p`
  abbrev pub deref : Option A → Outcome A
  deref none = panic
  deref (some a) = returned a

  -- `if err != nil { return f(err) }`
  abbrev pub or_failed : (Error → Error) → Result A → Outcome A
  or_failed f (ok a) = returned a
  or_failed f (err e) = failed (f e)

  -- The same after a function that may panic.
  abbrev pub wrap_failed : (Error → Error) → Outcome A → Outcome A
  wrap_failed f (returned a) = returned a
  wrap_failed f (failed e) = failed (f e)
  wrap_failed f panic = panic

module _ {A B : Type 0} where
  infixl 10 ◌>>=◌
  abbrev pub ◌>>=◌ : Outcome A → (A → Outcome B) → Outcome B
  returned a >>= f = f a
  failed e >>= f = failed e
  panic >>= f = panic

  pub >>=-eq-returned :
      (m : Outcome A) (f : A → Outcome B) {b : B}
      → m >>= f ≡ returned b
      → (a : A) × (m ≡ returned a) × (f a ≡ returned b)
  >>=-eq-returned (returned a) f e = (a, refl, e)
  >>=-eq-returned (failed x) f e = absurd (cc e)
  >>=-eq-returned panic f e = absurd (cc e)

pub returned-injective : {A : Type 0} (a b : A) → returned a ≡ returned b → a ≡ b
returned-injective a b e = cc e

pub deref-eq-returned : {A : Type 0} (o : Option A) {a : A} → deref o ≡ returned a → o ≡ some a
deref-eq-returned none e = absurd (cc e)
deref-eq-returned (some b) e = cc e

pub or_failed-eq-returned :
    {A : Type 0} (f : Error → Error) (r : Result A) {a : A} → or_failed f r ≡ returned a → r ≡ ok a
or_failed-eq-returned f (ok b) e = cc e
or_failed-eq-returned f (err x) e = absurd (cc e)

-- What cannot end in a panic.
pub or_failed-ne-panic : {A : Type 0} (f : Error → Error) (r : Result A) → or_failed f r ≢ panic
or_failed-ne-panic f (ok a) e = cc e
or_failed-ne-panic f (err x) e = cc e

pub wrap_failed-ne-panic :
    {A : Type 0} (f : Error → Error) (m : Outcome A) → m ≢ panic → wrap_failed f m ≢ panic
wrap_failed-ne-panic f (returned a) h e = cc e
wrap_failed-ne-panic f (failed x) h e = cc e
wrap_failed-ne-panic f panic h e = h refl

pub >>=-ne-panic :
    {A B : Type 0} (m : Outcome A) (f : A → Outcome B)
    → m ≢ panic
    → ((a : A) → m ≡ returned a → f a ≢ panic)
    → (m >>= f) ≢ panic
>>=-ne-panic (returned a) f h k e = k a refl e
>>=-ne-panic (failed x) f h k e = cc e
>>=-ne-panic panic f h k e = h refl
