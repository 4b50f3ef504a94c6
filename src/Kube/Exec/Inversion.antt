-- ===== src/Kube/Exec/Inversion.antt =====
-- From a chain of calls that succeeded, its parts; and calls that keep what is seen of the world.
use pos_data_showcase.Prelude.{◌≡◌, ◌⊎◌, inl, inr, refl, ap, ◌∙◌}
use pos_data_showcase.Kube.Error.{Error}
use pos_data_showcase.Kube.Exec.{Exec, Result, ok, err, continue, ◌>>=◌, wrap, or_fail}

module _ {W A B : Type 0} where
  continue-eq-ok :
      (r : Result A) (f : A → Exec W B) (w : W) {b : B} {w' : W}
      → continue r f w ≡ (ok b, w')
      → (a : A) × (r ≡ ok a) × (f a w ≡ (ok b, w'))
  continue-eq-ok (ok a) f w e = (a, refl, e)
  continue-eq-ok (err x) f w {b} e = cc (ap (λ (p : Result B × W). p.0) e)

  -- A chain that succeeds begins with a call that does.
  pub >>=-eq-ok :
      (m : Exec W A) (f : A → Exec W B) (w : W) {b : B} {w' : W}
      → (m >>= f) w ≡ (ok b, w')
      → (a : A) × (w1 : W) × (m w ≡ (ok a, w1)) × (f a w1 ≡ (ok b, w'))
  >>=-eq-ok m f w e =
      let (a, r, rest) = continue-eq-ok (m w).0 f (m w).1 e in
      (a, (m w).1, λ i. (r i, (m w).1), rest)

module _ {W A B : Type 0} where
  continue-eq-err :
      (r : Result A) (f : A → Exec W B) (w : W) {x : Error} {w' : W}
      → continue r f w ≡ (err x, w')
      → ((r ≡ err x) × (w ≡ w')) ⊎ ((a : A) × (r ≡ ok a) × (f a w ≡ (err x, w')))
  continue-eq-err (ok a) f w e = inr (a, refl, e)
  continue-eq-err (err y) f w e =
      inl (cc (ap (λ (p : Result B × W). p.0) e), ap (λ (p : Result B × W). p.1) e)

  -- A chain that fails begins with a call that does, or goes on to one that does.
  pub >>=-eq-err :
      (m : Exec W A) (f : A → Exec W B) (w : W) {x : Error} {w' : W}
      → (m >>= f) w ≡ (err x, w')
      → (m w ≡ (err x, w')) ⊎ ((a : A) × (w1 : W) × (m w ≡ (ok a, w1)) × (f a w1 ≡ (err x, w')))
  >>=-eq-err m f w e = elim (continue-eq-err (m w).0 f (m w).1 e) [
    | inl (r, same) ↦ inl (λ i. (r i, same i))
    | inr (a, r, rest) ↦ inr (a, (m w).1, λ i. (r i, (m w).1), rest)
  ]

wrap-eq-ok : {A : Type 0} (f : Error → Error) (r : Result A) {a : A} → wrap f r ≡ ok a → r ≡ ok a
wrap-eq-ok f (ok a) e = e
wrap-eq-ok f (err x) e = cc e

module _ {W A : Type 0} where
  pub or_fail-eq-ok :
      (f : Error → Error) (m : Exec W A) (w : W) {a : A} {w' : W}
      → or_fail f m w ≡ (ok a, w')
      → m w ≡ (ok a, w')
  or_fail-eq-ok f m w e = λ i. (wrap-eq-ok f (m w).0 (λ j. (e j).0) i, (e i).1)

-- What is seen of the world is the same after the call, whether it fails or not.
abbrev pub Keeps {κ} : {W A : Type 0} {V : Type κ} → (W → V) → Exec W A → Type κ
Keeps {W} see m = (w : W) → see (m w).1 ≡ see w

module _ {κ} {W A B : Type 0} {V : Type κ} (see : W → V) where
  continue-Keeps :
      (r : Result A) (f : A → Exec W B)
      → ((a : A) → Keeps see (f a))
      → (w : W) → see (continue r f w).1 ≡ see w
  continue-Keeps (ok a) f k w = k a w
  continue-Keeps (err e) f k w = refl

  pub Keeps-bind :
      (m : Exec W A) (f : A → Exec W B)
      → Keeps see m
      → ((a : A) → Keeps see (f a))
      → Keeps see (m >>= f)
  Keeps-bind m f km kf w = continue-Keeps (m w).0 f kf (m w).1 ∙ km w

Result-cases : {A : Type 0} (r : Result A) → ((a : A) × (r ≡ ok a)) ⊎ ((e : Error) × (r ≡ err e))
Result-cases (ok a) = inl (a, refl)
Result-cases (err e) = inr (e, refl)

-- A call succeeds or fails, with the equation of its outcome.
pub Call-cases :
    {W A : Type 0} (m : Exec W A) (w : W)
    → ((a : A) × (m w ≡ (ok a, (m w).1))) ⊎ ((e : Error) × (m w ≡ (err e, (m w).1)))
Call-cases m w = elim (Result-cases (m w).0) [
  | inl (a, e) ↦ inl (a, λ i. (e i, (m w).1))
  | inr (x, e) ↦ inr (x, λ i. (e i, (m w).1))
]
