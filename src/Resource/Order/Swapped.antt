-- ===== src/Resource/Order/Swapped.antt =====
-- internal/resource/statefulset.go: what a swap of two elements of a slice, and a loop of such swaps,
-- keeps.
use mathlib.Core.List.{Perm}
use mathlib.Core.List.Perm
use pos_data_showcase.Prelude.{
  ℕ, zero, suc, ◌+◌, ◌<◌, ◌==◌, arith, some, List, [], ◌∷◌, get_elem?, set, length, ◌≡◌, refl, ap,
  ◌∙◌, if◌then◌else◌,
}
use pos_data_showcase.Kube.Outcome.{Outcome, returned}
use pos_data_showcase.Resource.Order.{swap, for_each_from}

module _ {A : Type 0} where
  there : (xs : List A) (i : ℕ) → i < length xs → (a : A) × (get_elem? xs i ≡ some a)
  there [] i h = absurd (omega arith)
  there (x ∷ xs) zero h = (x, refl)
  there (x ∷ xs) (suc i) h = there xs i (omega arith)

  length-set : (xs : List A) (i : ℕ) (v : A) → length (set xs i v) ≡ length xs
  length-set [] i v = refl
  length-set (x ∷ xs) zero v = refl
  length-set (x ∷ xs) (suc i) v = ap suc (length-set xs i v)

  get_elem?-set :
      (xs : List A) (i k : ℕ) (v : A)
      → i < length xs
      → get_elem? (set xs i v) k ≡ (if i == k then some v else get_elem? xs k)
  get_elem?-set [] i k v h = absurd (omega arith)
  get_elem?-set (x ∷ xs) zero zero v h = refl
  get_elem?-set (x ∷ xs) zero (suc k) v h = ground arith
  get_elem?-set (x ∷ xs) (suc i) zero v h = ground arith
  get_elem?-set (x ∷ xs) (suc i) (suc k) v h = ground (arith, get_elem?-set xs i k v)

  -- The old element goes out where the new one comes in.
  set-perm :
      (xs : List A) (i : ℕ) (a v : A) → get_elem? xs i ≡ some a → Perm (a ∷ set xs i v) (v ∷ xs)
  set-perm [] i a v e = absurd (cc e)
  set-perm (x ∷ xs) zero a v e = let same : x ≡ a = cc e in rw (← same) (Perm.swap v x xs)
  set-perm (x ∷ xs) (suc i) a v e =
      Perm.trans (Perm.swap x a (set xs i v))
        (Perm.trans (Perm.cons x (set-perm xs i a v e)) (Perm.swap v x xs))

  -- In range a swap returns a permutation, with the two elements exchanged.
  pub swap_lem :
      (xs : List A) (i j : ℕ)
      → i < length xs
      → j < length xs
      → (ys : List A) × (swap xs i j ≡ returned ys)
        × Perm ys xs
        × (length ys ≡ length xs)
        × ((k : ℕ)
            → get_elem? ys k ≡ (
                if j == k
                then get_elem? xs i
                else if i == k
                then get_elem? xs j
                else get_elem? xs k))
  unfolding swap
  swap_lem xs i j hi hj =
      let (a, ea) = there xs i hi in
      let (b, eb) = there xs j hj in
      let one = set xs i b in
      let lengths = length-set xs i b in
      let old : get_elem? one j ≡ some b = ground (arith, get_elem?-set xs i j b) in
      (
        set one j a,
        rw (ea, eb),
        Perm.cons_inv (Perm.trans (set-perm one j b a old) (set-perm xs i a b ea)),
        length-set one j a ∙ lengths,
        λ k. ground (arith, get_elem?-set one j k a, get_elem?-set xs i k b),
      )

  -- A loop whose body keeps the elements and an invariant.
  pub for_each_from_lem :
      (body : List A → ℕ → A → Outcome (List A)) (P : ℕ → List A → Type 0)
      (step : (i : ℕ) (xs : List A) (x : A)
        → get_elem? xs i ≡ some x
        → i < length xs
        → P i xs
        → (ys : List A) × (body xs i x ≡ returned ys)
          × Perm ys xs
          × (length ys ≡ length xs)
          × P (i + 1) ys)
      (n i : ℕ) (xs : List A)
      → i + n ≡ length xs
      → P i xs
      → (ys : List A) × (for_each_from body n i xs ≡ returned ys) × Perm ys xs × P (length ys) ys
  unfolding for_each_from
  for_each_from_lem body P step zero i xs h p =
      let at_end : i ≡ length xs = omega arith in (xs, refl, Perm.refl xs, rw at_end at p)
  for_each_from_lem body P step (suc n) i xs h p =
      let inside : i < length xs = omega arith in
      let (x, e) = there xs i inside in
      let (ys, placed, perm, lengths, q) = step i xs x e inside p in
      let (zs, rest, perm', r) = for_each_from_lem body P step n (i + 1) ys (omega arith) q in
      (zs, rw e (rw placed rest), Perm.trans perm' perm, r)
