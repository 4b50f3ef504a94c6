-- ===== src/Scaling/Listed.antt =====
-- internal/scaling/scaling.go: the claims that `getClusterPVCs` lists and `pvcsNeedingScaling` selects.
use pos_data_showcase.Prelude.{
  ℕ, zero, suc, ◌+◌, ◌<◌, ◌≤◌, ◌≡◌, refl, sym, ap, ◌∙◌, Bool, true, false, List, [], ◌∷◌, ◌++◌,
  arith, ◌⊎◌, inl, inr, some, String, str_eq, ◌||◌, eq_iff, Bool-cases,
}
use mathlib.Core.Option.{some-injective}
use native.Mathlib.Nat.{add-zero}
use pos_data_showcase.Kube.Objects.{PersistentVolumeClaim}
use pos_data_showcase.Kube.Pods.{Quantity}
use pos_data_showcase.Kube.Error.{Error, wrapped, is_not_found}
use pos_data_showcase.Kube.Exec.{ok, err, Result}
use pos_data_showcase.Kube.Exec.Inversion.{Call-cases}
use pos_data_showcase.Cluster.{RabbitmqCluster, pvc_name}
use pos_data_showcase.Scaling.{
  ScalerClient, with_claim, storage, get_pvcs_from, pvcs_needing_scaling,
}
use pos_data_showcase.Scaling.Claims.{PvcLaws}

-- A claim of this name is in the list.
abbrev pub has_name : String → List PersistentVolumeClaim → Bool
has_name n [] = false
has_name n (p ∷ rest) = str_eq p.name n || has_name n rest

has_name-append :
    (n : String) (xs ys : List PersistentVolumeClaim)
    → has_name n (xs ++ ys) ≡ (has_name n xs || has_name n ys)
has_name-append n [] ys = refl
has_name-append n (x ∷ xs) ys = ground (arith, has_name-append n xs ys)

needing-append :
    (xs ys : List PersistentVolumeClaim) (desired : Quantity)
    → pvcs_needing_scaling (xs ++ ys) desired
      ≡ pvcs_needing_scaling xs desired ++ pvcs_needing_scaling ys desired
unfolding pvcs_needing_scaling
needing-append [] ys desired = refl
needing-append (x ∷ xs) ys desired = ground (arith, needing-append xs ys desired)

module _ {W : Type 0} (client : ScalerClient W) (laws : PvcLaws client) (rmq : RabbitmqCluster)
    (desired : Quantity) (n : String) where
  open laws use {stored, stored_name, get_pvc_keeps, get_pvc_found, get_pvc_absent}

  -- The name is one that has to be scaled.
  abbrev pub is_needing : List PersistentVolumeClaim → Bool
  is_needing ps = has_name n (pvcs_needing_scaling ps desired)

  needing_more :
      (acc more : List PersistentVolumeClaim)
      → is_needing acc ≡ true
      → is_needing (acc ++ more) ≡ true
  needing_more acc more h = rw (needing-append, has_name-append) (rw h)

  needing_last :
      (acc : List PersistentVolumeClaim) (p : PersistentVolumeClaim)
      → p.name ≡ n
      → (desired ≤ storage p) ⊎ (is_needing (acc ++ p ∷ []) ≡ true)
  unfolding pvcs_needing_scaling
  needing_last acc p e = ground (
    arith,
    needing-append acc (p ∷ []) desired,
    eq_iff p.name n,
    has_name-append n (pvcs_needing_scaling acc desired) (pvcs_needing_scaling (p ∷ []) desired),
  )

  step_found :
      (left i : ℕ) (acc : List PersistentVolumeClaim) (pvc : PersistentVolumeClaim) (w w1 : W)
      → client.get_pvc rmq.namespace (pvc_name rmq i) w ≡ (ok pvc, w1)
      → get_pvcs_from client rmq (suc left) i acc w
        ≡ get_pvcs_from client rmq left (i + 1) (acc ++ pvc ∷ []) w1
  unfolding get_pvcs_from
  step_found left i acc pvc w w1 e =
      ap (λ r. with_claim (get_pvcs_from client rmq left (i + 1)) acc r.0 r.1) e

  step_absent :
      (left i : ℕ) (acc : List PersistentVolumeClaim) (x : Error) (w w1 : W)
      → client.get_pvc rmq.namespace (pvc_name rmq i) w ≡ (err x, w1)
      → is_not_found x ≡ true
      → get_pvcs_from client rmq (suc left) i acc w ≡ get_pvcs_from client rmq left (i + 1) acc w1
  unfolding get_pvcs_from
  step_absent left i acc x w w1 e h =
      ap (λ r. with_claim (get_pvcs_from client rmq left (i + 1)) acc r.0 r.1) e ∙ rw h

  step_failed :
      (left i : ℕ) (acc : List PersistentVolumeClaim) (x : Error) (w w1 : W)
      → client.get_pvc rmq.namespace (pvc_name rmq i) w ≡ (err x, w1)
      → is_not_found x ≡ false
      → get_pvcs_from client rmq (suc left) i acc w
        ≡ (err (wrapped "failed to get PVC from Kubernetes API" x), w1)
  unfolding get_pvcs_from
  step_failed left i acc x w w1 e h =
      ap (λ r. with_claim (get_pvcs_from client rmq left (i + 1)) acc r.0 r.1) e ∙ rw h

  -- The claims at `left` indices from `i` on are large enough or among the selected of `ps`.
  abbrev pub Found : ℕ → ℕ → W → List PersistentVolumeClaim → Type 0
  Found left i w ps =
      (j : ℕ) (p : PersistentVolumeClaim)
      → j < left
      → pvc_name rmq (i + j) ≡ n
      → stored w rmq.namespace n ≡ some p
      → (desired ≤ storage p) ⊎ (is_needing ps ≡ true)

  -- What is known of a list `ps` that the loop returns from index `i` on.
  abbrev pub Lists :
      ℕ → ℕ → List PersistentVolumeClaim → W → List PersistentVolumeClaim → W → Type 0
  Lists left i acc w ps w' =
      (stored w' ≡ stored w) × (is_needing acc ≡ true → is_needing ps ≡ true) × Found left i w ps

  extend :
      (left i : ℕ) (w w1 : W) (ps : List PersistentVolumeClaim)
      → stored w1 ≡ stored w
      → Found 1 i w ps
      → Found left (i + 1) w1 ps
      → Found (suc left) i w ps
  extend left i w w1 ps kept first later zero p h = first zero p (omega arith)
  extend left i w w1 ps kept first later (suc j) p h = λ name found.
      later j p (omega arith)
        (ap (pvc_name rmq) (let e : i + 1 + j ≡ i + suc j = omega arith in e) ∙ name)
        (ap (λ s. s rmq.namespace n) kept ∙ found)

  -- The claim that the first read finds.
  first-Found :
      (i : ℕ) (acc ps : List PersistentVolumeClaim) (pvc : PersistentVolumeClaim) (w w1 : W)
      → client.get_pvc rmq.namespace (pvc_name rmq i) w ≡ (ok pvc, w1)
      → (is_needing (acc ++ pvc ∷ []) ≡ true → is_needing ps ≡ true)
      → Found 1 i w ps
  first-Found i acc ps pvc w w1 e more (suc j) p h name found = absurd (omega arith)
  first-Found i acc ps pvc w w1 e more zero p h name found =
      let at_i : pvc_name rmq i ≡ n = rw add-zero at name in
      let there = get_pvc_found rmq.namespace (pvc_name rmq i) pvc w (ap (λ r. r.0) e) in
      let same : pvc ≡ p =
        some-injective pvc p (sym there ∙ ap (stored w rmq.namespace) at_i ∙ found) in
      elim (needing_last acc pvc
        ((stored_name w rmq.namespace (pvc_name rmq i) pvc there).0 ∙ at_i)) [
          | inl big ↦ inl (rw (← same) big)
          | inr h ↦ inr (more h)
        ]

  -- Where the first read finds no claim, there is none.
  first_absent :
      (i : ℕ) (ps : List PersistentVolumeClaim) (x : Error) (w w1 : W)
      → client.get_pvc rmq.namespace (pvc_name rmq i) w ≡ (err x, w1)
      → is_not_found x ≡ true
      → Found 1 i w ps
  first_absent i ps x w w1 e h (suc j) p l name found = absurd (omega arith)
  first_absent i ps x w w1 e h zero p l name found =
      let at_i : pvc_name rmq i ≡ n = rw add-zero at name in
      cc (
        get_pvc_absent rmq.namespace (pvc_name rmq i) x w (ap (λ r. r.0) e) h,
        ap (stored w rmq.namespace) at_i,
      )

  kept_by_get :
      (i : ℕ) (w w1 : W) (r : Result PersistentVolumeClaim)
      → client.get_pvc rmq.namespace (pvc_name rmq i) w ≡ (r, w1)
      → stored w1 ≡ stored w
  kept_by_get i w w1 r e =
      ap (λ q. stored q.1) (sym e) ∙ get_pvc_keeps rmq.namespace (pvc_name rmq i) w

  pub get_pvcs_from-Lists :
      (left i : ℕ) (acc : List PersistentVolumeClaim) (w : W) (ps : List PersistentVolumeClaim)
      (w' : W)
      → get_pvcs_from client rmq left i acc w ≡ (ok ps, w')
      → Lists left i acc w ps w'
  get_pvcs_from-Lists zero i acc w ps w' e =
      let e' : Path (Result (List PersistentVolumeClaim) × W) (ok acc, w) (ok ps, w') =
        unfold get_pvcs_from in e in
      (
        sym (ap (λ r. stored r.1) e'),
        λ h. ground (arith, ap (λ r. r.0) e'),
        λ j p l name found. absurd (omega arith),
      )
  get_pvcs_from-Lists (suc left) i acc w ps w' e =
      let w1 = (client.get_pvc rmq.namespace (pvc_name rmq i) w).1 in
      elim (Call-cases (client.get_pvc rmq.namespace (pvc_name rmq i)) w) [
        | inl (pvc, got) ↦
            let (keep, more, later) =
              get_pvcs_from-Lists left (i + 1) (acc ++ pvc ∷ []) w1 ps w'
                (sym (step_found left i acc pvc w w1 got) ∙ e) in
            let kept = kept_by_get i w w1 (ok pvc) got in
            (
              keep ∙ kept,
              λ h. more (needing_more acc (pvc ∷ []) h),
              extend left i w w1 ps kept (first-Found i acc ps pvc w w1 got more) later,
            )
        | inr (x, got) ↦ elim (Bool-cases (is_not_found x)) [
          | inl absent ↦
              let (keep, more, later) =
                get_pvcs_from-Lists left (i + 1) acc w1 ps w'
                  (sym (step_absent left i acc x w w1 got absent) ∙ e) in
              let kept = kept_by_get i w w1 (err x) got in
              (
                keep ∙ kept,
                more,
                extend left i w w1 ps kept (first_absent i ps x w w1 got absent) later,
              )
          | inr failed ↦
              absurd (cc (ap (λ r. r.0) (sym (step_failed left i acc x w w1 got failed) ∙ e)))
        ]
      ]
