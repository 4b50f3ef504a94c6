-- ===== src/Resource/Order/Placed.antt =====
-- internal/resource/statefulset.go: what `sortEnvVar` and `sortVolumeMounts` make of the lists.
use mathlib.Core.List.{Perm}
use mathlib.Core.List.Perm
use pos_data_showcase.Prelude.{
  ℕ, zero, suc, ◌+◌, ◌≤◌, ◌<◌, ◌==◌, arith, String, str_eq, eq_iff, Bool, true, false, Option, none,
  some, List, [], ◌∷◌, get_elem?, length, ◌≡◌, refl, sym, ap, ◌∙◌, ◌⊎◌, inl, inr, Bool-cases,
  if◌then◌else◌,
}
use pos_data_showcase.Kube.Pods.{EnvVar, VolumeMount}
use pos_data_showcase.Kube.Outcome.{Outcome, returned}
use pos_data_showcase.Resource.Order.{
  swap, place_env_var, place_volume_mount, sort_env_var, sort_volume_mounts,
}
use pos_data_showcase.Resource.Order.Swapped.{swap_lem, for_each_from_lem}

abbrev cookie : String
cookie = "rabbitmq-erlang-cookie"

abbrev persistence : String
persistence = "persistence"

abbrev named : String → Option VolumeMount → Bool
named n none = false
named n (some m) = str_eq m.name n

-- Of a list of mounts, the one at `c` has the name and no other.
abbrev pub StandsAt : String → ℕ → List VolumeMount → Type 0
StandsAt n c xs = (k : ℕ) → named n (get_elem? xs k) ≡ (k == c)

-- Where the one mount of a name stands after a swap of `i` and `j`.
abbrev moved : ℕ → ℕ → ℕ → ℕ
moved i j c = if c == i then j else if c == j then i else c

module _ (n : String) (xs ys : List VolumeMount) (i j : ℕ)
    (swapped : (k : ℕ)
      → get_elem? ys k ≡ (
          if j == k
          then get_elem? xs i
          else if i == k
          then get_elem? xs j
          else get_elem? xs k)) where
  StandsAt-moved : (c : ℕ) → StandsAt n c xs → StandsAt n (moved i j c) ys
  StandsAt-moved c h k = rw (swapped k) (ground (arith, h i, h j, h k))

-- The two mounts before round `i`: each is at its place, or still to come.
abbrev Placed : ℕ → List VolumeMount → Type 0
Placed i xs =
    (c : ℕ) × (p : ℕ) × StandsAt cookie c xs
    × StandsAt persistence p xs
    × ((c ≡ 0) ⊎ (i ≤ c))
    × ((p ≡ 1) ⊎ (i ≤ p))
    × (2 ≤ length xs)

abbrev Round :
    (List VolumeMount → ℕ → VolumeMount → Outcome (List VolumeMount))
    → ℕ
    → List VolumeMount
    → VolumeMount
    → Type 0
Round body i xs x =
    (ys : List VolumeMount) × (body xs i x ≡ returned ys)
    × Perm ys xs
    × (length ys ≡ length xs)
    × Placed (i + 1) ys

module _ (i : ℕ) (xs : List VolumeMount) (x : VolumeMount) (e : get_elem? xs i ≡ some x)
    (inside : i < length xs) (c p : ℕ) (at_c : StandsAt cookie c xs)
    (at_p : StandsAt persistence p xs) (hc : (c ≡ 0) ⊎ (i ≤ c)) (hp : (p ≡ 1) ⊎ (i ≤ p))
    (two : 2 ≤ length xs) where
  cookie_test : str_eq x.name cookie ≡ (i == c)
  cookie_test = sym (ap (named cookie) e) ∙ at_c i

  persistence_test : str_eq x.name persistence ≡ (i == p)
  persistence_test = sym (ap (named persistence) e) ∙ at_p i

  not_both : str_eq x.name cookie ≡ true → str_eq x.name persistence ≡ false
  not_both h = rw ((eq_iff x.name cookie).0 h) refl

  place_cookie : str_eq x.name cookie ≡ true → Round place_volume_mount i xs x
  unfolding place_volume_mount
  place_cookie h =
      let (ys, done, perm, lengths, swapped) = swap_lem xs 0 i (omega arith) inside in
      (
        ys,
        rw h done,
        perm,
        lengths,
        (
          moved 0 i c,
          moved 0 i p,
          StandsAt-moved cookie xs ys 0 i swapped c at_c,
          StandsAt-moved persistence xs ys 0 i swapped p at_p,
          ground (arith, cookie_test, not_both h),
          ground (arith, persistence_test, not_both h),
          omega arith,
        ),
      )

  place_persistence :
      str_eq x.name cookie ≡ false
      → str_eq x.name persistence ≡ true
      → Round place_volume_mount i xs x
  unfolding place_volume_mount
  place_persistence n h =
      let (ys, done, perm, lengths, swapped) = swap_lem xs 1 i (omega arith) inside in
      (
        ys,
        rw (n, h) done,
        perm,
        lengths,
        (
          moved 1 i c,
          moved 1 i p,
          StandsAt-moved cookie xs ys 1 i swapped c at_c,
          StandsAt-moved persistence xs ys 1 i swapped p at_p,
          ground (arith, cookie_test),
          ground (arith, persistence_test),
          omega arith,
        ),
      )

  place_other :
      str_eq x.name cookie ≡ false
      → str_eq x.name persistence ≡ false
      → Round place_volume_mount i xs x
  unfolding place_volume_mount
  place_other n h = (
    xs,
    rw (n, h),
    Perm.refl xs,
    refl,
    (c, p, at_c, at_p, ground (arith, cookie_test), ground (arith, persistence_test), two),
  )

  place_volume_mount-Placed : Round place_volume_mount i xs x
  place_volume_mount-Placed = elim (Bool-cases (str_eq x.name cookie)) [
    | inl h ↦ place_cookie h
    | inr n ↦ elim (Bool-cases (str_eq x.name persistence)) [
      | inl h ↦ place_persistence n h
      | inr h ↦ place_other n h
    ]
  ]

inside_if_named :
    (n : String) (xs : List VolumeMount) (c : ℕ) → named n (get_elem? xs c) ≡ true → c < length xs
inside_if_named n [] c h = absurd (cc h)
inside_if_named n (x ∷ xs) zero h = omega arith
inside_if_named n (x ∷ xs) (suc c) h = omega (arith, inside_if_named n xs c h)

names_differ : (m : Option VolumeMount) → named cookie m ≡ true → named persistence m ≡ false
names_differ none h = refl
names_differ (some m) h = rw ((eq_iff m.name cookie).0 h) refl

-- Where one mount has the name of the Erlang cookie and one that of the persistence, `sortVolumeMounts`
-- does not panic, returns the same mounts in an order in which the cookie stands first and the
-- persistence second, and loses none and adds none.
pub sort_volume_mounts_lem :
    (mounts : List VolumeMount) (c p : ℕ)
    → StandsAt cookie c mounts
    → StandsAt persistence p mounts
    → (sorted : List VolumeMount) × (sort_volume_mounts mounts ≡ returned sorted)
      × Perm sorted mounts
      × StandsAt cookie 0 sorted
      × StandsAt persistence 1 sorted
unfolding sort_volume_mounts
sort_volume_mounts_lem mounts c p at_c at_p =
    let c_in = inside_if_named cookie mounts c (rw (at_c c) (ground arith)) in
    let p_in = inside_if_named persistence mounts p (rw (at_p p) (ground arith)) in
    let apart = names_differ (get_elem? mounts c) (rw (at_c c) (ground arith)) in
    let two : 2 ≤ length mounts = ground (arith, at_p c) in
    let (ys, done, perm, (c', p', at_c', at_p', hc, hp, two')) =
      for_each_from_lem place_volume_mount Placed
        (λ i xs x e inside (c, p, at_c, at_p, hc, hp, two).
          place_volume_mount-Placed i xs x e inside c p at_c at_p hc hp two)
        (length mounts) 0 mounts (omega arith)
        (c, p, at_c, at_p, inr (omega arith), inr (omega arith), two) in
    let c'_in = inside_if_named cookie ys c' (rw (at_c' c') (ground arith)) in
    let p'_in = inside_if_named persistence ys p' (rw (at_p' p') (ground arith)) in
    let c_first : c' ≡ 0 = ground arith in
    let p_second : p' ≡ 1 = ground arith in
    (ys, done, perm, rw c_first at at_c', rw p_second at at_p')

swap_round :
    (j i : ℕ) (vars : List EnvVar)
    → j < length vars
    → i < length vars
    → 3 ≤ length vars
    → (ys : List EnvVar) × (swap vars j i ≡ returned ys)
      × Perm ys vars
      × (length ys ≡ length vars)
      × (3 ≤ length ys)
swap_round j i vars hj hi three =
    let (ys, done, perm, lengths, _) = swap_lem vars j i hj hi in
    (ys, done, perm, lengths, omega arith)

place_env_var-perm :
    (i : ℕ) (vars : List EnvVar) (e : EnvVar)
    → i < length vars
    → 3 ≤ length vars
    → (ys : List EnvVar) × (place_env_var vars i e ≡ returned ys)
      × Perm ys vars
      × (length ys ≡ length vars)
      × (3 ≤ length ys)
unfolding place_env_var
place_env_var-perm i vars e hi three = elim (Bool-cases (str_eq e.name "MY_POD_NAME")) [
  | inl h ↦ rw h (swap_round 0 i vars (omega arith) hi three)
  | inr h ↦ elim (Bool-cases (str_eq e.name "MY_POD_NAMESPACE")) [
    | inl k ↦ rw (h, k) (swap_round 1 i vars (omega arith) hi three)
    | inr k ↦ elim (Bool-cases (str_eq e.name "K8S_SERVICE_NAME")) [
      | inl l ↦ rw (h, k, l) (swap_round 2 i vars (omega arith) hi three)
      | inr l ↦ rw (h, k, l) (vars, refl, Perm.refl vars, refl, three)
    ]
  ]
]

-- With three variables or more, `sortEnvVar` does not panic, and it returns the same variables in some
-- order: none is lost and none is added.
sort_env_var-perm :
    (vars : List EnvVar)
    → 3 ≤ length vars
    → (sorted : List EnvVar) × (sort_env_var vars ≡ returned sorted) × Perm sorted vars
unfolding sort_env_var
sort_env_var-perm vars three =
    let (ys, done, perm, _) =
      for_each_from_lem place_env_var (λ i xs. 3 ≤ length xs)
        (λ i xs x e inside many. place_env_var-perm i xs x inside many) (length vars) 0 vars
        (omega arith) three in
    (ys, done, perm)
