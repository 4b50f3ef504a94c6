-- ===== src/Tests/ScaleRuns.antt =====
-- `Scale` on a small API server: the StatefulSet and the claims by namespace and name, which can be
-- out of reach.
use mathlib.Core.Bool.{false≢true}
use mathlib.Core.Option
use mathlib.Core.Option.{some-injective}
use pos_data_showcase.Prelude.{
  ℕ, suc, String, Bool, true, false, ◌&&◌, Option, none, some, [], ◌∷◌, ◌≡◌, ◌≤◌, refl, sym, ap,
  ◌∙◌, inl, inr, str_eq, if◌then◌else◌, arith, leb, Bool-cases, eq_iff,
}
use pos_data_showcase.Prelude.Dict.{lookup, insert}
use pos_data_showcase.Prelude.Decimal.{decimal}
use pos_data_showcase.Prelude.Strings.{trim_suffix}
use pos_data_showcase.Kube.Objects.{StatefulSet, PersistentVolumeClaim}
use pos_data_showcase.Kube.Pods.{Quantity}
use pos_data_showcase.Kube.Error.{
  Error, api, plain, not_found, bad_request, other_reason, is_not_found, reason_for_error,
}
use pos_data_showcase.Kube.Exec.{Result, ok, err}
use pos_data_showcase.Cluster.{child_resource_name, pvc_name}
use pos_data_showcase.Scaling.{
  ScalerClient, is_absent, storage, scale, scale_pvcs, existing_capacity, get_sts,
  persistence_storage_capacity, guard_capacity, get_cluster_pvcs, get_pvcs_from,
  pvcs_needing_scaling, delete_and_scale, delete_sts, after_get_sts, delete_and_wait,
  retry_with_interval, sts_gone, scale_up_pvcs, scale_up_pvc, get_latest, set_capacity,
}
use pos_data_showcase.Scaling.Claims.{PvcLaws}
use pos_data_showcase.Scaling.Grown.{scale-grows}
use pos_data_showcase.Scaling.Refusals.{scale_refuses, scale_nothing}
use pos_data_showcase.Scaling.Retry.{retry-success}
use pos_data_showcase.Tests.Sample.{plain_cluster, sample_sts, claim}

pub record Server : Type 0 where
  pub reachable : Bool
  pub sts : Option StatefulSet
  pub claims : String → String → Option PersistentVolumeClaim

abbrev pub found : {A : Type 0} → Server → Option A → Result A
found server o = elim server.reachable [
  | false ↦ err (api other_reason "out of reach")
  | true ↦ elim o [ none ↦ err (api not_found "not found") | some a ↦ ok a ]
]

abbrev under : String → String → PersistentVolumeClaim → PersistentVolumeClaim
under ns n p = record p { name = n; namespace = ns }

abbrev pub stored_claim : Server → String → String → Option PersistentVolumeClaim
stored_claim server ns n = Option.map (under ns n) (server.claims ns n)

-- The API server refuses an object of another namespace.
abbrev put_claim : String → PersistentVolumeClaim → Server → Result (Unit {0}) × Server
put_claim ns p server = elim (str_eq p.namespace ns) [
  | false ↦ (err (api bad_request "the namespace does not match"), server)
  | true ↦ (
    ok tt,
    record server {
      claims = λ ns' n. if str_eq ns ns' && str_eq p.name n then some p else server.claims ns' n;
    },
  )
]

abbrev pub test_client : ScalerClient Server
test_client = record {
  get_stateful_set = λ ns n server. (found server server.sts, server);
  delete_stateful_set = λ ns n server. (ok tt, record server { sts = none });
  get_pvc = λ ns n server. (found server (stored_claim server ns n), server);
  update_pvc = put_claim;
  sleep = λ t server. server;
}

pub found-eq-ok :
    {A : Type 0} (server : Server) (o : Option A) (a : A) → found server o ≡ ok a → o ≡ some a
found-eq-ok server none a e = elim (Bool-cases server.reachable) [
  | inl h ↦ cc (rw h at e)
  | inr h ↦ cc (rw h at e)
]
found-eq-ok server (some b) a e = elim (Bool-cases server.reachable) [
  | inl h ↦ cc (rw h at e)
  | inr h ↦ cc (rw h at e)
]

pub found-absent :
    {A : Type 0} (server : Server) (o : Option A) (e : Error)
    → found server o ≡ err e
    → is_not_found e ≡ true
    → o ≡ none
unfolding is_not_found reason_for_error
found-absent server none e h absent = refl
found-absent server (some b) e h absent = elim (Bool-cases server.reachable) [
  | inl r ↦ cc (rw r at h)
  | inr r ↦ absurd (false≢true (ap is_absent (rw r at h) ∙ absent))
]

-- A claim that stands under its own names is read back whole.
same_claim :
    (ns ns' n : String) (p : PersistentVolumeClaim)
    → str_eq p.namespace ns ≡ true
    → (str_eq ns ns' && str_eq p.name n) ≡ true
    → some (under ns' n p) ≡ some p
same_claim ns ns' n p h t =
    let space = (eq_iff p.namespace ns).0 h ∙ (eq_iff ns ns').0 (ground arith) in
    let name = (eq_iff p.name n).0 (ground arith) in
    λ i. some (record p { name = sym name i; namespace = sym space i })

pub put_claim-stores :
    (ns ns' n : String) (p : PersistentVolumeClaim) (server : Server)
    → (put_claim ns p server).0 ≡ ok tt
    → stored_claim (put_claim ns p server).1 ns' n
      ≡ (if str_eq ns ns' && str_eq p.name n then some p else stored_claim server ns' n)
put_claim-stores ns ns' n p server e = elim (Bool-cases (str_eq p.namespace ns)) [
  | inr h ↦ absurd (cc (rw (h, put_claim) at e))
  | inl h ↦ elim (Bool-cases (str_eq ns ns' && str_eq p.name n)) [
    | inl t ↦ rw (h, put_claim) (rw t (same_claim ns ns' n p h t))
    | inr t ↦ rw (h, put_claim) (rw t refl)
  ]
]

pub stored_names :
    (ns n : String) (o : Option PersistentVolumeClaim) (p : PersistentVolumeClaim)
    → Option.map (under ns n) o ≡ some p
    → (p.name ≡ n) × (p.namespace ≡ ns)
stored_names ns n none p e = absurd (cc e)
stored_names ns n (some r) p e =
    let same = some-injective _ p e in
    (
      sym (ap (λ (c : PersistentVolumeClaim). c.name) same),
      sym (ap (λ (c : PersistentVolumeClaim). c.namespace) same),
    )

abbrev pub test_laws : PvcLaws test_client
test_laws = record {
  stored = stored_claim;
  stored_name = λ w ns n p e. stored_names ns n (w.claims ns n) p e;
  get_pvc_keeps = λ ns n w. refl;
  get_pvc_found = λ ns n p w e. found-eq-ok w (stored_claim w ns n) p e;
  get_pvc_absent = λ ns n e w h absent. found-absent w (stored_claim w ns n) e h absent;
  update_pvc_stores = put_claim-stores;
  get_stateful_set_keeps = λ ns n w. refl;
  delete_stateful_set_keeps = λ ns n w. refl;
  sleep_keeps = λ t w. refl;
}

abbrev pub server_of : Bool → Quantity → Server
server_of reachable size = record {
  reachable = reachable;
  sts = some (sample_sts size);
  claims = λ ns n. if str_eq n "persistence-pos-server-0" then some (claim n size) else none;
}

-- The server after the claim of 5 has been scaled to 10.
abbrev scaled : Result (Unit {0}) × Server
scaled = scale test_client plain_cluster 10 (server_of true 5)

scaled_is_ok : scaled.0 ≡ ok tt
unfolding scale existing_capacity get_sts persistence_storage_capacity guard_capacity scale_pvcs
    get_cluster_pvcs get_pvcs_from pvcs_needing_scaling delete_and_scale delete_sts after_get_sts
    delete_and_wait retry_with_interval sts_gone scale_up_pvcs scale_up_pvc get_latest set_capacity
    child_resource_name pvc_name decimal lookup insert is_not_found reason_for_error trim_suffix
scaled_is_ok = refl

scaled_claim :
    stored_claim scaled.1 "shop" (pvc_name plain_cluster 0)
    ≡ some (claim "persistence-pos-server-0" 10)
unfolding scale existing_capacity get_sts persistence_storage_capacity guard_capacity scale_pvcs
    get_cluster_pvcs get_pvcs_from pvcs_needing_scaling delete_and_scale delete_sts after_get_sts
    delete_and_wait retry_with_interval sts_gone scale_up_pvcs scale_up_pvc get_latest set_capacity
    child_resource_name pvc_name decimal lookup insert is_not_found reason_for_error trim_suffix
scaled_claim = refl

scale-grows_example : 10 ≤ storage (claim "persistence-pos-server-0" 10)
scale-grows_example =
    scale-grows test_client test_laws plain_cluster 10 (server_of true 5) scaled.1 0
      (claim "persistence-pos-server-0" 10) (λ i. (scaled_is_ok i, scaled.1)) (omega arith)
      scaled_claim

capacity_read :
    (size : Quantity)
    → existing_capacity test_client plain_cluster (server_of true size)
      ≡ (ok size, server_of true size)
unfolding existing_capacity get_sts persistence_storage_capacity lookup
capacity_read size = refl

scale_refuses_example :
    scale test_client plain_cluster 5 (server_of true 10)
    ≡ (err (plain "shrinking persistent volumes is not supported"), server_of true 10)
scale_refuses_example =
    scale_refuses test_client plain_cluster 5 (server_of true 10) (server_of true 10) 10
      (capacity_read 10) (inl (omega arith))

claims_read :
    get_cluster_pvcs test_client plain_cluster (server_of true 10)
    ≡ (ok (claim "persistence-pos-server-0" 10 ∷ []), server_of true 10)
unfolding get_cluster_pvcs get_pvcs_from pvc_name decimal
claims_read = refl

large_enough : 10 ≤ storage (claim "persistence-pos-server-0" 10)
unfolding lookup
large_enough = omega arith

scale_nothing_example :
    scale test_client plain_cluster 10 (server_of true 10) ≡ (ok tt, server_of true 10)
scale_nothing_example =
    scale_nothing test_client plain_cluster 10 (server_of true 10) (server_of true 10) (ok 10)
      (claim "persistence-pos-server-0" 10 ∷ []) (server_of true 10) (capacity_read 10)
      (omega arith, inl (λ e. absurd (omega (arith, e)))) claims_read (large_enough, tt)

-- A test that succeeds once a counter has reached 3.
abbrev reached_three : ℕ → Bool × ℕ
reached_three n = (leb 3 n, n)

abbrev tick : ℕ → ℕ
tick n = suc n

retry-success_example : retry_with_interval tick (plain "gave up") 10 reached_three 1 ≡ (ok tt, 3)
retry-success_example =
    retry-success tick (plain "gave up") reached_three 2 7 1 (refl, (refl, tt)) refl
