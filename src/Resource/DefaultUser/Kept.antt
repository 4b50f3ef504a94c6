-- ===== src/Resource/DefaultUser/Kept.antt =====
-- internal/resource/default_user_secret.go: the credentials of the default user stay.
use Prim.Native.String.{len}
use text.Mathlib.TextPositions.{len-append, slice-append_left}
use pos_data_showcase.Prelude.{
  ◌-◌, ◌<◌, ltb, arith, String, ◌<>◌, Bool, true, false, ◌||◌, some, List, [], ◌∷◌, str_eq, ◌≡◌,
  refl, sym, ap, ◌∙◌, Bool-cases, inl, inr,
}
use pos_data_showcase.Prelude.Dict.{Dict, lookup, lookup-insert, lookup-erase}
use pos_data_showcase.Kube.Error.{wrapped}
use pos_data_showcase.Kube.Exec.{Result, ok}
use pos_data_showcase.Kube.Outcome.{
  returned, panic, or_failed, >>=-eq-returned, or_failed-eq-returned, returned-injective,
}
use pos_data_showcase.Kube.Objects.{Secret}
use pos_data_showcase.Cluster.{RabbitmqCluster, is_set, service_sub_domain}
use pos_data_showcase.Resource.Ini.{IniPackage}
use pos_data_showcase.Resource.DefaultUser.{
  PluginPort, plugin_ports, plugin_enabled, write_plugin_ports, update_secret_ports,
}
use pos_data_showcase.Resource.DefaultUser.Secret.{
  username_prefix, prefixed, generate_username, generate_default_user_conf, default_user_content,
  default_user_secret_of, build_default_user, update_default_user, assign_ports,
}

abbrev names_port : String → List PluginPort → Bool
names_port k [] = false
names_port k (p ∷ rest) = str_eq p.port_name k || names_port k rest

-- The keys that `updatePorts` may write or delete.
abbrev pub is_port_key : String → Bool
is_port_key k = str_eq "port" k || names_port k plugin_ports

lookup-write_plugin_ports :
    (k : String) (c : RabbitmqCluster) (chosen : PluginPort → String) (ports : List PluginPort)
    (m : Dict String)
    → names_port k ports ≡ false
    → lookup k (write_plugin_ports c chosen ports m) ≡ lookup k m
unfolding write_plugin_ports
lookup-write_plugin_ports k c chosen [] m h = refl
lookup-write_plugin_ports k c chosen (p ∷ rest) m h =
    let rest_h : names_port k rest ≡ false = ground arith in
    let first_h : str_eq p.port_name k ≡ false = ground arith in
    elim (Bool-cases (plugin_enabled c p.plugin)) [
      | inl e ↦ rw e (
          lookup-write_plugin_ports k c chosen rest _ rest_h
          ∙ lookup-insert k p.port_name (chosen p) m
          ∙ rw first_h refl)
      | inr e ↦ rw e (
          lookup-write_plugin_ports k c chosen rest _ rest_h
          ∙ lookup-erase k p.port_name m
          ∙ rw first_h refl)
    ]

pub lookup-update_secret_ports :
    (k : String) (c : RabbitmqCluster) (m : Dict String)
    → is_port_key k ≡ false
    → lookup k (update_secret_ports c m) ≡ lookup k m
unfolding update_secret_ports
lookup-update_secret_ports k c m h =
    let rest_h : names_port k plugin_ports ≡ false = ground arith in
    let first_h : str_eq "port" k ≡ false = ground arith in
    elim (Bool-cases (is_set c.spec.tls.secret_name)) [
      | inl e ↦ rw e (
          lookup-write_plugin_ports k c (λ p. p.tls_port) plugin_ports _ rest_h
          ∙ lookup-insert k "port" "5671" m
          ∙ rw first_h refl)
      | inr e ↦ rw e (
          lookup-write_plugin_ports k c (λ p. p.port) plugin_ports _ rest_h
          ∙ lookup-insert k "port" "5672" m
          ∙ rw first_h refl)
    ]

assign_ports-eq-returned :
    (c : RabbitmqCluster) (m m' : Dict String)
    → assign_ports c m ≡ returned m'
    → m' ≡ update_secret_ports c m
unfolding assign_ports
assign_ports-eq-returned c [] m' e = absurd (cc e)
assign_ports-eq-returned c (x ∷ m) m' e = sym (returned-injective _ m' e)

-- A secret after any number of updates, each for a cluster as it is by then.
pub data Updated (set_controller : RabbitmqCluster → Secret → Result Secret) (s : Secret)
    : Secret → Type 0 where
  here : Updated set_controller s s
  next :
      {t u : Secret} (c : RabbitmqCluster)
      → Updated set_controller s t
      → update_default_user set_controller c t ≡ returned u
      → Updated set_controller s u

module _ (set_controller : RabbitmqCluster → Secret → Result Secret)
    (kept : (c : RabbitmqCluster) (o o' : Secret)
      → set_controller c o ≡ ok o'
      → o' ≡ record o { controller = o'.controller }) where
  update_default_user-kept :
      (k : String) (c : RabbitmqCluster) (s s' : Secret)
      → is_port_key k ≡ false
      → update_default_user set_controller c s ≡ returned s'
      → lookup k s'.content ≡ lookup k s.content
  unfolding update_default_user
  update_default_user-kept k c s s' h e =
      let (content, assigned, e1) = >>=-eq-returned (assign_ports c s.content) _ e in
      let same =
        kept c _ s' (or_failed-eq-returned (wrapped "failed setting controller reference") _ e1) in
      ap (λ (x : Secret). lookup k x.content) same
      ∙ ap (lookup k) (assign_ports-eq-returned c s.content content assigned)
      ∙ lookup-update_secret_ports k c s.content h

  Updated-kept :
      (k : String) (s : Secret) {s' : Secret}
      → is_port_key k ≡ false
      → Updated set_controller s s'
      → lookup k s'.content ≡ lookup k s.content
  Updated-kept k s h here = refl
  Updated-kept k s h (next {t} {u} c before e) =
      update_default_user-kept k c t u h e ∙ Updated-kept k s h before

  -- Whatever updates follow, each for the cluster as it is by then, the secret that `Build`
  -- returned keeps its credentials: the user name that was made of the first random text, the
  -- second random text as the password, and the file that was written of the two, and what a client
  -- needs besides, the host of the client service and the kind of binding.
  pub build_default_user-kept :
      {F : Type 0} (ini : IniPackage F) (first second : Result String) (c : RabbitmqCluster)
      (s s' : Secret)
      → build_default_user ini first second c ≡ returned s
      → Updated set_controller s s'
      → (username : String) × (password : String) × (conf : String) × (generate_username first
          ≡ returned username)
        × (second ≡ ok password)
        × (generate_default_user_conf ini username password ≡ returned conf)
        × (lookup "username" s'.content ≡ some username)
        × (lookup "password" s'.content ≡ some password)
        × (lookup "default_user.conf" s'.content ≡ some conf)
        × (lookup "host" s'.content ≡ some (service_sub_domain c))
        × (lookup "provider" s'.content ≡ some "rabbitmq")
        × (lookup "type" s'.content ≡ some "rabbitmq")
  unfolding build_default_user default_user_content default_user_secret_of lookup
  build_default_user-kept ini first second c s s' e later =
      let (u, made_u, e1) = >>=-eq-returned (generate_username first) _ e in
      let (p, made_p, e2) = >>=-eq-returned (or_failed (λ e. e) second) _ e1 in
      let (conf, made_c, e3) = >>=-eq-returned (generate_default_user_conf ini u p) _ e2 in
      let content = default_user_content c u p conf in
      let same = sym (returned-injective (default_user_secret_of c content) s e3) in
      let found = λ (k : String) (h : is_port_key k ≡ false).
        Updated-kept k s h later
        ∙ ap (λ (x : Secret). lookup k x.content) same
        ∙ lookup-update_secret_ports k c content h in
      (
        u,
        p,
        conf,
        made_u,
        or_failed-eq-returned (λ e. e) second made_p,
        made_c,
        found "username" refl,
        found "password" refl,
        found "default_user.conf" refl,
        found "host" refl,
        found "provider" refl,
        found "type" refl,
      )

-- The user name is the prefix and the random text without as many bytes at its end as the prefix has,
-- so it is exactly as long as the random text; a random text that is shorter than the prefix panics.
generate_username_lem :
    (start tail short : String)
    → len tail ≡ len username_prefix
    → len short < len username_prefix
    → (generate_username (ok (start <> tail)) ≡ returned (username_prefix <> start))
      × (len (username_prefix <> start) ≡ len (start <> tail))
      × (generate_username (ok short) ≡ panic)
unfolding generate_username prefixed
generate_username_lem start tail short same shorter =
    let whole = len-append start tail in
    let fits : ltb (len (start <> tail)) (len username_prefix) ≡ false = ground (arith, whole) in
    let left : len (start <> tail) - len username_prefix ≡ len start = omega (arith, whole) in
    let less : ltb (len short) (len username_prefix) ≡ true = ground arith in
    (
      rw fits (rw left (rw (slice-append_left start tail) refl)),
      omega (arith, whole, len-append username_prefix start),
      rw less refl,
    )
