-- ===== src/Resource/ServerConfig/Precedence.antt =====
-- internal/resource/configmap.go: which value of a setting is written to the files.
use pos_data_showcase.Prelude.{
  String, Bool, true, false, Option, none, some, [], ◌∷◌, str_eq, ◌≡◌, refl, sym, ap, ◌∙◌,
  Bool-cases, inl, inr, if◌then◌else◌,
}
use pos_data_showcase.Prelude.Dict.{Dict, lookup, insert, lookup-insert, lookup-erase}
use pos_data_showcase.Kube.Error.{wrapped}
use pos_data_showcase.Kube.Exec.{ok}
use pos_data_showcase.Kube.Outcome.{
  returned, or_failed, >>=-eq-returned, or_failed-eq-returned, returned-injective,
}
use pos_data_showcase.Cluster.{RabbitmqCluster, tls_enabled}
use pos_data_showcase.Metadata.Laws.{or_else}
use pos_data_showcase.Resource.Ini.{IniPackage, new_keys}
use pos_data_showcase.Resource.ServerConfig.{default_tls_conf, user_keys, update_property}
use pos_data_showcase.Resource.ServerConfig.Files.{
  default_tls_text, default_rabbitmq_conf, operator_configuration, tls_file, user_configuration,
  server_config_data,
}

-- What the documentation of gopkg.in/ini.v1 says of a key in the default section: `get` is its value,
-- `sourced` the value in the texts that were read. `Append` reads all texts again, the new one last.
pub record IniLaws {F : Type 0} (ini : IniPackage F) (get sourced : String → F → Option String)
    : Type 0 where
  pub get_empty : (k : String) → get k ini.empty ≡ none
  pub sourced_empty : (k : String) → sourced k ini.empty ≡ none
  pub get_new_key :
      (j v : String) (f f' : F)
      → ini.new_key j v f ≡ ok f'
      → (k : String) → get k f' ≡ (if str_eq j k then some v else get k f)
  pub sourced_new_key :
      (j v : String) (f f' : F)
      → ini.new_key j v f ≡ ok f'
      → (k : String) → sourced k f' ≡ sourced k f
  pub get_append :
      (text : String) (f f' : F)
      → ini.append text f ≡ ok f'
      → (g : F) × (ini.load text ≡ ok g)
        × ((k : String) → get k f' ≡ or_else (get k g) (or_else (sourced k f) (get k f)))
        × ((k : String) → sourced k f' ≡ or_else (get k g) (sourced k f))
  pub get_tls :
      (g : F)
      → ini.load default_tls_text ≡ ok g
      → (k : String) → get k g ≡ lookup k default_tls_conf

-- The last value that a sequence of `NewKey` gives a key, over the value it had.
abbrev pub last_set : String → Dict String → Option String → Option String
last_set k [] o = o
last_set k ((j, v) ∷ m) o = last_set k m (if str_eq j k then some v else o)

-- The value that the operator itself wants for a key: that of the text for TLS, else what it sets.
abbrev pub operator_value : RabbitmqCluster → String → Option String
operator_value c k =
    or_else (if tls_enabled c then lookup k default_tls_conf else none)
      (last_set k (user_keys c) none)

or_else-none : (o : Option String) → or_else o none ≡ o
or_else-none (some x) = refl
or_else-none none = refl

last_set_under :
    (k : String) (m : Dict String) (o : Option String)
    → or_else o (last_set k m o) ≡ or_else o (last_set k m none)
last_set_under k m (some x) = refl
last_set_under k m none = refl

lookup-update_property :
    (k j v : String) (m : Dict String)
    → str_eq j k ≡ false
    → lookup k (update_property j v m) ≡ lookup k m
unfolding update_property
lookup-update_property k j v m h = elim (Bool-cases (str_eq v "")) [
  | inl e ↦ rw (e, update_property) (lookup-erase k j m ∙ rw h refl)
  | inr e ↦ rw (e, update_property) (lookup-insert k j v m ∙ rw h refl)
]

module _ {F : Type 0} (ini : IniPackage F) (get sourced : String → F → Option String)
    (laws : IniLaws ini get sourced) where
  open laws use {get_empty, sourced_empty, get_new_key, sourced_new_key, get_append, get_tls}

  get-new_keys :
      (k : String) (m : Dict String) (f f' : F)
      → new_keys ini m f ≡ returned f'
      → (get k f' ≡ last_set k m (get k f)) × (sourced k f' ≡ sourced k f)
  unfolding new_keys
  get-new_keys k [] f f' e =
      let same = returned-injective f f' e in (ap (get k) (sym same), ap (sourced k) (sym same))
  get-new_keys k ((j, v) ∷ m) f f' e =
      let (g, set, rest) = >>=-eq-returned (or_failed (λ e. e) (ini.new_key j v f)) _ e in
      let written = or_failed-eq-returned (λ e. e) (ini.new_key j v f) set in
      let (a, b) = get-new_keys k m g f' rest in
      (a ∙ ap (last_set k m) (get_new_key j v f g written k), b ∙ sourced_new_key j v f g written k)

  -- Both values of a key after the text for TLS.
  get-tls_file :
      (k : String) (on : Bool) (f : F)
      → tls_file ini on ≡ returned f
      → (get k f ≡ (if on then lookup k default_tls_conf else none))
        × (sourced k f ≡ (if on then lookup k default_tls_conf else none))
  unfolding tls_file
  get-tls_file k true f e =
      let (g, read, got, src) =
        get_append default_tls_text ini.empty f (or_failed-eq-returned (λ e. e) _ e) in
      let value = get_tls g read k in
      (
        got k ∙ rw (value, get_empty k, sourced_empty k) (or_else-none (lookup k default_tls_conf)),
        src k ∙ rw (value, sourced_empty k) (or_else-none (lookup k default_tls_conf)),
      )
  get-tls_file k false f e =
      let same = sym (returned-injective ini.empty f e) in
      (ap (get k) same ∙ get_empty k, ap (sourced k) same ∙ sourced_empty k)

  -- The two files that are written to the config map, and what each key holds in them.
  abbrev Files : RabbitmqCluster → Dict String → Type 0
  Files c content =
      (defaults : F) × (user : F) × (given : F) × (default_text : String) × (user_text : String)
      × (lookup "operatorDefaults.conf" content ≡ some default_text)
      × (ini.write_to defaults ≡ ok default_text)
      × (get "cluster_name" defaults ≡ some c.name)
      × (lookup "userDefinedConfiguration.conf" content ≡ some user_text)
      × (ini.write_to user ≡ ok user_text)
      × (ini.load c.spec.rabbitmq.additional_config ≡ ok given)
      × ((k : String) → get k user ≡ or_else (get k given) (operator_value c k))

  kept_files :
      (c : RabbitmqCluster) (content : Dict String) (d u k v : String)
      → str_eq "rabbitmq-env.conf" k ≡ false
      → str_eq "advanced.config" k ≡ false
      → lookup k
          (insert "userDefinedConfiguration.conf" u (insert "operatorDefaults.conf" d content))
        ≡ some v
      → lookup k (
          update_property "rabbitmq-env.conf" c.spec.rabbitmq.env_config (
            update_property "advanced.config" c.spec.rabbitmq.advanced_config (
              insert "userDefinedConfiguration.conf" u (insert "operatorDefaults.conf" d content))))
        ≡ some v
  kept_files c content d u k v env advanced e =
      lookup-update_property k "rabbitmq-env.conf" _ _ env
      ∙ lookup-update_property k "advanced.config" _ _ advanced
      ∙ e

  -- With `IniLaws`: where `Update` computes the data of the config map, each of its two files is the
  -- text that the package writes for an ini file; the operator's names the cluster, and in the user's
  -- each key has the value of the user's own configuration where that has the key, else the
  -- operator's value for it.
  pub server_config_data-values :
      (c : RabbitmqCluster) (content content' : Dict String)
      → server_config_data ini c content ≡ returned content'
      → Files c content'
  unfolding server_config_data operator_configuration user_configuration
  server_config_data-values c content content' e =
      let (op, made_op, e1) = >>=-eq-returned (operator_configuration ini c) _ e in
      let (tls, made_tls, e2) = >>=-eq-returned (tls_file ini (tls_enabled c)) _ e1 in
      let (settings, set, e3) = >>=-eq-returned (new_keys ini (user_keys c) tls) _ e2 in
      let (d, wrote_d, e4) = >>=-eq-returned (or_failed (λ e. e) (ini.write_to op)) _ e3 in
      let (user, added, e5) = >>=-eq-returned (user_configuration ini c settings) _ e4 in
      let (u, wrote_u, e6) = >>=-eq-returned (or_failed (λ e. e) (ini.write_to user)) _ e5 in
      let (base, loaded, named) =
        >>=-eq-returned (or_failed (λ e. e) (ini.load default_rabbitmq_conf)) _ made_op in
      let (given, gload, gget, gsrc) = get_append c.spec.rabbitmq.additional_config settings user (
        or_failed-eq-returned (wrapped "failed to append spec.rabbitmq.additionalConfig") _
          added) in
      let same = returned-injective _ content' e6 in
      let found =
        λ (k v : String) (env : str_eq "rabbitmq-env.conf" k ≡ false)
            (advanced : str_eq "advanced.config" k ≡ false)
            (h : lookup k (
                insert "userDefinedConfiguration.conf" u (insert "operatorDefaults.conf" d content))
              ≡ some v).
          ap (lookup k) (sym same) ∙ kept_files c content d u k v env advanced h in
      let value = λ (k : String).
        let (a, b) = get-tls_file k (tls_enabled c) tls made_tls in
        let (x, y) = get-new_keys k (user_keys c) tls settings set in
        ap (or_else (get k given)) (
          ap (λ o. or_else o (get k settings)) (y ∙ b)
          ∙ ap (or_else (if tls_enabled c then lookup k default_tls_conf else none))
              (x ∙ ap (last_set k (user_keys c)) a)
          ∙ last_set_under k (user_keys c)
              (if tls_enabled c then lookup k default_tls_conf else none)) in
      (
        op,
        user,
        given,
        d,
        u,
        found "operatorDefaults.conf" d refl refl (simp lookup-insert refl),
        or_failed-eq-returned (λ e. e) _ wrote_d,
        (get-new_keys "cluster_name" (("cluster_name", c.name) ∷ []) base op named).0,
        found "userDefinedConfiguration.conf" u refl refl (simp lookup-insert refl),
        or_failed-eq-returned (λ e. e) _ wrote_u,
        gload,
        λ k. gget k ∙ value k,
      )
