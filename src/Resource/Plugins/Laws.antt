-- ===== src/Resource/Plugins/Laws.antt =====
-- internal/resource/rabbitmq_plugins.go: `DesiredPlugins` enables every plugin once.
use pos_data_showcase.Prelude.{
  ℕ, ◌+◌, ◌≡◌, refl, String, Bool, true, Option, none, some, List, [], ◌∷◌, ◌++◌, arith, str_eq,
  eq_iff, if◌then◌else◌,
}
use pos_data_showcase.Prelude.Dict.{Dict, lookup, insert, lookup-insert}
use pos_data_showcase.Cluster.{Plugin, contains_plugin}
use pos_data_showcase.Resource.Plugins.{
  required_plugins, new_rabbitmq_plugins, enable, desired_plugins,
}

-- How often a name stands in a list.
abbrev pub count : String → List String → ℕ
count name [] = 0
count name (p ∷ rest) = (if str_eq p name then 1 else 0) + count name rest

count-append :
    (name : String) (xs ys : List String) → count name (xs ++ ys) ≡ count name xs + count name ys
count-append name [] ys = ground arith
count-append name (x ∷ xs) ys = ground (arith, count-append name xs ys)

abbrev wanted : Option Bool → Bool → ℕ
wanted (some _) listed = 0
wanted none listed = if listed then 1 else 0

count-enable :
    (name : String) (check : Dict Bool) (enabled plugins : List String)
    → count name (enable check enabled plugins)
      ≡ count name enabled + wanted (lookup name check) (contains_plugin plugins name)
unfolding enable contains_plugin
count-enable name check enabled [] = ground arith
count-enable name check enabled (p ∷ rest) = ground (
  arith,
  count-enable name check enabled rest,
  count-enable name (insert p true check) (enabled ++ p ∷ []) rest,
  count-append name enabled (p ∷ []),
  lookup-insert name p true check,
  eq_iff p name,
)

contains_plugin-append :
    (xs ys : List String) (name : String)
    → contains_plugin (xs ++ ys) name
      ≡ (if contains_plugin xs name then true else contains_plugin ys name)
unfolding contains_plugin
contains_plugin-append [] ys name = refl
contains_plugin-append (x ∷ xs) ys name = ground (arith, contains_plugin-append xs ys name)

-- Every plugin that is required or asked for is enabled exactly once, however often it is asked for,
-- and no other plugin is enabled.
pub count-desired_plugins :
    (additional : List Plugin) (name : String)
    → count name (desired_plugins (new_rabbitmq_plugins additional)) ≡ (
        if contains_plugin required_plugins name
        then 1
        else if contains_plugin additional name
        then 1
        else 0)
unfolding desired_plugins new_rabbitmq_plugins lookup
count-desired_plugins additional name = ground (
  arith,
  count-enable name [] [] (required_plugins ++ additional),
  contains_plugin-append required_plugins additional name,
)
