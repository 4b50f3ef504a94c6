-- ===== src/Resource/DefaultUser/Secret.antt =====
-- internal/resource/default_user_secret.go: `Build` and `Update` of the secret of the default user.
-- The two calls of `randomEncodedString(24)` and `SetControllerReference` are arguments.
use Prim.Native.String.{len, slice}
use pos_data_showcase.Prelude.{◌-◌, String, ◌<>◌, none, [], ◌∷◌, if◌then◌else◌, ltb}
use pos_data_showcase.Prelude.Dict.{Dict}
use pos_data_showcase.Kube.Error.{wrapped}
use pos_data_showcase.Kube.Exec.{Result}
use pos_data_showcase.Kube.Outcome.{Outcome, returned, panic, or_failed, ◌>>=◌}
use pos_data_showcase.Kube.Objects.{Secret}
use pos_data_showcase.Metadata.{get_labels, reconcile_and_filter_annotations}
use pos_data_showcase.Cluster.{RabbitmqCluster, child_resource_name, service_sub_domain}
use pos_data_showcase.Resource.DefaultUser.{update_secret_ports}
use pos_data_showcase.Resource.Ini.{IniPackage, new_keys}

abbrev pub default_user_secret_name : String
default_user_secret_name = "default-user"

abbrev pub binding_provider : String
binding_provider = "rabbitmq"

abbrev pub binding_type : String
binding_type = "rabbitmq"

abbrev pub username_prefix : String
username_prefix = "default_user_"

-- `encodedSlice[0:len(encodedSlice)-len(usernamePrefix)]` panics where the text is shorter than the
-- prefix.
unfoldable pub prefixed : String → Outcome String
prefixed encoded =
    if ltb (len encoded) (len username_prefix)
    then panic
    else returned (username_prefix <> slice encoded 0 (len encoded - len username_prefix))

unfoldable pub generate_username : Result String → Outcome String
generate_username random = do encoded ← or_failed (λ e. e) random; prefixed encoded

unfoldable pub generate_default_user_conf :
    {F : Type 0} → IniPackage F → String → String → Outcome String
generate_default_user_conf ini username password = do
  cfg ← or_failed (λ e. e) (ini.load "")
  filled ← new_keys ini (("default_user", username) ∷ ("default_pass", password) ∷ []) cfg
  or_failed (λ e. e) (ini.write_to filled)

unfoldable pub default_user_content : RabbitmqCluster → String → String → String → Dict String
default_user_content cluster username password conf =
    ("username", username)
    ∷ ("password", password)
    ∷ ("default_user.conf", conf)
    ∷ ("provider", binding_provider)
    ∷ ("type", binding_type)
    ∷ ("host", service_sub_domain cluster)
    ∷ []

unfoldable pub default_user_secret_of : RabbitmqCluster → Dict String → Secret
default_user_secret_of cluster content = record {
  name = child_resource_name cluster default_user_secret_name;
  namespace = cluster.namespace;
  labels = [];
  annotations = [];
  type = "Opaque";
  content = update_secret_ports cluster content;
  controller = none;
}

unfoldable pub build_default_user :
    {F : Type 0} → IniPackage F → Result String → Result String → RabbitmqCluster → Outcome Secret
build_default_user ini first second cluster = do
  username ← generate_username first
  password ← or_failed (λ e. e) second
  conf ← generate_default_user_conf ini username password
  returned (default_user_secret_of cluster (default_user_content cluster username password conf))

-- `updatePorts` writes to Data in any case, which panics where it is nil; without entries Data is read
-- from the API server as nil.
unfoldable pub assign_ports : RabbitmqCluster → Dict String → Outcome (Dict String)
assign_ports cluster [] = panic
assign_ports cluster (entry ∷ rest) = returned (update_secret_ports cluster (entry ∷ rest))

unfoldable pub update_default_user :
    (RabbitmqCluster → Secret → Result Secret) → RabbitmqCluster → Secret → Outcome Secret
update_default_user set_controller cluster secret = do
  content ← assign_ports cluster secret.content
  or_failed (wrapped "failed setting controller reference") (
      set_controller cluster (record secret {
        labels = get_labels cluster.name cluster.labels;
        annotations =
            reconcile_and_filter_annotations secret.annotations (cluster.annotations ∷ []);
        content = content;
      }))
