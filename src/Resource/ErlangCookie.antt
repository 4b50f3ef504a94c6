-- ===== src/Resource/ErlangCookie.antt =====
-- internal/resource/erlang_cookie.go: the secret by which the nodes know each other. The encoding of
-- random bytes is an argument.
use pos_data_showcase.Prelude.{String, none, [], ◌∷◌}
use pos_data_showcase.Kube.Error.{wrapped}
use pos_data_showcase.Kube.Exec.{Result, ok, err, wrap}
use pos_data_showcase.Kube.Objects.{Secret}
use pos_data_showcase.Metadata.{get_labels, reconcile_and_filter_annotations}
use pos_data_showcase.Cluster.{RabbitmqCluster, child_resource_name}

abbrev pub erlang_cookie_name : String
erlang_cookie_name = "erlang-cookie"

unfoldable pub cookie_secret : RabbitmqCluster → String → Secret
cookie_secret cluster cookie = record {
  name = child_resource_name cluster erlang_cookie_name;
  namespace = cluster.namespace;
  labels = [];
  annotations = [];
  type = "Opaque";
  content = (".erlang.cookie", cookie) ∷ [];
  controller = none;
}

-- `randomEncodedString(24)` gives the first argument.
unfoldable pub build_erlang_cookie : Result String → RabbitmqCluster → Result Secret
build_erlang_cookie (ok cookie) cluster = ok (cookie_secret cluster cookie)
build_erlang_cookie (err e) cluster = err e

unfoldable pub update_erlang_cookie :
    (RabbitmqCluster → Secret → Result Secret) → RabbitmqCluster → Secret → Result Secret
update_erlang_cookie set_controller cluster secret =
    wrap (wrapped "failed setting controller reference") (
      set_controller cluster (record secret {
        labels = get_labels cluster.name cluster.labels;
        annotations =
            reconcile_and_filter_annotations secret.annotations (cluster.annotations ∷ []);
      }))
