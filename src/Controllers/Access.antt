-- ===== src/Controllers/Access.antt =====
-- controllers/utils.go: how the reconciler reads the children of a cluster and writes annotations.
use pos_data_showcase.Prelude.{String, Bool, ◌||◌, [], ◌∷◌}
use pos_data_showcase.Prelude.Dict.{Dict, insert, erase}
use pos_data_showcase.Kube.Error.{Error, is_conflict, is_not_found}
use pos_data_showcase.Kube.Objects.{StatefulSet, ConfigMap}
use pos_data_showcase.Kube.Exec.{Exec, pure, ◌>>=◌}
use pos_data_showcase.Cluster.{RabbitmqCluster, child_resource_name}
use pos_data_showcase.Controllers.{Reconciler}

unfoldable pub stateful_set_of : {W : Type 0} → Reconciler W → RabbitmqCluster → Exec W StatefulSet
stateful_set_of r rmq = r.get_stateful_set rmq.namespace (child_resource_name rmq "server")

unfoldable pub config_map_of :
    {W : Type 0} → Reconciler W → RabbitmqCluster → String → Exec W ConfigMap
config_map_of r rmq name = r.get_config_map rmq.namespace name

abbrev pub error_is_conflict_or_not_found : Error → Bool
error_is_conflict_or_not_found e = is_conflict e || is_not_found e

-- `meta.Accessor` of an object.
pub record Annotated (A : Type 0) : Type 0 where
  pub annotations_of : A → Dict String
  pub with_annotations : Dict String → A → A

module _ {W A : Type 0} (object : Annotated A) (put : A → Exec W (Unit {0})) where
  -- An object without annotations is not written.
  unfoldable pub delete_if_any : Dict String → A → String → Exec W (Unit {0})
  delete_if_any [] obj annotation = pure tt
  delete_if_any (a ∷ rest) obj annotation =
      put (object.with_annotations (erase annotation (a ∷ rest)) obj)

  unfoldable pub delete_annotation : A → String → Exec W (Unit {0})
  delete_annotation obj annotation = delete_if_any (object.annotations_of obj) obj annotation

  -- `get` reads the object, `put` updates it.
  unfoldable pub update_annotation : Reconciler W → Exec W A → String → String → Exec W (Unit {0})
  update_annotation r get key value = r.retry_on_error error_is_conflict_or_not_found (do
    obj ← get
    put (object.with_annotations (insert key value (object.annotations_of obj)) obj))

abbrev pub annotated_config_map : Annotated ConfigMap
annotated_config_map = record {
  annotations_of = λ (m : ConfigMap). m.annotations;
  with_annotations = λ a m. record m { annotations = a };
}

abbrev pub annotated_stateful_set : Annotated StatefulSet
annotated_stateful_set = record {
  annotations_of = λ (s : StatefulSet). s.annotations;
  with_annotations = λ a s. record s { annotations = a };
}
