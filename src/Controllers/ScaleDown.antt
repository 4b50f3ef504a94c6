-- ===== src/Controllers/ScaleDown.antt =====
-- controllers/reconcile_scale_down.go: a wish for fewer nodes is refused. The two numbers are those
-- behind the `Replicas` pointers of the StatefulSets, which the API server fills in.
pub mod Laws
use pos_data_showcase.Prelude.{ℕ, String, ◌<>◌, Bool, true, false, List, [], ◌∷◌, ltb}
use pos_data_showcase.Prelude.Decimal.{decimal}
use pos_data_showcase.Kube.Exec.{ok, Exec, pure, ◌>>◌}
use pos_data_showcase.Status.{reconcile_success, condition_false}
use pos_data_showcase.Controllers.{Reconciler, Loop, store, log_failure, warn, put_condition}

abbrev pub unsupported_operation : String
unsupported_operation = "UnsupportedOperation"

abbrev pub scale_down_message : ℕ → ℕ → String
scale_down_message current_replicas desired_replicas =
    "Cluster Scale down not supported; tried to scale cluster from "
    <> (decimal current_replicas <> (" nodes to " <> (decimal desired_replicas <> " nodes")))

module _ {W : Type 0} (r : Reconciler W) where
  unfoldable pub refuse_scale_down : String → Exec (Loop W) Bool
  refuse_scale_down msg = do
    warn r unsupported_operation msg
    put_condition r reconcile_success condition_false unsupported_operation (msg ∷ [])
    log_failure (store r.update_status)
    pure true

  unfoldable pub scale_down : ℕ → ℕ → Exec (Loop W) Bool
  scale_down current_replicas desired_replicas s = elim (ltb desired_replicas current_replicas) [
    | true ↦ refuse_scale_down (scale_down_message current_replicas desired_replicas) s
    | false ↦ (ok false, s)
  ]
