-- ===== src/Controllers.antt =====
-- controllers: the reconcile loop. A handler works on the RabbitmqCluster that it was given a pointer
-- to and on the world outside; both are the state of the loop.
pub mod Access
pub mod OperatorDefaults
pub mod Configurations
pub mod Commands
pub mod UserReferences
pub mod Steps
pub mod Stages
pub mod Reconcile
pub mod Children
pub mod TlsCheck
pub mod Deletion
pub mod QueueRebalance
pub mod ScaleDown
pub mod StatusConditions
use pos_data_showcase.Prelude.{if◌then◌else◌, ℕ, String, Bool, Option, none, some, List, [], ◌∷◌}
use pos_data_showcase.Prelude.Dict.{Dict}
use pos_data_showcase.Kube.Objects.{StatefulSet, Endpoints, ConfigMap, Time}
use pos_data_showcase.Kube.Error.{Error, is_conflict}
use pos_data_showcase.Kube.Exec.{Result, ok, err, Exec, pure, attempt, ◌>>=◌, ◌>>◌}
use pos_data_showcase.Status.{RabbitmqClusterConditionType, ConditionStatus, reconcile_success}
use pos_data_showcase.ClusterStatus.{set_condition}
use pos_data_showcase.Cluster.{RabbitmqCluster}

-- corev1.Pod: what the operator reads and writes of one.
pub record Pod : Type 0 where
  pub name : String
  pub namespace : String
  pub labels : Dict String

-- The fields of RabbitmqClusterReconciler. An update answers the object as the server has stored
-- it. `delete_stateful_set` takes the UID of the precondition. `retry_on_conflict` is client-go's
-- RetryOnConflict, `retry_on_error` its OnError with the default backoff. `exec` takes a namespace,
-- a pod, a container and a command, whose output is only logged. `parse_time` is `time.Parse`,
-- `time_stamp` the present time, formatted, both as RFC 3339. The finalizer functions are
-- controller-runtime's controllerutil.
pub record Reconciler (W : Type 0) : Type 0 where
  pub default_rabbitmq_image : String
  pub default_user_updater_image : String
  pub default_image_pull_secrets : String
  pub get_stateful_set : String → String → Exec W StatefulSet
  pub get_endpoints : String → String → Exec W Endpoints
  pub get_secret : String → String → Exec W (Dict String)
  pub update_cluster : RabbitmqCluster → Exec W RabbitmqCluster
  pub update_status : RabbitmqCluster → Exec W RabbitmqCluster
  pub list_pods : String → Exec W (List Pod)
  pub update_pod : Pod → Exec W (Unit {0})
  pub delete_stateful_set : String → String → String → Exec W (Unit {0})
  pub retry_on_conflict : Exec W (Unit {0}) → Exec W (Unit {0})
  pub get_config_map : String → String → Exec W ConfigMap
  pub update_config_map : ConfigMap → Exec W (Unit {0})
  pub update_stateful_set : StatefulSet → Exec W (Unit {0})
  pub exec : String → String → String → List String → Exec W (Unit {0})
  pub retry_on_error : (Error → Bool) → Exec W (Unit {0}) → Exec W (Unit {0})
  pub parse_time : String → Result Time
  pub time_stamp : W → String
  pub event : String → String → W → W
  pub now : W → Time
  pub contains_finalizer : RabbitmqCluster → String → Bool
  pub with_finalizer : RabbitmqCluster → String → RabbitmqCluster
  pub without_finalizer : RabbitmqCluster → String → RabbitmqCluster

pub record Loop (W : Type 0) : Type 0 where
  pub cluster : RabbitmqCluster
  pub world : W

module _ {W A : Type 0} where
  -- A call that does not touch the cluster object.
  abbrev pub outside : Exec W A → Exec (Loop W) A
  outside m s = let (r, w) = m s.world in (r, record s { world = w })

-- After a failed update: in how many seconds the request is queued again, which is 2 for a conflict.
abbrev pub requeue_after : {W : Type 0} → Result (Unit {0}) → Exec W ℕ
requeue_after (ok _) w = (ok 0, w)
requeue_after (err e) w = (if is_conflict e then ok 2 else err e, w)

module _ {W : Type 0} where
  -- The handler writes to the object behind its pointer.
  abbrev pub modify : (RabbitmqCluster → RabbitmqCluster) → Exec (Loop W) (Unit {0})
  modify f s = (ok tt, record s { cluster = f s.cluster })

  -- The answer of the server replaces the object behind the pointer, if there is one.
  abbrev pub stored : Result RabbitmqCluster → Loop W → Result (Unit {0}) × Loop W
  stored (ok c) s = (ok tt, record s { cluster = c })
  stored (err e) s = (err e, s)

  abbrev pub store : (RabbitmqCluster → Exec W RabbitmqCluster) → Exec (Loop W) (Unit {0})
  store put s = let (r, w) = put s.cluster s.world in stored r (record s { world = w })

  -- `if err := call(); err != nil { logger.Error(err, …) }`
  abbrev pub log_failure : Exec (Loop W) (Unit {0}) → Exec (Loop W) (Unit {0})
  log_failure m s = (ok tt, (m s).1)

  -- `r.Recorder.Event(cluster, EventTypeWarning, reason, msg)`
  abbrev pub warn : Reconciler W → String → String → Exec (Loop W) (Unit {0})
  warn r reason msg s = (ok tt, record s { world = r.event reason msg s.world })

  -- The condition of the object, in memory.
  unfoldable pub put_condition :
      Reconciler W
      → RabbitmqClusterConditionType
      → ConditionStatus
      → String
      → List String
      → Exec (Loop W) (Unit {0})
  put_condition r t st reason messages s =
      modify
        (λ c. record c { status = set_condition (r.now s.world) t st reason messages c.status }) s

  unfoldable pub set_reconcile_success :
      Reconciler W → ConditionStatus → String → String → Exec (Loop W) (Unit {0})
  set_reconcile_success r st reason msg = do
    put_condition r reconcile_success st reason (msg ∷ [])
    log_failure (store r.update_status)
