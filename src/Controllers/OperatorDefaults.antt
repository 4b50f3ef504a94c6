-- ===== src/Controllers/OperatorDefaults.antt =====
-- controllers/reconcile_operator_defaults.go: the defaults of the operator are written into the
-- cluster object, each by an update of its own.
pub mod Laws
use pos_data_showcase.Prelude.{
  ℕ, String, Bool, true, false, Option, none, some, List, [], ◌∷◌, ltb, length, if◌then◌else◌,
  str_eq, ◌++◌,
}
use mathlib.Core.Option
use pos_data_showcase.Prelude.Strings.{split}
use pos_data_showcase.Kube.Error.{Error, is_conflict}
use pos_data_showcase.Kube.Exec.{Result, ok, err, Exec, pure, run_if, ◌>>=◌, ◌>>◌}
use pos_data_showcase.Cluster.{RabbitmqCluster, VaultSpec, is_set, uses_default_user_updater_image}
use pos_data_showcase.Controllers.{Reconciler, Loop, requeue_after, modify, store}

-- The loop over the names in the flag: empty ones are left out. Appending nothing to a nil slice
-- leaves it nil.
unfoldable pub append_references : Option (List String) → List String → Option (List String)
append_references refs [] = refs
append_references refs (name ∷ rest) =
    append_references (if is_set name then some (Option.get_or refs [] ++ name ∷ []) else refs) rest

abbrev pub with_image : String → RabbitmqCluster → RabbitmqCluster
with_image image c = record c { spec = record c.spec { image = image } }

abbrev pub with_image_pull_secrets : Option (List String) → RabbitmqCluster → RabbitmqCluster
with_image_pull_secrets refs c = record c { spec = record c.spec { image_pull_secrets = refs } }

-- `SecretBackend.Vault.DefaultUserUpdaterImage = &image`, behind the test that Vault is not nil.
abbrev pub with_updater_image : String → RabbitmqCluster → RabbitmqCluster
with_updater_image image c = record c {
  spec = record c.spec {
    secret_backend = record {
      vault =
          Option.map (λ (v : VaultSpec). record v { default_user_updater_image = some image })
            c.spec.secret_backend.vault;
    };
  };
}

abbrev pub image_missing : RabbitmqCluster → Bool
image_missing c = str_eq c.spec.image ""

abbrev pub pull_secrets_missing : RabbitmqCluster → Bool
pull_secrets_missing c = elim c.spec.image_pull_secrets [ none ↦ true | some _ ↦ false ]

module _ {W : Type 0} (r : Reconciler W) where
  unfoldable pub update_rabbitmq_cluster : Exec (Loop W) ℕ
  update_rabbitmq_cluster s = let (x, s') = store r.update_cluster s in requeue_after x s'

  unfoldable pub write_default : (RabbitmqCluster → RabbitmqCluster) → Exec (Loop W) (Unit {0})
  write_default change = do modify change; update_rabbitmq_cluster; pure tt

  -- `if test { …; if requeue, err := update(); err != nil { return requeue, err } }`
  unfoldable pub default_if :
      (RabbitmqCluster → Bool) → (RabbitmqCluster → RabbitmqCluster) → Exec (Loop W) (Unit {0})
  default_if test change s = run_if (test s.cluster) (write_default change) s

  unfoldable pub reconcile_operator_defaults : Exec (Loop W) ℕ
  reconcile_operator_defaults = do
    default_if image_missing (with_image r.default_rabbitmq_image)
    default_if pull_secrets_missing (λ c.
        with_image_pull_secrets
          (append_references c.spec.image_pull_secrets (split r.default_image_pull_secrets ",")) c)
    default_if uses_default_user_updater_image (with_updater_image r.default_user_updater_image)
    pure 0
