-- ===== src/Controllers/Reconcile/Stops.antt =====
-- controllers/rabbitmqcluster_controller.go: where Reconcile leaves the children alone.
use pos_data_showcase.Prelude.{ℕ, ◌<◌, ltb, arith, true, none, some, ◌≡◌, refl, sym, ap, ◌∙◌}
use pos_data_showcase.Prelude.Dict.{lookup}
use pos_data_showcase.Kube.Exec.{ok}
use pos_data_showcase.Kube.Outcome.{Outcome, returned}
use pos_data_showcase.Kube.Objects.{StatefulSet}
use pos_data_showcase.Scaling.{ScalerClient}
use pos_data_showcase.Resource.Builders.{stateful_set_builder, update_may_require_sts_recreate}
use pos_data_showcase.Controllers.{Reconciler, Loop, put_condition}
use pos_data_showcase.Controllers.Steps.{next, answer}
use pos_data_showcase.Controllers.Access.{stateful_set_of}
use pos_data_showcase.Controllers.Deletion.{is_deleting}
use pos_data_showcase.Controllers.Configurations.{OperationResult}
use pos_data_showcase.Controllers.ScaleDown.{scale_down}
use pos_data_showcase.Controllers.ScaleDown.Laws.{scale_down-answer}
use pos_data_showcase.Controllers.QueueRebalance.{replicas_of}
use pos_data_showcase.Controllers.Stages.{
  pause_reconciliation_label, is_true, is_paused, return_if_deleting, return_if_paused,
}
use pos_data_showcase.Controllers.Reconcile.{
  Children, reconcile_cluster, reconcile_child, prepare, prepare_stateful_set, refuse_scale_down_of,
}

module _ {W : Type 0} (r : Reconciler W) (s : Loop W) where
  alive_goes_on : s.cluster.deletion_timestamp ≡ none → return_if_deleting r s ≡ (next tt, s)
  unfolding return_if_deleting
  alive_goes_on alive = rw (ap is_deleting alive, return_if_deleting)

  paused_returns :
      lookup pause_reconciliation_label s.cluster.labels ≡ some "true"
      → return_if_paused r s ≡ (answer (ok 0), (return_if_paused r s).1)
  unfolding return_if_paused is_paused put_condition
  paused_returns paused = rw (ap is_true paused, return_if_paused)

module _ {W : Type 0} (r : Reconciler W) where
  scale_down-true :
      (current desired : ℕ) (t : Loop W)
      → desired < current
      → scale_down r current desired t ≡ (ok true, (scale_down r current desired t).1)
  scale_down-true current desired t fewer =
      let test : ltb desired current ≡ true = ground arith in
      let answers = (scale_down-answer r current desired t).0 ∙ ap ok test in
      λ i. (answers i, (scale_down r current desired t).1)

module _ {W O : Type 0} (r : Reconciler W) where
  reconcile_cluster-answer :
      (s : Loop W) (client : ScalerClient W) (ch : Children W O)
      → s.cluster.deletion_timestamp ≡ none
      → lookup pause_reconciliation_label s.cluster.labels ≡ some "true"
      → reconcile_cluster r client ch s ≡ (answer (ok 0), (return_if_paused r s).1)
  unfolding reconcile_cluster
  reconcile_cluster-answer s client ch alive paused =
      rw (alive_goes_on r s alive) (rw (paused_returns r s paused) refl)

  -- Reconcile of a cluster whose pause label is set to true, and which is not being deleted, answers
  -- with no error and no requeue, whatever the builders, the scaler and the server's answers are,
  -- and the same happens for any other builders and scaler: no child is built, scaled or written.
  pub reconcile_cluster-paused :
      (s : Loop W) (client client' : ScalerClient W) (ch ch' : Children W O)
      → s.cluster.deletion_timestamp ≡ none
      → lookup pause_reconciliation_label s.cluster.labels ≡ some "true"
      → ((reconcile_cluster r client ch s).0 ≡ answer (ok 0))
        × (reconcile_cluster r client ch s ≡ reconcile_cluster r client' ch' s)
  reconcile_cluster-paused s client client' ch ch' alive paused =
      let e = reconcile_cluster-answer s client ch alive paused in
      (ap (λ p. p.0) e, e ∙ sym (reconcile_cluster-answer s client' ch' alive paused))

  reconcile_child-answer :
      (s : Loop W) (client : ScalerClient W) (ch : Children W O) (resource wished : O)
      (current desired : StatefulSet) (w : W)
      → ch.build_child stateful_set_builder s.cluster ≡ returned resource
      → stateful_set_of r s.cluster s.world ≡ (ok current, w)
      → ch.update_child stateful_set_builder s.cluster resource ≡ returned wished
      → ch.as_stateful_set wished ≡ returned desired
      → replicas_of desired.replicas < replicas_of current.replicas
      → reconcile_child r client ch stateful_set_builder s ≡ (
        answer (ok 0),
        (scale_down r
            (replicas_of current.replicas)
            (replicas_of desired.replicas)
            (record s { world = w })).1,
      )
  unfolding reconcile_child prepare prepare_stateful_set refuse_scale_down_of
      update_may_require_sts_recreate
  reconcile_child-answer s client ch resource wished current desired w built read filled asserted
        fewer =
      rw (built, reconcile_child)
        (rw (read, prepare_stateful_set)
          (rw filled (
            rw asserted (
              rw
                (scale_down-true r (replicas_of current.replicas) (replicas_of desired.replicas)
                  (record s { world = w }) fewer)
                refl))))

  -- Where the StatefulSet of the cluster is there with more replicas than the one that `Build` and
  -- `Update` give, the step of the StatefulSet ends Reconcile with no error and no requeue, and is
  -- the same for any other scaler and any other way to write children: the claims are not scaled
  -- and the StatefulSet is not written.
  pub reconcile_child-scale_down :
      (s : Loop W) (client client' : ScalerClient W) (ch : Children W O)
      (put : O → (O → Outcome O) → W → (OperationResult × Outcome (Unit {0})) × W)
      (resource wished : O) (current desired : StatefulSet) (w : W)
      → ch.build_child stateful_set_builder s.cluster ≡ returned resource
      → stateful_set_of r s.cluster s.world ≡ (ok current, w)
      → ch.update_child stateful_set_builder s.cluster resource ≡ returned wished
      → ch.as_stateful_set wished ≡ returned desired
      → replicas_of desired.replicas < replicas_of current.replicas
      → ((reconcile_child r client ch stateful_set_builder s).0 ≡ answer (ok 0))
        × (reconcile_child r client ch stateful_set_builder s
            ≡ reconcile_child r client'
                (record ch { create_or_update = put })
                stateful_set_builder
                s)
  reconcile_child-scale_down s client client' ch put resource wished current desired w built read
        filled asserted fewer =
      let e =
        reconcile_child-answer s client ch resource wished current desired w built read filled
          asserted fewer in
      (
        ap (λ p. p.0) e,
        e
            ∙ sym (
                reconcile_child-answer s client' (record ch { create_or_update = put }) resource
                  wished current desired w built read filled asserted fewer),
      )
