-- ===== src/Controllers/Reconcile/Grown.antt =====
-- controllers/rabbitmqcluster_controller.go and reconcile_persistence.go with
-- internal/scaling/scaling.go: the claims at the time the StatefulSet is written.
use mathlib.Core.Option
use mathlib.Core.Path.{subst}
use pos_data_showcase.Prelude.{ℕ, String, ◌<>◌, ◌<◌, ◌≤◌, some, ◌≡◌, ◌≢◌, refl, sym, ap, ◌∙◌}
use pos_data_showcase.Kube.Error.{Error}
use pos_data_showcase.Kube.Exec.{Result, ok, err}
use pos_data_showcase.Kube.Outcome.{returned, returned-injective}
use pos_data_showcase.Kube.Objects.{StatefulSet, PersistentVolumeClaim}
use pos_data_showcase.Status.{condition_false}
use pos_data_showcase.Cluster.{RabbitmqCluster, pvc_name}
use pos_data_showcase.Scaling.{ScalerClient, scale, storage, persistence_storage_capacity}
use pos_data_showcase.Scaling.Claims.{PvcLaws}
use pos_data_showcase.Scaling.Grown.{scale-grows}
use pos_data_showcase.Resource.Builders.{stateful_set_builder, update_may_require_sts_recreate}
use pos_data_showcase.Controllers.{Reconciler, Loop, outside, set_reconcile_success}
use pos_data_showcase.Controllers.Access.{stateful_set_of}
use pos_data_showcase.Controllers.StatusConditions.{or_nil}
use pos_data_showcase.Controllers.QueueRebalance.{replicas_of}
use pos_data_showcase.Controllers.ScaleDown.{scale_down}
use pos_data_showcase.Controllers.Steps.{next, return_if, ◌>>◌, go_on, return, or_return, or_panic}
use pos_data_showcase.Controllers.Steps.Inversion.{
  next-injective, >>=-eq-next, >>-eq-next, or_panic-eq-next,
}
use pos_data_showcase.Controllers.TlsCheck.{message}
use pos_data_showcase.Controllers.Stages.{reconcile_pvc, give_up, or_give_up}
use pos_data_showcase.Controllers.Reconcile.{
  Children, reconcile_child, prepare, prepare_stateful_set, refuse_scale_down_of, write_child,
}

module _ {W : Type 0} (r : Reconciler W) where
  give_up-ne-next :
      {A : Type 0} (reason : String) (e : Error) (s s' : Loop W) (a : A)
      → give_up r reason e s ≢ (next a, s')
  unfolding give_up
  give_up-ne-next {A} reason e s s' a same =
      let (_, _, _, answered) =
        >>-eq-next (or_return (set_reconcile_success r condition_false reason (message e)))
          (return {A = A} (err e)) s same in
      cc (ap (λ p. p.0) answered)

  or_give_up-eq-next :
      (reason : String) (x : Result (Unit {0})) (s : Loop W) {s' : Loop W}
      → or_give_up r reason x s ≡ (next tt, s')
      → (x ≡ ok tt) × (s ≡ s')
  or_give_up-eq-next reason (ok _) s e = (refl, ap (λ p. p.1) e)
  or_give_up-eq-next reason (err x) s e = absurd (give_up-ne-next reason x s _ tt e)

  recorded-eq-ok :
      (x : Result (Unit {0})) (f : Error → W → W) (w : W) {w' : W}
      → elim x as (λ _. Result (Unit {0}) × W) [ ok _ ↦ (ok tt, w) | err e ↦ (err e, f e w) ]
        ≡ (ok tt, w')
      → (x ≡ ok tt) × (w ≡ w')
  recorded-eq-ok (ok _) f w e = (refl, ap (λ p. p.1) e)
  recorded-eq-ok (err x) f w e = absurd (cc (ap (λ p. p.0) e))

  reconcile_pvc-eq-ok :
      (client : ScalerClient W) (rmq : RabbitmqCluster) (sts : StatefulSet) (w : W) {w' : W}
      → reconcile_pvc r client rmq sts w ≡ (ok tt, w')
      → scale client rmq (persistence_storage_capacity sts.volume_claim_templates) w ≡ (ok tt, w')
  unfolding reconcile_pvc
  reconcile_pvc-eq-ok client rmq sts w e =
      let p = scale client rmq (persistence_storage_capacity sts.volume_claim_templates) w in
      let (done, same) =
        recorded-eq-ok p.0
          (λ x. r.event "FailedReconcilePersistence" ("Failed to scale PVCs: " <> message x)) p.1
          e in
      λ i. (done i, same i)

module _ {W O : Type 0} (r : Reconciler W) (client : ScalerClient W) (laws : PvcLaws client)
    (ch : Children W O) where
  open laws use {stored}

  -- The claims that are there are large enough for the StatefulSet.
  abbrev ClaimsFit : StatefulSet → Loop W → Type 0
  ClaimsFit sts t =
      (j : ℕ) (p : PersistentVolumeClaim)
      → j < Option.get_or t.cluster.spec.replicas 1
      → stored t.world t.cluster.namespace (pvc_name t.cluster j) ≡ some p
      → persistence_storage_capacity sts.volume_claim_templates ≤ storage p

  reconcile_pvc-ClaimsFit :
      (sts : StatefulSet) (t : Loop W)
      → (outside (reconcile_pvc r client t.cluster sts) t).0 ≡ ok tt
      → ClaimsFit sts (outside (reconcile_pvc r client t.cluster sts) t).1
  reconcile_pvc-ClaimsFit sts t e j p few there =
      let w' = (reconcile_pvc r client t.cluster sts t.world).1 in
      scale-grows client laws t.cluster (persistence_storage_capacity sts.volume_claim_templates)
        t.world w' j p (reconcile_pvc-eq-ok r client t.cluster sts t.world (λ i. (e i, w'))) few
        there

  or_give_up-ClaimsFit :
      (sts : StatefulSet) (given wished : O) (t s' : Loop W)
      → (or_give_up r "FailedReconcilePVC" (outside (reconcile_pvc r client t.cluster sts) t).0
            >> go_on given)
          (outside (reconcile_pvc r client t.cluster sts) t).1
        ≡ (next wished, s')
      → (given ≡ wished) × ClaimsFit sts s'
  or_give_up-ClaimsFit sts given wished t s' e =
      let (x, t') = outside (reconcile_pvc r client t.cluster sts) t in
      let (_, s1, e1, e2) = >>-eq-next (or_give_up r "FailedReconcilePVC" x) (go_on given) t' e in
      let (done, same) = or_give_up-eq-next r "FailedReconcilePVC" x t' e1 in
      (
        cc (ap (λ p. p.0) e2),
        subst (ClaimsFit sts) (same ∙ ap (λ p. p.1) e2) (reconcile_pvc-ClaimsFit sts t done),
      )

  -- Where there is a StatefulSet, the step goes on with what `Update` makes of the object.
  refuse_scale_down_of-updated :
      (current : StatefulSet) (resource given : O) (s s' : Loop W)
      → refuse_scale_down_of r client ch (some current) stateful_set_builder resource s
        ≡ (next given, s')
      → ch.update_child stateful_set_builder s.cluster resource ≡ returned given
  unfolding refuse_scale_down_of
  refuse_scale_down_of-updated current resource given s s' e =
      let (wished, s1, e1, rest) =
        >>=-eq-next (or_panic (ch.update_child stateful_set_builder s.cluster resource)) _ s e in
      let (sts, s2, e2, rest2) = >>=-eq-next (or_panic (ch.as_stateful_set wished)) _ s1 rest in
      let (down, s3, e3, rest3) =
        >>=-eq-next
          (or_return (scale_down r (replicas_of current.replicas) (replicas_of sts.replicas))) _ s2
          rest2 in
      let (u, s4, e4, last) = >>-eq-next (return_if down (return (ok 0))) (go_on wished) s3 rest3 in
      (or_panic-eq-next (ch.update_child stateful_set_builder s.cluster resource) s e1).0
      ∙ ap returned (next-injective wished given (ap (λ p. p.0) last))

  prepare_stateful_set-updated :
      (current : StatefulSet) (resource wished : O) (s s' : Loop W) (w : W)
      → stateful_set_of r s.cluster s.world ≡ (ok current, w)
      → prepare_stateful_set r client ch stateful_set_builder resource s ≡ (next wished, s')
      → ch.update_child stateful_set_builder s.cluster resource ≡ returned wished
  unfolding prepare_stateful_set
  prepare_stateful_set-updated current resource wished s s' w read e =
      let e0 = rw (read, prepare_stateful_set) at e in
      let (given, s2, first, e2) =
        >>=-eq-next (refuse_scale_down_of r client ch (some current) stateful_set_builder resource)
          _ (record s { world = w }) e0 in
      let (sts, s3, e3, e4) = >>=-eq-next (or_panic (ch.as_stateful_set given)) _ s2 e2 in
      let (same, fit) = or_give_up-ClaimsFit sts given wished s3 s' e4 in
      refuse_scale_down_of-updated current resource given (record s { world = w }) s2 first
      ∙ ap returned same

  prepare_stateful_set-ClaimsFit :
      (resource wished : O) (s s' : Loop W)
      → prepare_stateful_set r client ch stateful_set_builder resource s ≡ (next wished, s')
      → (sts : StatefulSet) × (ch.as_stateful_set wished ≡ returned sts) × ClaimsFit sts s'
  unfolding prepare_stateful_set
  prepare_stateful_set-ClaimsFit resource wished s s' e =
      let (current, s1, _, e1) =
        >>=-eq-next (or_return (outside (or_nil (stateful_set_of r s.cluster)))) _ s e in
      let (given, s2, _, e2) =
        >>=-eq-next (refuse_scale_down_of r client ch current stateful_set_builder resource) _ s1
          e1 in
      let (sts, s3, e3, e4) = >>=-eq-next (or_panic (ch.as_stateful_set given)) _ s2 e2 in
      let (same, fit) = or_give_up-ClaimsFit sts given wished s3 s' e4 in
      (
        sts,
        sym (ap ch.as_stateful_set same) ∙ (or_panic-eq-next (ch.as_stateful_set given) s2 e3).0,
        fit,
      )

  -- With a client that behaves as `PvcLaws` says, for a cluster whose StatefulSet is there: where the
  -- preparation of the StatefulSet goes on with the object `wished`, that is what `Update` makes of the
  -- object that `Build` returned; the step of the StatefulSet is to hand `wished` to CreateOrUpdate
  -- next, from the state `t` that the preparation ended in; and in `t` each claim of the cluster that
  -- is there, one for each replica, has at least the storage that the claim template of `wished` asks
  -- for.
  pub reconcile_child-grows :
      (s t : Loop W) (current : StatefulSet) (w : W) (resource wished : O) (sts : StatefulSet)
      (j : ℕ) (p : PersistentVolumeClaim)
      → stateful_set_of r s.cluster s.world ≡ (ok current, w)
      → ch.build_child stateful_set_builder s.cluster ≡ returned resource
      → prepare_stateful_set r client ch stateful_set_builder resource s ≡ (next wished, t)
      → ch.as_stateful_set wished ≡ returned sts
      → j < Option.get_or t.cluster.spec.replicas 1
      → stored t.world t.cluster.namespace (pvc_name t.cluster j) ≡ some p
      → (ch.update_child stateful_set_builder s.cluster resource ≡ returned wished)
        × (reconcile_child r client ch stateful_set_builder s
            ≡ write_child r client ch stateful_set_builder wished t)
        × (persistence_storage_capacity sts.volume_claim_templates ≤ storage p)
  unfolding reconcile_child prepare update_may_require_sts_recreate
  reconcile_child-grows s t current w resource wished sts j p read built prepared asserted few
        there =
      let (sts', asserted', fit) = prepare_stateful_set-ClaimsFit resource wished s t prepared in
      let same = returned-injective sts' sts (sym asserted' ∙ asserted) in
      (
        prepare_stateful_set-updated current resource wished s t w read prepared,
        rw (built, reconcile_child) (rw prepared refl),
        subst (λ x. ClaimsFit x t) same fit j p few there,
      )
