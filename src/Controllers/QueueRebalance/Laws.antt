-- ===== src/Controllers/QueueRebalance/Laws.antt =====
-- controllers: a cluster is marked for a rebalance once.
use pos_data_showcase.Prelude.{String, true, ◌≡◌, refl, sym, ap, ◌∙◌, Bool-cases, inl, inr}
use pos_data_showcase.Prelude.Dict.{lookup, lookup-insert}
use pos_data_showcase.Kube.Exec.{Result, ok, err}
use pos_data_showcase.Cluster.{RabbitmqCluster, is_set}
use pos_data_showcase.Controllers.{Reconciler, Loop, stored}
use pos_data_showcase.Controllers.QueueRebalance.{
  queue_rebalance_annotation, has_text, is_marked, marked, mark_for_queue_rebalance,
}

-- The server stores the annotations that it is sent.
abbrev pub StoresAnnotations : {W : Type 0} → Reconciler W → Type 0
StoresAnnotations {W} r =
    (c c' : RabbitmqCluster) (w : W)
    → (r.update_cluster c w).0 ≡ ok c'
    → c'.annotations ≡ c.annotations

module _ {W : Type 0} (r : Reconciler W) (stamp : W → String) where
  stored-marked :
      (c : RabbitmqCluster) (x : Result RabbitmqCluster) (s s' : Loop W)
      → ((c' : RabbitmqCluster) → x ≡ ok c' → c'.annotations ≡ c.annotations)
      → stored x s ≡ (ok tt, s')
      → is_marked s'.cluster ≡ is_marked c
  unfolding is_marked
  stored-marked c (ok c') s s' h e =
      ap (λ (p : Result (Unit {0}) × Loop W). is_marked p.1.cluster) (sym e)
      ∙ ap (λ m. has_text (lookup queue_rebalance_annotation m)) (h c' refl)
  stored-marked c (err x) s s' h e = absurd (cc (ap (λ (p : Result (Unit {0}) × Loop W). p.0) e))

  -- Where `markForQueueRebalance` succeeds, the cluster has the mark, and a second call changes and
  -- writes nothing, given a server that stores the annotations that it is sent and a formatted time
  -- that is not the empty text.
  mark_for_queue_rebalance_once :
      StoresAnnotations r
      → (s s' : Loop W) → is_set (stamp s.world) ≡ true
      → mark_for_queue_rebalance r stamp s ≡ (ok tt, s')
      → (is_marked s'.cluster ≡ true) × (mark_for_queue_rebalance r stamp s' ≡ (ok tt, s'))
  unfolding mark_for_queue_rebalance
  mark_for_queue_rebalance_once stores s s' text e =
      let has_mark : is_marked s'.cluster ≡ true = elim (Bool-cases (is_marked s.cluster)) [
        | inl h ↦
            ap (λ (p : Result (Unit {0}) × Loop W). is_marked p.1.cluster)
              (sym (rw (h, mark_for_queue_rebalance) at e))
            ∙ h
        | inr h ↦
            let c = marked (stamp s.world) s.cluster in
            let (x, w) = r.update_cluster c s.world in
            let new : is_marked c ≡ true =
              unfold is_marked in
              (ap has_text (
                  lookup-insert queue_rebalance_annotation queue_rebalance_annotation
                    (stamp s.world) s.cluster.annotations)
                ∙ text) in
            stored-marked c x (record { cluster = c; world = w }) s'
              (λ c' got. stores c c' s.world got) (rw (h, mark_for_queue_rebalance) at e)
            ∙ new
      ] in
      (has_mark, rw (has_mark, mark_for_queue_rebalance))
