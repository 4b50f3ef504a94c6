-- ===== src/Controllers/Commands/Plugins.antt =====
-- controllers/reconcile_cli.go: `runSetPluginsCommand` sets the plugins on every pod before the
-- mark that asks for it is taken away.
use pos_data_showcase.Prelude.{
  ℕ, zero, suc, ◌+◌, ◌<◌, length, String, Option, none, List, [], ◌∷◌, ◌++◌, ◌≡◌, refl, inl, inr,
  sym, ap, ◌∙◌, arith,
}
use mathlib.Core.List.{append_assoc, append-nil}
use pos_data_showcase.Prelude.Dict.{Dict, lookup, lookup-erase}
use pos_data_showcase.Kube.Error.{Error}
use pos_data_showcase.Kube.Objects.{ConfigMap}
use pos_data_showcase.Kube.Exec.{Result, ok, err, Exec}
use pos_data_showcase.Kube.Exec.Inversion.{>>=-eq-ok, >>=-eq-err, Keeps-bind}
use pos_data_showcase.Cluster.{RabbitmqCluster}
use pos_data_showcase.Controllers.{Reconciler}
use pos_data_showcase.Controllers.Access.{delete_annotation, delete_if_any, annotated_config_map}
use pos_data_showcase.Controllers.Configurations.{plugins_update_annotation}
use pos_data_showcase.Controllers.QueueRebalance.{replicas_of}
use pos_data_showcase.Controllers.Commands.{
  pod_name, report_pod, run_on_pod, set_plugins_command, set_plugins_from, run_set_plugins_command,
}

-- What the world remembers: the commands that have succeeded, each with its pod, and the mark on the
-- stored config map. A command and an event do not touch the mark, a write of the config map stores
-- its mark if it succeeds and else leaves the stored one, and it runs no command.
pub record PodLaws {W : Type 0} (r : Reconciler W) : Type 0 where
  pub commands : W → List (String × List String)
  pub mark : W → Option String
  pub exec_logs :
      (ns pod c : String) (cmd : List String) (w w' : W)
      → r.exec ns pod c cmd w ≡ (ok tt, w')
      → commands w' ≡ commands w ++ (pod, cmd) ∷ []
  pub exec_mark :
      (ns pod c : String) (cmd : List String) (w : W) → mark (r.exec ns pod c cmd w).1 ≡ mark w
  pub event_mark : (reason msg : String) (w : W) → mark (r.event reason msg w) ≡ mark w
  pub update_commands : (m : ConfigMap) (w : W) → commands (r.update_config_map m w).1 ≡ commands w
  pub update_mark :
      (m : ConfigMap) (w w' : W)
      → r.update_config_map m w ≡ (ok tt, w')
      → mark w' ≡ lookup plugins_update_annotation m.annotations
  pub failed_update_mark :
      (m : ConfigMap) (w w' : W) (e : Error)
      → r.update_config_map m w ≡ (err e, w')
      → mark w' ≡ mark w

-- `rabbitmq-plugins set` on `n` pods from `i` on, in order.
abbrev pub on_each_pod : RabbitmqCluster → ℕ → ℕ → List (String × List String)
on_each_pod rmq zero i = []
on_each_pod rmq (suc n) i =
    (pod_name rmq i, "sh" ∷ "-c" ∷ set_plugins_command rmq ∷ []) ∷ on_each_pod rmq n (i + 1)

module _ {W : Type 0} (r : Reconciler W) (laws : PodLaws r) (rmq : RabbitmqCluster) where
  open laws use {
    commands, mark, exec_logs, exec_mark, event_mark, update_commands, update_mark,
    failed_update_mark,
  }

  report_pod-eq-ok :
      (msg : String) (x : Result (Unit {0})) (w w' : W)
      → report_pod r msg x w ≡ (ok tt, w')
      → (x ≡ ok tt) × (w ≡ w')
  unfolding report_pod
  report_pod-eq-ok msg (ok _) w w' e = (refl, ap (λ p. p.1) e)
  report_pod-eq-ok msg (err x) w w' e = absurd (cc (ap (λ (p : Result (Unit {0}) × W). p.0) e))

  run_on_pod-logs :
      (msg pod shell cmd : String) (w w' : W)
      → run_on_pod r rmq msg pod shell cmd w ≡ (ok tt, w')
      → commands w' ≡ commands w ++ (pod, shell ∷ "-c" ∷ cmd ∷ []) ∷ []
  unfolding run_on_pod
  run_on_pod-logs msg pod shell cmd w w' e =
      let (x, w1) = r.exec rmq.namespace pod "rabbitmq" (shell ∷ "-c" ∷ cmd ∷ []) w in
      let (done, same) = report_pod-eq-ok _ x w1 w' e in
      exec_logs rmq.namespace pod "rabbitmq" (shell ∷ "-c" ∷ cmd ∷ []) w w' (λ i. (done i, same i))

  report_pod-mark :
      (msg : String) (x : Result (Unit {0})) (w : W) → mark (report_pod r msg x w).1 ≡ mark w
  unfolding report_pod
  report_pod-mark msg (ok _) w = refl
  report_pod-mark msg (err x) w = event_mark "FailedReconcile" msg w

  run_on_pod-mark :
      (msg pod shell cmd : String) (w : W) → mark (run_on_pod r rmq msg pod shell cmd w).1 ≡ mark w
  unfolding run_on_pod
  run_on_pod-mark msg pod shell cmd w =
      report_pod-mark _ _ _ ∙ exec_mark rmq.namespace pod "rabbitmq" (shell ∷ "-c" ∷ cmd ∷ []) w

  set_plugins_from-logs :
      (n i : ℕ) (w w' : W)
      → set_plugins_from r rmq n i w ≡ (ok tt, w')
      → commands w' ≡ commands w ++ on_each_pod rmq n i
  unfolding set_plugins_from
  set_plugins_from-logs zero i w w' e =
      ap (λ p. commands p.1) (sym e) ∙ sym (append-nil (commands w))
  set_plugins_from-logs (suc n) i w w' e =
      let (u, w1, first, rest) =
        >>=-eq-ok
          (run_on_pod r rmq "failed to set plugins on pod" (pod_name rmq i) "sh"
            (set_plugins_command rmq))
          (λ _. set_plugins_from r rmq n (i + 1)) w e in
      set_plugins_from-logs n (i + 1) w1 w' rest
      ∙ ap (λ cs. cs ++ on_each_pod rmq n (i + 1))
          (run_on_pod-logs "failed to set plugins on pod" (pod_name rmq i) "sh"
            (set_plugins_command rmq) w w1 first)
      ∙ append_assoc (commands w) _ (on_each_pod rmq n (i + 1))

  set_plugins_from-mark : (n i : ℕ) (w : W) → mark (set_plugins_from r rmq n i w).1 ≡ mark w
  unfolding set_plugins_from
  set_plugins_from-mark zero i w = refl
  set_plugins_from-mark (suc n) i w =
      Keeps-bind mark
        (run_on_pod r rmq "failed to set plugins on pod" (pod_name rmq i) "sh"
          (set_plugins_command rmq))
        (λ _. set_plugins_from r rmq n (i + 1))
        (run_on_pod-mark "failed to set plugins on pod" (pod_name rmq i) "sh"
          (set_plugins_command rmq))
        (λ _. set_plugins_from-mark n (i + 1)) w

  -- The config map without its mark is written.
  abbrev delete_mark : Dict String → ConfigMap → Exec W (Unit {0})
  delete_mark entries cfg =
      delete_if_any annotated_config_map r.update_config_map entries cfg plugins_update_annotation

  delete_mark-commands :
      (entries : Dict String) (cfg : ConfigMap) (w : W)
      → commands (delete_mark entries cfg w).1 ≡ commands w
  unfolding delete_if_any
  delete_mark-commands [] cfg w = refl
  delete_mark-commands (a ∷ entries) cfg w = update_commands _ w

  delete_mark-gone :
      (entries : Dict String) (cfg : ConfigMap) (w w' : W)
      → 0 < length entries
      → delete_mark entries cfg w ≡ (ok tt, w')
      → mark w' ≡ none
  unfolding delete_if_any
  delete_mark-gone [] cfg w w' h e = absurd (omega (arith, h))
  delete_mark-gone (a ∷ entries) cfg w w' h e =
      update_mark _ w w' e
      ∙ lookup-erase plugins_update_annotation plugins_update_annotation (a ∷ entries)

  delete_mark-failed :
      (entries : Dict String) (cfg : ConfigMap) (w w' : W) (x : Error)
      → delete_mark entries cfg w ≡ (err x, w')
      → mark w' ≡ mark w
  unfolding delete_if_any
  delete_mark-failed [] cfg w w' x e = absurd (cc (ap (λ (p : Result (Unit {0}) × W). p.0) e))
  delete_mark-failed (a ∷ entries) cfg w w' x e = failed_update_mark _ w w' x e

  -- With `PodLaws`, for a config map with an annotation: where `runSetPluginsCommand` succeeds, it
  -- went through a state in which `rabbitmq-plugins set` had succeeded on each of the pods 0 to
  -- replicas - 1, once and in this order, and the mark on the stored config map was still what it
  -- had been; from there it took the mark away, and ran no further command.
  pub run_set_plugins_command-each :
      (cfg : ConfigMap) (w w' : W)
      → 0 < length cfg.annotations
      → run_set_plugins_command r rmq cfg w ≡ (ok tt, w')
      → (w1 : W) × (commands w1 ≡ commands w ++ on_each_pod rmq (replicas_of rmq.spec.replicas) 0)
        × (mark w1 ≡ mark w)
        × (delete_annotation annotated_config_map r.update_config_map cfg plugins_update_annotation
              w1
            ≡ (ok tt, w'))
        × (mark w' ≡ none)
        × (commands w' ≡ commands w1)
  unfolding run_set_plugins_command delete_annotation
  run_set_plugins_command-each cfg w w' some_there e =
      let n = replicas_of rmq.spec.replicas in
      let (u, w1, first, rest) =
        >>=-eq-ok (set_plugins_from r rmq n 0) (λ _. delete_mark cfg.annotations cfg) w e in
      (
        w1,
        set_plugins_from-logs n 0 w w1 first,
        ap (λ (p : Result (Unit {0}) × W). mark p.1) (sym first) ∙ set_plugins_from-mark n 0 w,
        rest,
        delete_mark-gone cfg.annotations cfg w1 w' some_there rest,
        ap (λ (p : Result (Unit {0}) × W). commands p.1) (sym rest)
            ∙ delete_mark-commands cfg.annotations cfg w1,
      )

  -- With `PodLaws`: where `runSetPluginsCommand` fails, the mark on the stored config map is what
  -- it was, so a later pass sets the plugins again.
  pub run_set_plugins_command-retried :
      (cfg : ConfigMap) (w w' : W) (e : Error)
      → run_set_plugins_command r rmq cfg w ≡ (err e, w')
      → mark w' ≡ mark w
  unfolding run_set_plugins_command delete_annotation
  run_set_plugins_command-retried cfg w w' x e =
      let n = replicas_of rmq.spec.replicas in
      elim (>>=-eq-err (set_plugins_from r rmq n 0) (λ _. delete_mark cfg.annotations cfg) w e) [
        | inl failed ↦
            ap (λ (p : Result (Unit {0}) × W). mark p.1) (sym failed) ∙ set_plugins_from-mark n 0 w
        | inr (u, w1, first, rest) ↦
            delete_mark-failed cfg.annotations cfg w1 w' x rest
            ∙ ap (λ (p : Result (Unit {0}) × W). mark p.1) (sym first)
            ∙ set_plugins_from-mark n 0 w
      ]
