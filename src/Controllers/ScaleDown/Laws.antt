-- ===== src/Controllers/ScaleDown/Laws.antt =====
-- controllers/reconcile_scale_down.go: when a scale down is refused, and when nothing happens.
use pos_data_showcase.Prelude.{
  ℕ, true, false, ltb, ◌≤◌, ◌≡◌, ◌↔◌, sym, ap, ◌∙◌, Bool-cases, inl, inr, arith,
}
use pos_data_showcase.Kube.Exec.{ok}
use pos_data_showcase.Controllers.{Reconciler, Loop, put_condition}
use pos_data_showcase.Controllers.ScaleDown.{refuse_scale_down, scale_down}

-- `scaleDown` answers true exactly where fewer nodes are wished than there are, whatever the API
-- answers, and does nothing at all exactly where that is not so.
pub scale_down-answer :
    {W : Type 0} (r : Reconciler W) (current desired : ℕ) (s : Loop W)
    → ((scale_down r current desired s).0 ≡ ok (ltb desired current))
      × ((scale_down r current desired s ≡ (ok false, s)) ↔ (current ≤ desired))
unfolding scale_down refuse_scale_down put_condition
scale_down-answer r current desired s = elim (Bool-cases (ltb desired current)) [
  | inr h ↦ (rw (h, scale_down), (λ e. ground arith, λ l. rw (h, scale_down)))
  | inl h ↦
      let answer : (scale_down r current desired s).0 ≡ ok true = rw (h, scale_down) in
      (answer ∙ rw h, (λ e. absurd (cc (sym answer ∙ ap (λ p. p.0) e)), λ l. absurd (ground arith)))
]
