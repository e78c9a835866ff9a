-- ===== src/Policy/Engine/HeldBack.antt =====
-- The reconciles of a cooldown (policy/engine.py, (C) of `evaluate`).
use samsung.Prelude.{
  pos, ◌<ℤ◌, ◌≡◌, refl, sym, ap, subst, ◌∙◌, true, Option, some, List, [], ◌∷◌, Float, All, or_else,
}
use samsung.Schemas.{noop, isolate_backend, Weights, Spec, is_ok}
use samsung.Policy.Baseline.{get_baseline}
use samsung.Policy.Status.{
  Previous, prev_decision, to_previous, carry_cooldown_until, carry_backend_weights,
}
use samsung.Policy.Status.Cooldown.{cooldown_until_end}
use samsung.Policy.Recovery.{Marker, degraded, start_recovery, is_reroute, recovery_of}
use samsung.Policy.Recovery.Rounds.{recovery_by_weights}
use samsung.Policy.Engine.{assess, suppressed, cooldown_seconds_of, now_of}
use samsung.Policy.Engine.Stages.{evaluate_observed_lem, decide_held_back}
use samsung.Policy.Engine.Cycles.{Cycle, decision, action_of, weights_of, end_of, after, Linked}

module _ {F : Type 0} ⦃fl : Float F⦄ (spec : Spec F) where
  -- A reconcile that observed the target before the end of the cooldown.
  pub record IsEarly (end : F) (c : Cycle F) : Type 0 where
    pub observed : is_ok c.snapshot.status ≡ true
    pub early : fl.lt (now_of c.snapshot c.wall) end ≡ true

  -- What a row of such reconciles decides: each is a noop that hands on the weights and the end, and
  -- leaves the next one the recovery `r`.
  abbrev pub Waits : Option Weights → F → Option Marker → List (Cycle F) → Type 0
  Waits weights end r [] = Unit
  Waits weights end r (c ∷ cs) =
      (action_of spec (decision spec c) ≡ some noop)
      × (weights_of spec (decision spec c) ≡ weights)
      × (end_of spec (decision spec c) ≡ some end)
      × ((p : Previous F) → recovery_of (after spec p (decision spec c)) ≡ r)
      × Waits weights end r cs

  held_back_decision :
      (c : Cycle F) (p : Previous F) (end : F)
      → pos 0 <ℤ cooldown_seconds_of spec
      → p.cooldown_until ≡ some end
      → prev_decision c.status ≡ p
      → IsEarly end c
      → decision spec c
        ≡ some (
            suppressed spec c.status
              (assess spec c.snapshot (get_baseline spec c.store).0)
              (fl.sub end (now_of c.snapshot c.wall)))
  held_back_decision c p end cd e same h =
      evaluate_observed_lem spec c.snapshot c.status c.wall c.store h.observed
      ∙ decide_held_back spec c.snapshot c.status
          (assess spec c.snapshot (get_baseline spec c.store).0) (now_of c.snapshot c.wall)
          (fl.sub end (now_of c.snapshot c.wall))
          (cooldown_until_end c.status (cooldown_seconds_of spec) (now_of c.snapshot c.wall) end cd
            (rw same e) h.early)

  waiting :
      (p : Previous F) (end : F) (r : Option Marker) (cs : List (Cycle F))
      → pos 0 <ℤ cooldown_seconds_of spec
      → p.cooldown_until ≡ some end
      → start_recovery (degraded (or_else p.backend_weights [])) ≡ r
      → Linked spec p cs
      → All (IsEarly end) cs
      → Waits p.backend_weights end r cs
  unfolding suppressed carry_cooldown_until carry_backend_weights is_reroute
  waiting p end r [] cd e h l q = tt
  waiting p end r (c ∷ cs) cd e h (same, l) (early, qs) =
      let d = held_back_decision c p end cd e same early in
      let a = assess spec c.snapshot (get_baseline spec c.store).0 in
      let remaining = fl.sub end (now_of c.snapshot c.wall) in
      let next = to_previous (suppressed spec c.status a remaining) in
      let weights : next.backend_weights ≡ p.backend_weights = ap (λ x. x.backend_weights) same in
      let ends : next.cooldown_until ≡ some end = ap (λ x. x.cooldown_until) same ∙ e in
      let starts : start_recovery (degraded (or_else next.backend_weights [])) ≡ r =
        ap (λ x. start_recovery (degraded (or_else x []))) weights ∙ h in
      let recovers : recovery_of next ≡ r = recovery_by_weights next noop refl refl ∙ starts in
      (
        rw d refl,
        rw d weights,
        rw d ends,
        λ p'. rw d recovers,
        subst (λ x. Waits x end r cs) weights
            (waiting next end r cs cd ends starts (subst (λ x. Linked spec (after spec p x) cs) d l)
              qs),
      )

  -- Take an isolation with the end of a cooldown, and any reconciles after it, each of which finds
  -- the decision before it in the status and observes the target before that end. Then each of
  -- them is a noop that carries the end and the weights on, and the recovery that it leaves for the
  -- next one is that of the isolation.
  pub evaluate-Waits :
      (p : Previous F) (end : F) (cs : List (Cycle F))
      → p.action ≡ some isolate_backend
      → p.cooldown_until ≡ some end
      → pos 0 <ℤ cooldown_seconds_of spec
      → Linked spec p cs
      → All (IsEarly end) cs
      → Waits p.backend_weights end (recovery_of p) cs
  unfolding is_reroute
  evaluate-Waits p end cs i e cd l q =
      waiting p end (recovery_of p) cs cd e (sym (recovery_by_weights p isolate_backend i refl)) l q
