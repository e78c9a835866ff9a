-- ===== src/Policy/Engine/Recovering.antt =====
-- A recovery from its first reroute to its last (policy/engine.py, stage 3 of `evaluate`).
use samsung.Prelude.{
  ℕ, zero, suc, ◌+◌, ◌-◌, ◌<◌, ◌≡◌, ◌≢◌, refl, ap, subst, ◌∙◌, true, leb, Option, none, some, List,
  [], ◌∷◌, Text, nonempty, or_else, All, Float, if◌then◌else◌, arith,
}
use samsung.Schemas.{reroute, Spec}
use samsung.Policy.Baseline.{get_baseline}
use samsung.Policy.Anomaly.{AnomalyAssessment, summary}
use samsung.Policy.Anomaly.Verdict.{assess_anomaly_quiet, summary_quiet}
use samsung.Policy.Status.{Previous, is_effect, to_previous}
use samsung.Policy.Recovery.{Marker, recovery_of, degraded, start_recovery}
use samsung.Policy.Recovery.RoundTrip.{IsName}
use samsung.Policy.Recovery.Rounds.{recovery_of_reroute}
use samsung.Policy.Messages.{reroute_reason}
use samsung.Policy.Messages.Reroute.{parse-reroute_reason}
use samsung.Policy.Weights.{healthy_weights}
use samsung.Policy.Engine.{assess, respond, recover, now_of}
use samsung.Policy.Engine.Stages.{respond_recovering}
use samsung.Policy.Engine.Cycles.{Cycle, decision, action_of, weights_of, after, Linked}
use samsung.Policy.Engine.Quiet.{
  assessment, IsQuiet, StartsFree, idle-StartsFree, quiet_decision, Settled, quiet-Settled,
  degraded-healthy,
}

module _ {F : Type 0} ⦃fl : Float F⦄ (spec : Spec F) where
  -- What a row of quiet reconciles decides, with so many rounds left: reroutes to the healthy weight
  -- for all the backends in each of them, and then no reroute in any that follows.
  abbrev pub Recovers : ℕ → List Text → List (Cycle F) → Type 0
  Recovers zero names [] = Unit
  Recovers (suc n) names [] = Unit
  Recovers zero names (c ∷ cs) =
      (action_of spec (decision spec c) ≢ some reroute) × Recovers zero names cs
  Recovers (suc n) names (c ∷ cs) =
      (action_of spec (decision spec c) ≡ some reroute)
      × (weights_of spec (decision spec c) ≡ some (healthy_weights names []))
      × Recovers n names cs

  -- the marker that is left after a round
  abbrev left : ℕ → Marker → Option Marker
  left zero m = none
  left (suc n) m = some m

  abbrev next_of : Marker → Marker
  next_of m = record m { done = m.done + 1 }

  left_lem :
      (n : ℕ) (m : Marker)
      → m.total ≡ m.done + n
      → (if leb m.total m.done then none else some m) ≡ left n m
  left_lem zero m h = ground arith
  left_lem (suc n) m h = ground arith

  -- the decision of a quiet round hands the next marker on, or none after the last round
  recovered :
      (n : ℕ) (m : Marker) (a : AnomalyAssessment F)
      → m.total ≡ m.done + suc n
      → nonempty m.backends ≡ true
      → All IsName m.backends
      → a.reasons ≡ []
      → recovery_of (to_previous (recover a m)) ≡ left n (next_of m)
  unfolding recover
  recovered n m a t h hs e =
      recovery_of_reroute (to_previous (recover a m))
        (reroute_reason (next_of m) (summary a.reasons)) (next_of m) refl refl
        (parse-reroute_reason (next_of m) (summary a.reasons) h hs (summary_quiet a.reasons e))
      ∙ left_lem n (next_of m) (ground arith)

  settled :
      (names : List Text) (p : Previous F) (cs : List (Cycle F))
      → Settled spec p
      → Linked spec p cs
      → All (IsQuiet spec) cs
      → Recovers zero names cs
  settled names p [] h l q = tt
  settled names p (c ∷ cs) h (e, l) (q, qs) =
      let (stays, h') = quiet-Settled spec c p q e h in
      (stays, settled names (after spec p (decision spec c)) cs h' l qs)

  recovering :
      (n : ℕ) (m : Marker) (p : Previous F) (cs : List (Cycle F))
      → m.total ≡ m.done + n
      → nonempty m.backends ≡ true
      → All IsName m.backends
      → recovery_of p ≡ left n m
      → (n ≡ 0 → start_recovery (degraded (or_else p.backend_weights [])) ≡ none)
      → StartsFree spec cs
      → Linked spec p cs
      → All (IsQuiet spec) cs
      → Recovers n m.backends cs
  unfolding assess degraded
  recovering zero m p [] t h hs r no_weights i l q = tt
  recovering (suc n) m p [] t h hs r no_weights i l q = tt
  recovering zero m p (c ∷ cs) t h hs r no_weights i l q =
      settled m.backends p (c ∷ cs) (record { no_recovery = r; no_weights = no_weights refl }) l q
  recovering (suc n) m p (c ∷ cs) t h hs r no_weights i (e, l) (q, qs) =
      let d =
        quiet_decision spec c p q e i
        ∙ ap (respond spec c.snapshot (assessment spec c) (now_of c.snapshot c.wall)) r
        ∙ respond_recovering spec c.snapshot (assessment spec c) (now_of c.snapshot c.wall) m
            q.no_anomaly in
      let l' = subst (λ x. Linked spec (after spec p x) cs) d l in
      (
        rw d (unfold recover in refl),
        rw d (unfold recover in refl),
        recovering n (next_of m) (to_previous (recover (assessment spec c) m)) cs (ground arith) h
            hs
            (recovered n m (assessment spec c) t h hs (
              assess_anomaly_quiet c.snapshot (get_baseline spec c.store).0 _ _
                (unfold assess in q.no_anomaly)))
            (λ last.
              unfold recover start_recovery in
              ap start_recovery (degraded-healthy m.backends [] refl))
            (idle-StartsFree spec (to_previous (recover (assessment spec c) m)) cs
              (record {
                no_end = unfold recover in refl;
                no_effect = unfold recover is_effect in refl;
              })
              l')
            l' qs,
      )

  -- Take a decision with an unfinished recovery of backends whose names a marker can hold, and any
  -- reconciles after it, each of which finds the decision before it in the status, observes the
  -- target and finds no anomaly, the first of them free of cooldown. Then each of the rounds that
  -- are left is a reroute to the healthy weight for exactly these backends, and none of the
  -- reconciles after the last of them is a reroute.
  pub evaluate-Recovers :
      (m : Marker) (p : Previous F) (cs : List (Cycle F))
      → m.done < m.total
      → nonempty m.backends ≡ true
      → All IsName m.backends
      → recovery_of p ≡ some m
      → StartsFree spec cs
      → Linked spec p cs
      → All (IsQuiet spec) cs
      → Recovers (m.total - m.done) m.backends cs
  evaluate-Recovers m p cs lt h hs r f l q =
      recovering (m.total - m.done) m p cs (omega arith) h hs
        (r ∙ pending (m.total - m.done) (omega arith)) (λ over. absurd (omega arith)) f l q
    where
      pending : (n : ℕ) → 0 < n → some m ≡ left n m
      pending zero h = absurd (omega arith)
      pending (suc n) h = refl
