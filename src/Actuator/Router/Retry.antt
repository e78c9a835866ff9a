-- ===== src/Actuator/Router/Retry.antt =====
-- The retry of the router, and what an applied outcome shows (actuator/router.py,
-- `set_backend_weights`).
use samsung.Prelude.{
  ℕ, pos, ◌≡◌, ◌≢◌, refl, sym, subst, ◌∙◌, ap, ◌⊎◌, inl, inr, Bool, true, nonempty, List, Text,
  arith,
}
use samsung.Schemas.{Weights}
use samsung.Actuator.Cluster.{
  answer, api_exception, Cluster, Attempt, returned, ActionOutcome, applied,
}
use samsung.Actuator.Weights.{Targets, normalize_targets}
use samsung.Actuator.Router.{
  Round, again, stop, after_round, one_round, rounds, set_backend_weights,
}
use samsung.Actuator.Router.Rounds.{Wrote, one_round_again, one_round_conflict, one_round_applied}

module _ {W X : Type 0} (c : Cluster W X) (namespace name : Text) where
  module _ (targets : Targets) (rejected : List Text) (dry_run : Bool) where
    abbrev round_of : ℕ → W → Round × W
    round_of attempt w = one_round c namespace name attempt targets rejected dry_run w

    -- What the loop did: it ended in the first round, which met no conflict, or a conflict of the first
    -- round sent it into a second one, from a new read, that ended it.
    abbrev pub LoopEnded : W → Attempt ActionOutcome × W → Type 0
    LoopEnded w (result, w') =
        (((round_of 0 w) ≡ (stop result, w'))
          × ((w1 : W) (reason : Text)
              → ¬ Wrote c namespace name targets dry_run w w1 (api_exception (pos 409) reason)))
        ⊎ ((reason : Text) × Wrote c namespace name targets dry_run w (round_of 0 w).1
              (api_exception (pos 409) reason)
            × ((round_of 1 (round_of 0 w).1) ≡ (stop result, w')))

    again_ne_stop : {result : Attempt ActionOutcome} → again ≢ stop result
    again_ne_stop e = cc

    rounds-LoopEnded :
        (w : W) → LoopEnded w (rounds c namespace name 2 0 targets rejected dry_run w)
    unfolding rounds after_round
    rounds-LoopEnded w = by_first (round_of 0 w).0 refl
      where
        by_second :
            (r : Round) (w1 : W)
            → (round_of 1 w1).0 ≡ r
            → round_of 1 w1 ≡ (
              stop
                  (after_round
                    (rounds c namespace name 0 2 targets rejected dry_run)
                    r
                    (round_of 1 w1).1).0,
              (after_round
                  (rounds c namespace name 0 2 targets rejected dry_run)
                  r
                  (round_of 1 w1).1).1,
            )
        by_second again w1 e =
            absurd
              (omega (arith, (one_round_again c namespace name 1 targets rejected dry_run w1 e).0))
        by_second (stop result) w1 e = ap {B = Round × W} (λ r. (r, (round_of 1 w1).1)) e

        by_first :
            (r : Round)
            → (round_of 0 w).0 ≡ r
            → LoopEnded w (
                after_round
                  (rounds c namespace name 1 1 targets rejected dry_run)
                  r
                  (round_of 0 w).1)
        by_first again e =
            let (first, reason, wrote) =
              one_round_again c namespace name 0 targets rejected dry_run w e in
            inr (reason, wrote, by_second (round_of 1 (round_of 0 w).1).0 (round_of 0 w).1 refl)
        by_first (stop result) e = inl (
          ap {B = Round × W} (λ r. (r, (round_of 0 w).1)) e,
          λ w1 reason wrote. again_ne_stop (
              sym (
                one_round_conflict c namespace name 0 targets rejected dry_run w w1 reason refl
                  wrote)
              ∙ e),
        )

  -- With at least one acceptable weight the call runs one round, or, exactly when the server answered
  -- 409 to the route that the first round wrote back, a second one from a new read; the last
  -- round gives the result, so the statement behind the loop is never reached.
  pub set_backend_weights-LoopEnded :
      (weights : Weights) (dry_run : Bool) (w : W)
      → nonempty (normalize_targets weights).0 ≡ true
      → LoopEnded
          (normalize_targets weights).0
          (normalize_targets weights).1
          dry_run
          w
          (set_backend_weights c namespace name weights dry_run w)
  unfolding set_backend_weights
  set_backend_weights-LoopEnded weights dry_run w h =
      rw h (rounds-LoopEnded (normalize_targets weights).0 (normalize_targets weights).1 dry_run w)

  ended_applied :
      (targets : Targets) (rejected : List Text) (dry_run : Bool) (w : W)
      (r : Attempt ActionOutcome × W) (a : ActionOutcome)
      → LoopEnded targets rejected dry_run w r
      → r.0 ≡ returned a
      → a.status ≡ applied
      → (w0 : W) × Wrote c namespace name targets dry_run w0 r.1 (answer tt)
  ended_applied targets rejected dry_run w r a (inl (e, no_conflict)) h s = (
    w,
    subst (λ x. Wrote c namespace name targets dry_run w x (answer tt)) (ap (λ x. x.1) e)
        (one_round_applied c namespace name 0 targets rejected dry_run w a
          (ap (λ x. x.0) e ∙ ap stop h) s),
  )
  ended_applied targets rejected dry_run w r a (inr (reason, wrote, e)) h s =
      let w1 = (round_of targets rejected dry_run 0 w).1 in
      (
        w1,
        subst (λ x. Wrote c namespace name targets dry_run w1 x (answer tt)) (ap (λ x. x.1) e)
            (one_round_applied c namespace name 1 targets rejected dry_run w1 a
              (ap (λ x. x.0) e ∙ ap stop h) s),
      )

  -- An applied outcome, with at least one acceptable weight: outside a dry run, a route was read, the
  -- pass changed it, and the server took the changed route, which leaves the final world.
  pub set_backend_weights_applied :
      (weights : Weights) (dry_run : Bool) (w : W) (a : ActionOutcome)
      → nonempty (normalize_targets weights).0 ≡ true
      → (set_backend_weights c namespace name weights dry_run w).0 ≡ returned a
      → a.status ≡ applied
      → (w0 : W) × Wrote c namespace name
          (normalize_targets weights).0
          dry_run
          w0
          (set_backend_weights c namespace name weights dry_run w).1
          (answer tt)
  set_backend_weights_applied weights dry_run w a n h s =
      ended_applied (normalize_targets weights).0 (normalize_targets weights).1 dry_run w
        (set_backend_weights c namespace name weights dry_run w) a
        (set_backend_weights-LoopEnded weights dry_run w n) h s
