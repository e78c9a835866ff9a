-- ===== src/Policy/Engine/Stages.antt =====
-- One equation for each way through `evaluate` (policy/engine.py), for the proofs about it.
use samsung.Prelude.{◌≡◌, refl, true, false, Option, none, some, Float, arith}
use samsung.Schemas.{TrafficSnapshot, Spec, is_ok}
use samsung.Policy.Baseline.{Store, get_baseline}
use samsung.Policy.Anomaly.{AnomalyAssessment, any_anomaly}
use samsung.Policy.Status.{Status, cooldown_remaining}
use samsung.Policy.Recovery.{Marker, recovery_state}
use samsung.Policy.Engine.{
  evaluate, evaluate_observed, assess, decide, decide_after, suppressed, prioritise, respond,
  recover, cooldown_seconds_of, now_of, scale_by_load,
}

module _ {F : Type 0} ⦃fl : Float F⦄ (spec : Spec F) (snapshot : TrafficSnapshot F) where
  module _ (status : Status F) where
    pub evaluate_observed_lem :
        (wall : F) (store : Store F)
        → is_ok snapshot.status ≡ true
        → (evaluate spec snapshot status wall store).0
          ≡ decide spec snapshot status
              (assess spec snapshot (get_baseline spec store).0)
              (now_of snapshot wall)
    unfolding evaluate evaluate_observed
    evaluate_observed_lem wall store h = rw h refl

    pub decide_idle :
        (a : AnomalyAssessment F) (now : F)
        → cooldown_remaining status (cooldown_seconds_of spec) now ≡ none
        → decide spec snapshot status a now ≡ prioritise spec snapshot a now (recovery_state status)
    unfolding decide decide_after
    decide_idle a now h = rw h refl

    pub decide_held_back :
        (a : AnomalyAssessment F) (now remaining : F)
        → cooldown_remaining status (cooldown_seconds_of spec) now ≡ some remaining
        → decide spec snapshot status a now ≡ some (suppressed spec status a remaining)
    unfolding decide decide_after
    decide_held_back a now remaining h = rw h refl

  pub prioritise_quiet :
      (a : AnomalyAssessment F) (now : F) (r : Option Marker)
      → any_anomaly a ≡ false
      → prioritise spec snapshot a now r ≡ respond spec snapshot a now r
  unfolding prioritise
  prioritise_quiet a now r h = ground arith

  pub respond_recovering :
      (a : AnomalyAssessment F) (now : F) (m : Marker)
      → any_anomaly a ≡ false
      → respond spec snapshot a now (some m) ≡ some (recover a m)
  unfolding respond
  respond_recovering a now m h = rw h refl

  pub respond_settled :
      (a : AnomalyAssessment F) (now : F)
      → any_anomaly a ≡ false
      → respond spec snapshot a now none ≡ scale_by_load spec snapshot a now
  unfolding respond
  respond_settled a now h = rw h refl
