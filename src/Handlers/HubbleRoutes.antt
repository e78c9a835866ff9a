-- ===== src/Handlers/HubbleRoutes.antt =====
-- The policy on the snapshots of Hubble (metrics/hubble_collector.py with policy/engine.py).
use samsung.Prelude.{
  ◌≡◌, ◌∙◌, Bool, false, ◌&&◌, Option, none, some, [], ℤ, Float, or_else, nonempty, arith,
}
use samsung.Schemas.{TrafficSnapshot, Target, Spec, is_ok}
use samsung.Policy.Baseline.{Store, get_baseline}
use samsung.Policy.Anomaly.{AnomalyAssessment, error_anomaly}
use samsung.Policy.Anomaly.Findings.{assess_anomaly_no_backends}
use samsung.Policy.Status.{Status, thresholds_of, actions_of}
use samsung.Policy.Engine.{evaluate, assess}
use samsung.Policy.Engine.Routing.{isolates, action, is_free, found, evaluate_routes}
use samsung.Metrics.Calls.{Holds}
use samsung.Metrics.HubbleCollector.{Apps, hubble_collect}
use samsung.Metrics.HubbleCollector.Flows.{hubble_collect_no_backends}
use samsung.Hubble.Lines.{Decoder}
use samsung.Hubble.Fetch.{Command}

module _ {F : Type 0} ⦃fl : Float F⦄ (spec : Spec F) where
  -- without backends nothing is isolated
  evaluate_no_backends :
      (snapshot : TrafficSnapshot F) (status : Status F) (wall : F) (store : Store F)
      → snapshot.per_backend ≡ []
      → isolates (action (evaluate spec snapshot status wall store).0) ≡ false
  unfolding assess
  evaluate_no_backends snapshot status wall store h =
      (evaluate_routes spec snapshot status wall store).0
      ∙ no_isolation (is_ok snapshot.status) (is_free spec snapshot status wall store)
          (found spec snapshot status wall store)
          (assess_anomaly_no_backends snapshot (get_baseline spec store).0
            (thresholds_of spec).scale_up_error_rate (thresholds_of spec).max_p99_latency_ms h)
    where
      no_isolation :
          (b c : Bool) (a : AnomalyAssessment F)
          → a.culprit_backends ≡ []
          → (b
              && (c
                  && ((error_anomaly a && nonempty a.culprit_backends)
                      && or_else (actions_of spec).allow_route_isolation false)))
            ≡ false
      no_isolation b c a e = rw e (ground arith)

  module _ {W : Type 0} (d : Decoder F) (h : Command W) (apps : Apps W) (last : ℤ) where
    -- On a snapshot of the Hubble collector the policy never isolates a backend, whatever its
    -- status and baselines.
    pub hubble_never_isolates :
        (target : Target) (seconds : ℤ) (now : F) (w : W) (status : Status F) (wall : F)
        (store : Store F)
        → Holds
            (λ snapshot. isolates (action (evaluate spec snapshot status wall store).0) ≡ false)
            (hubble_collect d h apps last target seconds now w).0
    hubble_never_isolates target seconds now w status wall store =
        on_result (hubble_collect d h apps last target seconds now w).0
          (hubble_collect_no_backends d h apps last target seconds now w)
      where
        on_result :
            (o : Option (TrafficSnapshot F))
            → Holds (λ s. s.per_backend ≡ []) o
            → Holds
                (λ snapshot. isolates (action (evaluate spec snapshot status wall store).0) ≡ false)
                o
        on_result none e = tt
        on_result (some snapshot) e = evaluate_no_backends snapshot status wall store e
