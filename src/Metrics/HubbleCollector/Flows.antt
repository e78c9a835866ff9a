-- ===== src/Metrics/HubbleCollector/Flows.antt =====
-- What a snapshot of the Hubble collector holds (metrics/hubble_collector.py, `collect`).
use samsung.Prelude.{
  ℕ, ◌≤◌, pos, ℤ, true, Option, none, some, List, [], ◌∷◌, Text, ◌≡◌, refl, inl, inr, Float, length,
  arith,
}
use samsung.Schemas.{TrafficSnapshot, Target, no_data, collection_failed}
use samsung.Actuator.Environment.{present}
use samsung.Metrics.Calls.{Holds}
use samsung.Metrics.Collector.Honest.{IsHonest, empty_snapshot-IsEmpty}
use samsung.Hubble.{FlowEvent}
use samsung.Hubble.Lines.{Decoder}
use samsung.Hubble.Fetch.{Command, Fetched, events, unavailable, crashed, fetch_flows}
use samsung.Metrics.HubbleCollector.{
  Apps, non_forwarded, windowed, flow_snapshot, snapshot_of_flows, after_fetch, hubble_collect,
  hubble_ready_pods, namespace_args, empty_snapshot, ratio,
}

-- at most all of the flows are not forwarded
non_forwarded≤length : {F : Type 0} (es : List (FlowEvent F)) → non_forwarded es ≤ length es
unfolding non_forwarded
non_forwarded≤length [] = ground arith
non_forwarded≤length (e ∷ es) = ground (arith, non_forwarded≤length es)

-- A part of a whole, divided by the whole, is at least 0 and at most 1.
module _ (F : Type 0) ⦃fl : Float F⦄ where
  pub record DividesParts : Type 0 where
    pub at_least_zero :
        (a b : ℕ)
        → a ≤ b
        → 1 ≤ b
        → fl.le (fl.of_int (pos 0)) (fl.div (fl.of_int (pos a)) (fl.of_int (pos b))) ≡ true
    pub at_most_one :
        (a b : ℕ)
        → a ≤ b
        → 1 ≤ b
        → fl.le (fl.div (fl.of_int (pos a)) (fl.of_int (pos b))) (fl.decimal 10 1) ≡ true

module _ {F W : Type 0} ⦃fl : Float F⦄ (d : Decoder F) (h : Command W) (apps : Apps W)
    (last : ℤ) where
  module _ (P : TrafficSnapshot F → Type 0) (seconds : ℤ) (now : F)
      (failed : P (empty_snapshot collection_failed now seconds))
      (no_flows : P (empty_snapshot no_data now seconds))
      (flows : (e : FlowEvent F) (es : List (FlowEvent F)) (ready : Option ℤ)
        → P (flow_snapshot (e ∷ es) ready now seconds)) where
    -- what a failed snapshot, an empty one and one of some flows have, every snapshot has
    pub hubble_cases :
        (target : Target) (w : W) → Holds P (hubble_collect d h apps last target seconds now w).0
    unfolding hubble_collect after_fetch snapshot_of_flows
    hubble_cases target w = by_deployment (present target.deployment)
      where
        by_flows :
            (deployment : Text) (es : List (FlowEvent F)) (w : W)
            → Holds P (snapshot_of_flows d h apps last target deployment seconds now es w).0
        by_flows deployment [] w' = no_flows
        by_flows deployment (e ∷ es) w' =
            flows e es (hubble_ready_pods d h apps last target.namespace (some deployment) w').0

        by_fetch :
            (deployment : Text) (r : Fetched F) (w : W)
            → Holds P (after_fetch d h apps last target deployment seconds now r w).0
        by_fetch deployment unavailable w' = failed
        by_fetch deployment crashed w' = tt
        by_fetch deployment (events es) w' =
            by_flows deployment (windowed (fl.sub now (fl.of_int seconds)) deployment es) w'

        by_deployment :
            (o : Option Text)
            → Holds P
                (elim o as (λ o. Option (TrafficSnapshot F) × W) [
                  | none ↦ (some (empty_snapshot collection_failed now seconds), w)
                  | some deployment ↦
                      after_fetch d h apps last target deployment seconds now
                        (fetch_flows d h last (namespace_args (present target.namespace)) w).0
                        (fetch_flows d h last (namespace_args (present target.namespace)) w).1
                ]).0
        by_deployment none = failed
        by_deployment (some deployment) =
            by_fetch deployment
              (fetch_flows d h last (namespace_args (present target.namespace)) w).0
              (fetch_flows d h last (namespace_args (present target.namespace)) w).1

  -- Where the division of a part by its whole stays from 0 to 1, a snapshot of the flows of Hubble is
  -- either not "ok" and without any metric, or "ok" with its rates and with a ratio of errors from
  -- 0 to 1.
  pub hubble_collect-IsHonest :
      DividesParts F
      → (target : Target) (seconds : ℤ) (now : F) (w : W)
      → Holds IsHonest (hubble_collect d h apps last target seconds now w).0
  unfolding empty_snapshot flow_snapshot ratio
  hubble_collect-IsHonest laws target seconds now w =
      hubble_cases IsHonest seconds now
        (inl (empty_snapshot-IsEmpty collection_failed now seconds (λ e. ground arith)))
        (inl (empty_snapshot-IsEmpty no_data now seconds (λ e. ground arith)))
        (λ e es ready. inr (record {
          status_ok = refl;
          rps_given = (_, refl);
          error_ratio = (
            _,
            refl,
            (
              laws.at_least_zero (non_forwarded (e ∷ es)) (length (e ∷ es))
                  (non_forwarded≤length (e ∷ es)) (ground arith),
              laws.at_most_one (non_forwarded (e ∷ es)) (length (e ∷ es))
                  (non_forwarded≤length (e ∷ es)) (ground arith),
            ),
          );
          backend_ratios = tt;
        }))
        target w

  -- no snapshot of Hubble names a backend
  pub hubble_collect_no_backends :
      (target : Target) (seconds : ℤ) (now : F) (w : W)
      → Holds (λ s. s.per_backend ≡ []) (hubble_collect d h apps last target seconds now w).0
  unfolding empty_snapshot flow_snapshot
  hubble_collect_no_backends target seconds now w =
      hubble_cases (λ s. s.per_backend ≡ []) seconds now refl refl (λ e es ready. refl) target w
