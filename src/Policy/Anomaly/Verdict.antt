-- ===== src/Policy/Anomaly/Verdict.antt =====
-- What the verdict of policy/anomaly.py rests on.
use samsung.Prelude.{
  ◌≡◌, refl, Bool, true, false, not, ◌&&◌, ◌||◌, Option, none, some, List, [], Text, codes, lacks,
  Float, arith,
}
use samsung.Schemas.{TrafficSnapshot}
use samsung.Policy.Baseline.{Stat, Baseline, warm}
use samsung.Policy.Anomaly.{
  Signal, signal, error_signal, latency_signal, message_if, assemble, assess_anomaly, any_anomaly,
  summary, find_culprit_backends,
}

all_false :
    (a b c d : Bool)
    → ((a || b) || (c || d)) ≡ false
    → (a ≡ false) × (b ≡ false) × (c ≡ false) × (d ≡ false)
all_false a b c d h = (ground arith, ground arith, ground arith, ground arith)

module _ {F : Type 0} ⦃fl : Float F⦄ where
  signal_quiet :
      (is_warm : Bool) (s : Stat F) (x limit : Option F) (f : F → F → Text) (g : F → Text)
      → (signal is_warm s x limit f g).static_breach ≡ false
      → (signal is_warm s x limit f g).ewma_breach ≡ false
      → (signal is_warm s x limit f g).messages ≡ []
  unfolding signal
  signal_quiet is_warm s (some x) (some limit) f g h k = rw (h, k) refl
  signal_quiet is_warm s (some x) none f g h k = refl
  signal_quiet is_warm s none limit f g h k = refl

  assemble_quiet :
      (is_warm : Bool) (e l : Signal F) (culprits : List Text)
      → any_anomaly (assemble is_warm e l culprits) ≡ false
      → (e.static_breach ≡ false → e.ewma_breach ≡ false → e.messages ≡ [])
      → (l.static_breach ≡ false → l.ewma_breach ≡ false → l.messages ≡ [])
      → (assemble is_warm e l culprits).reasons ≡ []
  unfolding assemble
  assemble_quiet is_warm e l culprits h he hl =
      let (a, b, c, d) = all_false e.static_breach e.ewma_breach l.static_breach l.ewma_breach h in
      let empty = he a b in let empty' = hl c d in rw (empty, empty', a, b, c, d) (when_off is_warm)
    where
      when_off :
          (w : Bool)
          → message_if
              (not w && false)
              (codes "(baseline warmup 미완료 -> 정적 임계값 기준, 최대 severity=warning)")
            ≡ []
      when_off true = refl
      when_off false = refl

  -- an assessment with no anomaly has no reasons
  pub assess_anomaly_quiet :
      (s : TrafficSnapshot F) (b : Baseline F) (rate limit : Option F)
      → any_anomaly (assess_anomaly s b rate limit) ≡ false
      → (assess_anomaly s b rate limit).reasons ≡ []
  unfolding assess_anomaly
  assess_anomaly_quiet s b rate limit h =
      assemble_quiet (warm b) (error_signal s b rate) (latency_signal s b limit)
        (find_culprit_backends s.per_backend rate) h
        (unfold error_signal in signal_quiet (warm b) b.error_rate s.error_rate rate _ _)
        (unfold latency_signal in signal_quiet (warm b) b.p99_latency_ms s.p99_latency_ms limit _ _)

-- The summary of no reasons has no bracket.
pub summary_quiet : (rs : List Text) → rs ≡ [] → lacks b'[' (summary rs) ≡ true
unfolding summary lacks
summary_quiet rs e = rw e refl
