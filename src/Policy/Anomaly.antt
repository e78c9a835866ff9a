-- ===== src/Policy/Anomaly.antt =====
-- policy/anomaly.py: static thresholds first, deviation from the EWMA baseline second.
pub mod Verdict
pub mod Findings
pub mod Runs
use samsung.Prelude.{
  Bool, false, not, ◌&&◌, ◌||◌, Option, none, some, List, [], ◌∷◌, ◌++◌, Text, codes, join, Float,
  nonempty, if◌then◌else◌,
}
use samsung.Schemas.{BackendTraffic, TrafficSnapshot, Severity, calm, warning, critical}
use samsung.Policy.Baseline.{Stat, Baseline, warm, is_upper_breach, upper_zscore}

pub record AnomalyAssessment (F : Type 0) : Type 0 where
  pub severity : Severity
  pub score : Option F
  pub error_static : Bool
  pub error_ewma : Bool
  pub latency_static : Bool
  pub latency_ewma : Bool
  pub culprit_backends : List Text
  pub reasons : List Text

module _ {F : Type 0} where
  abbrev pub error_anomaly : AnomalyAssessment F → Bool
  error_anomaly a = a.error_static || a.error_ewma

  abbrev pub latency_anomaly : AnomalyAssessment F → Bool
  latency_anomaly a = a.latency_static || a.latency_ewma

  abbrev pub any_anomaly : AnomalyAssessment F → Bool
  any_anomaly a = error_anomaly a || latency_anomaly a

-- the property `reason`
pub summary : List Text → Text
summary rs = if nonempty rs then join (codes "; ") rs else codes "이상 없음"

-- the severity from the two signals of each metric
severity_of : Bool → Bool → Bool → Bool → Bool → Severity
severity_of is_warm es ee ls le =
    if is_warm && ((es && ee) || (ls && le))
    then critical
    else if (es || ee) || (ls || le)
    then warning
    else calm

-- What the block of one metric finds: its static flag, its baseline flag, its reasons, and the
-- score that it adds.
pub record Signal (F : Type 0) : Type 0 where
  pub static_breach : Bool
  pub ewma_breach : Bool
  pub messages : List Text
  pub scores : List F

message_if : Bool → Text → List Text
message_if found text = if found then text ∷ [] else []

module _ {F : Type 0} ⦃fl : Float F⦄ where
  open fl use {lt, fixed}

  -- the names above the rate, and those not above it; a backend with no rate is in neither
  split_backends : F → List (BackendTraffic F) → List Text × List Text
  split_backends rate [] = ([], [])
  split_backends rate (b ∷ bs) =
      let (breaching, healthy) = split_backends rate bs in
      elim b.error_rate [
        | none ↦ (breaching, healthy)
        | some e ↦
            if lt rate e then (b.name ∷ breaching, healthy) else (breaching, b.name ∷ healthy)
      ]

  pub find_culprit_backends : List (BackendTraffic F) → Option F → List Text
  unfolding split_backends
  find_culprit_backends bs none = []
  find_culprit_backends bs (some rate) =
      let (breaching, healthy) = split_backends rate bs in
      if nonempty breaching && nonempty healthy then breaching else []

  -- the block of one metric; `static_text` and `ewma_text` are its two messages
  signal : Bool → Stat F → Option F → Option F → (F → F → Text) → (F → Text) → Signal F
  unfolding message_if
  signal is_warm s (some x) (some limit) static_text ewma_text = record {
    static_breach = lt limit x;
    ewma_breach = is_warm && is_upper_breach x s;
    messages =
        message_if (lt limit x) (static_text x limit)
        ++ message_if (is_warm && is_upper_breach x s) (ewma_text x);
    scores = if is_warm then upper_zscore x s ∷ [] else [];
  }
  signal is_warm s _ _ static_text ewma_text = record {
    static_breach = false;
    ewma_breach = false;
    messages = [];
    scores = [];
  }

  error_static_text : F → F → Text
  error_static_text x limit =
      codes "error_rate=" ++ (fixed 4 x ++ (codes " > scaleUpErrorRate=" ++ fixed 4 limit))

  error_ewma_text : Stat F → F → Text
  error_ewma_text s x =
      codes "error_rate baseline 이탈(z="
      ++ (fixed 2 (upper_zscore x s) ++ (codes ", 평소~" ++ (fixed 4 s.mean ++ codes ")")))

  latency_static_text : F → F → Text
  latency_static_text x limit =
      codes "p99="
      ++ (fixed 0 x ++ (codes "ms > maxP99LatencyMs=" ++ (fixed 0 limit ++ codes "ms")))

  latency_ewma_text : Stat F → F → Text
  latency_ewma_text s x =
      codes "p99 baseline 이탈(z="
      ++ (fixed 2 (upper_zscore x s) ++ (codes ", 평소~" ++ (fixed 0 s.mean ++ codes "ms)")))

  max_from : F → List F → F
  max_from m [] = m
  max_from m (x ∷ xs) = max_from (if lt m x then x else m) xs

  -- `max(scores) if scores else None`
  max_score : List F → Option F
  unfolding max_from
  max_score [] = none
  max_score (x ∷ xs) = some (max_from x xs)

  assemble : Bool → Signal F → Signal F → List Text → AnomalyAssessment F
  unfolding severity_of max_score message_if
  assemble is_warm e l culprits =
      let any = (e.static_breach || e.ewma_breach) || (l.static_breach || l.ewma_breach) in
      record {
        severity = severity_of is_warm e.static_breach e.ewma_breach l.static_breach l.ewma_breach;
        score = max_score (e.scores ++ l.scores);
        error_static = e.static_breach;
        error_ewma = e.ewma_breach;
        latency_static = l.static_breach;
        latency_ewma = l.ewma_breach;
        culprit_backends = culprits;
        reasons =
            e.messages
            ++ (l.messages
                ++ message_if (not is_warm && any)
                    (codes "(baseline warmup 미완료 -> 정적 임계값 기준, 최대 severity=warning)"));
      }

  -- the block of the error rate
  error_signal : TrafficSnapshot F → Baseline F → Option F → Signal F
  unfolding signal
  error_signal s b rate =
      signal (warm b) b.error_rate s.error_rate rate error_static_text
        (error_ewma_text b.error_rate)

  -- the block of the p99 latency
  latency_signal : TrafficSnapshot F → Baseline F → Option F → Signal F
  unfolding signal
  latency_signal s b limit =
      signal (warm b) b.p99_latency_ms s.p99_latency_ms limit latency_static_text
        (latency_ewma_text b.p99_latency_ms)

  pub assess_anomaly : TrafficSnapshot F → Baseline F → Option F → Option F → AnomalyAssessment F
  unfolding assemble
  assess_anomaly s b scale_up_error_rate max_p99_latency_ms =
      assemble (warm b) (error_signal s b scale_up_error_rate)
        (latency_signal s b max_p99_latency_ms)
        (find_culprit_backends s.per_backend scale_up_error_rate)
