-- ===== src/Policy/Engine/Learning.antt =====
-- What `evaluate` learns (policy/engine.py, (B), over policy/baseline.py).
use samsung.Prelude.{◌≡◌, false, some, Text, text_eq, Float, if◌then◌else◌, arith}
use samsung.Schemas.{TrafficSnapshot, Spec, is_ok, is_critical}
use samsung.Policy.Baseline.{Baseline, Store, lookup, target_key, get_baseline, observe}
use samsung.Policy.Baseline.Entries.{
  lookup-put, lookup-put_other, get_baseline-lookup, get_baseline-lookup_other,
}
use samsung.Policy.Status.{Status}
use samsung.Policy.Engine.{evaluate, evaluate_observed, assess, learn}

module _ {F : Type 0} ⦃fl : Float F⦄ (spec : Spec F) (snapshot : TrafficSnapshot F)
    (status : Status F) (wall : F) (store : Store F) where
  abbrev baseline : Baseline F
  baseline = (get_baseline spec store).0

  -- Whatever the decision: the baselines of other targets stay as they were; that of the target takes
  -- in the observation where the target was observed and the severity is not critical, is only
  -- created where it is critical, and stays as it was where the target was not observed.
  pub evaluate_learns :
      (other : Text)
      → text_eq other (target_key spec) ≡ false
      → (lookup other (evaluate spec snapshot status wall store).1 ≡ lookup other store)
        × (lookup (target_key spec) (evaluate spec snapshot status wall store).1 ≡ (
            if is_ok snapshot.status
            then some (
                if is_critical (assess spec snapshot baseline).severity
                then baseline
                else observe snapshot.error_rate snapshot.p99_latency_ms baseline)
            else lookup (target_key spec) store))
  unfolding evaluate evaluate_observed learn
  evaluate_learns other h = (
    ground (
      arith,
      get_baseline-lookup_other spec store other h,
      lookup-put_other (target_key spec) other
          (observe snapshot.error_rate snapshot.p99_latency_ms baseline) (get_baseline spec store).1
          h,
    ),
    ground (
      arith,
      get_baseline-lookup spec store,
      lookup-put (target_key spec) (observe snapshot.error_rate snapshot.p99_latency_ms baseline)
          (get_baseline spec store).1,
    ),
  )
