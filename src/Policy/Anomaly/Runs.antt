-- ===== src/Policy/Anomaly/Runs.antt =====
-- Runs of policy/anomaly.py at concrete inputs.
use samsung.Prelude.{◌≡◌, refl, true, false, some, [], ◌∷◌, codes}
use samsung.Policy.Baseline.{new_baseline, warm}
use samsung.Policy.Anomaly.{
  any_anomaly, assess_anomaly, error_signal, latency_signal, find_culprit_backends,
}
use samsung.Tests.Fixtures.{thousandths, snapshot, ill_snapshot, backends}

pub quiet_run : any_anomaly (assess_anomaly snapshot new_baseline (some 50) (some 800000)) ≡ false
unfolding assess_anomaly error_signal latency_signal warm new_baseline thousandths
quiet_run = refl

pub ill_run : any_anomaly (assess_anomaly ill_snapshot new_baseline (some 50) (some 800000)) ≡ true
unfolding assess_anomaly error_signal latency_signal warm new_baseline thousandths
ill_run = refl

pub culprit_run : find_culprit_backends backends (some 50) ≡ codes "canary" ∷ []
unfolding find_culprit_backends thousandths
culprit_run = refl
