-- ===== src/Tests/Policy.antt =====
-- Examples for the policy.
use samsung.Prelude.{
  ◌⊎◌, ◌≤ℤ◌, ◌<ℤ◌, Bool, ◌||◌, nonempty, text_eq, if◌then◌else◌, ℕ, pos, ◌≡◌, refl, true, false,
  none, some, [], ◌∷◌, codes, lacks, is_some, not, ◌&&◌, arith, int_laws,
}
use samsung.Schemas.{int, noop, isolate_backend, is_critical, reroute, is_ok}
use samsung.Policy.Status.{Previous, prev_decision, is_effect}
use samsung.Policy.Status.Cooldown.{cooldown_idle}
use samsung.Policy.Baseline.{get_baseline, new_baseline, warm, lookup, observe, target_key}
use samsung.Policy.Anomaly.{any_anomaly, error_anomaly, assess_anomaly}
use samsung.Policy.Anomaly.Runs.{quiet_run, ill_run}
use samsung.Policy.Recovery.{
  Marker, parse_recovery_marker, rounds_needed, recovery_of, recovery_state,
}
use samsung.Policy.Recovery.RoundTrip.{IsName}
use samsung.Policy.Recovery.Rounds.{rounds_needed-suffice, recovery_of_reroute}
use samsung.Policy.Messages.{reroute_reason}
use samsung.Policy.Messages.Reroute.{parse-reroute_reason}
use samsung.Policy.Anomaly.Findings.{is_calm, assess_anomaly-severity}
use samsung.Policy.Scaling.Runs.{up_run, capacity_run}
use samsung.Policy.Scaling.Targets.{
  Founded, assess_scaling-Founded, capacity_target_for_anomaly_grows,
}
use samsung.Policy.Engine.Forgets.{Forgets, evaluate-Forgets}
use samsung.Policy.Engine.HeldBack.{IsEarly, Waits, evaluate-Waits}
use samsung.Policy.Engine.Learning.{evaluate_learns}
use samsung.Policy.Engine.{evaluate, assess, cooldown_seconds_of, now_of}
use samsung.Policy.Engine.Cycles.{Cycle, decision, after, Linked}
use samsung.Policy.Engine.Quiet.{IsQuiet}
use samsung.Policy.Engine.Recovering.{Recovers, evaluate-Recovers}
use samsung.Policy.Engine.Contract.{Kept, evaluate-Kept}
use samsung.Policy.Engine.Routing.{
  isolates, reroutes, action, may_isolate, is_free, found, evaluate_routes,
}
use samsung.Actuator.Weights.Bounds.{weight_after}
use samsung.Tests.Fixtures.{thousandths, policy, snapshot, ill_snapshot, status_after}

-- a reroute that was decided after one of its three rounds
abbrev marker : Marker
marker = record { done = 1; total = 3; backends = codes "canary" ∷ codes "stable" ∷ [] }

abbrev rerouted : Previous ℕ
rerouted = record {
  action = some reroute;
  reason = some (reroute_reason marker (codes "이상 없음"));
  backend_weights = some ((codes "canary", int (pos 100)) ∷ []);
  cooldown_until = none;
}

canary-IsName : IsName (codes "canary")
unfolding lacks
canary-IsName = record { present = refl; no_comma = refl; no_close = refl; no_open = refl }

stable-IsName : IsName (codes "stable")
unfolding lacks
stable-IsName = record { present = refl; no_comma = refl; no_close = refl; no_open = refl }

parse-reroute_reason_example :
    parse_recovery_marker (reroute_reason marker (codes "이상 없음")) ≡ some marker
parse-reroute_reason_example =
    parse-reroute_reason marker (codes "이상 없음") refl (canary-IsName, (stable-IsName, tt))
      (unfold lacks in refl)

rounds_needed-suffice_example : weight_after (rounds_needed (pos 20)) (pos 100) (pos 50) ≡ pos 100
rounds_needed-suffice_example =
    rounds_needed-suffice (pos 20) (pos 50) (grind int_laws) (grind int_laws) (grind int_laws)
      (grind int_laws)

-- Three reconciles of the same quiet target, the first with no previous cooldown.
abbrev first : Cycle ℕ
first = record { snapshot = snapshot; status = status_after rerouted; wall = 1000000; store = [] }

abbrev second : Cycle ℕ
second = record {
  snapshot = snapshot;
  status = status_after (after policy rerouted (decision policy first));
  wall = 1060000;
  store = [];
}

abbrev third : Cycle ℕ
third = record {
  snapshot = snapshot;
  status =
      status_after
        (after policy (after policy rerouted (decision policy first)) (decision policy second));
  wall = 1120000;
  store = [];
}

quiet : any_anomaly (assess policy snapshot (get_baseline policy []).0) ≡ false
unfolding assess get_baseline
quiet = quiet_run

first-IsQuiet : IsQuiet policy first
first-IsQuiet = record { observed = unfold is_ok in refl; no_anomaly = quiet }

second-IsQuiet : IsQuiet policy second
second-IsQuiet = record { observed = unfold is_ok in refl; no_anomaly = quiet }

third-IsQuiet : IsQuiet policy third
third-IsQuiet = record { observed = unfold is_ok in refl; no_anomaly = quiet }

three-Linked : Linked policy rerouted (first ∷ second ∷ third ∷ [])
unfolding prev_decision
three-Linked = (refl, (refl, (refl, tt)))

marker_read_back : recovery_of rerouted ≡ some marker
marker_read_back =
    recovery_of_reroute rerouted (reroute_reason marker (codes "이상 없음")) marker refl refl (
      parse-reroute_reason marker (codes "이상 없음") refl (canary-IsName, (stable-IsName, tt))
        (unfold lacks in refl))

evaluate-Recovers_example : Recovers policy 2 marker.backends (first ∷ second ∷ third ∷ [])
evaluate-Recovers_example =
    evaluate-Recovers policy marker rerouted (first ∷ second ∷ third ∷ []) (grind arith) refl
      (canary-IsName, (stable-IsName, tt)) marker_read_back
      (cooldown_idle first.status (cooldown_seconds_of policy) (now_of snapshot 1000000)
        (unfold prev_decision in refl) (unfold prev_decision is_effect in refl))
      three-Linked (first-IsQuiet, (second-IsQuiet, (third-IsQuiet, tt)))

evaluate-Kept_example : Kept (evaluate policy snapshot (status_after rerouted) 1000000 []).0
evaluate-Kept_example = evaluate-Kept policy snapshot (status_after rerouted) 1000000 []

evaluate_routes_example :
    let s = status_after rerouted in
    let d = (evaluate policy snapshot s 1000000 []).0 in
    (isolates (action d) ≡ (
      true
      && (is_free policy snapshot s 1000000 []
          && may_isolate policy snapshot (found policy snapshot s 1000000 []))))
    × (reroutes (action d) ≡ (
        true
        && (is_free policy snapshot s 1000000 []
            && (not (any_anomaly (found policy snapshot s 1000000 []))
                && is_some (recovery_state s)))))
unfolding is_ok
evaluate_routes_example = evaluate_routes policy snapshot (status_after rerouted) 1000000 []

-- a reconcile of the cooldown after an isolation
abbrev isolated : Previous ℕ
isolated = record {
  action = some isolate_backend;
  reason = none;
  backend_weights = some ((codes "canary", int (pos 0)) ∷ (codes "stable", int (pos 100)) ∷ []);
  cooldown_until = some 1100000;
}

abbrev held : Cycle ℕ
held = record { snapshot = snapshot; status = status_after isolated; wall = 1000000; store = [] }

abbrev held_again : Cycle ℕ
held_again = record held { status = status_after (after policy isolated (decision policy held)) }

held-IsEarly : IsEarly policy 1100000 held
unfolding is_ok now_of thousandths
held-IsEarly = record { observed = refl; early = refl }

held_again-IsEarly : IsEarly policy 1100000 held_again
unfolding is_ok now_of thousandths
held_again-IsEarly = record { observed = refl; early = refl }

two-Linked : Linked policy isolated (held ∷ held_again ∷ [])
unfolding prev_decision
two-Linked = (refl, (refl, tt))

evaluate-Waits_example :
    Waits policy isolated.backend_weights 1100000 (recovery_of isolated) (held ∷ held_again ∷ [])
evaluate-Waits_example =
    evaluate-Waits policy isolated 1100000 (held ∷ held_again ∷ []) refl refl (grind int_laws)
      two-Linked (held-IsEarly, (held_again-IsEarly, tt))

-- the noop that such a reconcile leaves, once the cooldown is over
abbrev waited : Previous ℕ
waited = record isolated { action = some noop; cooldown_until = none }

-- an anomaly without a culprit after the cooldown of that isolation
ill : any_anomaly (assess policy ill_snapshot (get_baseline policy []).0) ≡ true
unfolding assess get_baseline
ill = ill_run

off : (b : Bool) → (b && false) ≡ false
off b = ground arith

evaluate-Forgets_example : Forgets (evaluate policy ill_snapshot (status_after waited) 1000000 []).0
evaluate-Forgets_example =
    evaluate-Forgets policy ill_snapshot (status_after waited) 1000000 [] (unfold is_ok in refl)
      (cooldown_idle (status_after waited) (cooldown_seconds_of policy)
        (now_of ill_snapshot 1000000) (unfold prev_decision in refl)
        (unfold prev_decision is_effect in refl))
      ill
      (off (
        error_anomaly (assess policy ill_snapshot (get_baseline policy []).0)
        && nonempty (assess policy ill_snapshot (get_baseline policy []).0).culprit_backends))

evaluate_learns_example :
    let after_it = (evaluate policy snapshot (status_after rerouted) 1000000 []).1 in
    (lookup (codes "shop/api/api") after_it ≡ none)
    × (lookup (target_key policy) after_it
        ≡ some (
            if is_critical (assess policy snapshot (get_baseline policy []).0).severity
            then (get_baseline policy []).0
            else observe (some 10) (some 90000) (get_baseline policy []).0))
unfolding is_ok lookup
evaluate_learns_example =
    evaluate_learns policy snapshot (status_after rerouted) 1000000 [] (codes "shop/api/api")
      (unfold text_eq target_key in refl)

assess_anomaly-severity_example :
    let a = assess_anomaly {F = ℕ} ill_snapshot new_baseline (some 50) (some 800000) in
    (is_critical a.severity
      ≡ ((a.error_static && a.error_ewma) || (a.latency_static && a.latency_ewma)))
    × ((is_critical a.severity && not (warm {F = ℕ} new_baseline)) ≡ false)
    × (is_calm a.severity ≡ not (any_anomaly a))
assess_anomaly-severity_example =
    assess_anomaly-severity ill_snapshot new_baseline (some 50) (some 800000)

in_order : pos 2 ≤ℤ pos 10
in_order = grind int_laws

assess_scaling-Founded_example :
    Founded
      (pos 2)
      (pos 10)
      in_order
      {F = ℕ}
      (some 300000)
      (some (pos 2))
      (some 100000)
      (some 50000)
      up_run.0.direction
      up_run.0.target_replicas
assess_scaling-Founded_example =
    assess_scaling-Founded (pos 2) (pos 10) in_order (some 300000) (some (pos 2)) (some 100000)
      (some 50000) up_run.0 up_run.1

capacity_target_for_anomaly_grows_example :
    (pos 2 ≤ℤ pos 4) × (pos 4 ≤ℤ pos 10) × ((pos 3 <ℤ pos 4) ⊎ (pos 4 ≡ pos 10))
capacity_target_for_anomaly_grows_example =
    capacity_target_for_anomaly_grows (pos 2) (pos 10) in_order (some 300000) (pos 3) (some 100000)
      (pos 4) capacity_run
