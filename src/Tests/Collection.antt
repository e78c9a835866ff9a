-- ===== src/Tests/Collection.antt =====
-- Examples for the collection of a snapshot, from Prometheus and from Hubble.
use samsung.Prelude.{
  ℕ, ◌*◌, ◌/◌, ◌≤◌, pos, false, Option, none, some, [], ◌∷◌, codes, number, number-str_nat-end, ◌≡◌,
  refl, ap, arith,
}
use native.Mathlib.Nat.{div-le_of_le-mul}
use samsung.Schemas.{TrafficSnapshot, Target}
use samsung.Policy.Status.{no_previous}
use samsung.Policy.Engine.{evaluate}
use samsung.Policy.Engine.Routing.{isolates, action}
use samsung.Metrics.Prometheus.{Raw, text, object, response, parsed, FloatText}
use samsung.Metrics.Window.{parse_window, parse_window_seconds}
use samsung.Metrics.Window.Agreement.{minute, window_text, ExactInts, windows_agree}
use samsung.Metrics.Window.Runs.{no_window}
use samsung.Metrics.Calls.{Holds}
use samsung.Metrics.HubbleCollector.{Apps, hubble_collect}
use samsung.Metrics.HubbleCollector.Flows.{DividesParts, hubble_collect-IsHonest}
use samsung.Metrics.Values.Ratios.{Ieee}
use samsung.Metrics.Collector.{Sources, collect}
use samsung.Metrics.Collector.Honest.{IsHonest, collect-IsHonest}
use samsung.Handlers.HubbleRoutes.{hubble_never_isolates}
use samsung.Tests.Fixtures.{thousandths, policy, status_after}
use samsung.Tests.HubbleFixtures.{decoder, command}

-- the texts of natural numbers, as floats
decimal_text : Raw → Option ℕ
decimal_text (text t) = elim (number t) [ some (n, []) ↦ some (n * 1000) | _ ↦ none ]
decimal_text _ = none

abbrev decimals : FloatText ℕ
decimals = record { parse = decimal_text; nan = 0 }

decimals-ExactInts : ExactInts ℕ ⦃ft = decimals⦄
unfolding thousandths decimal_text
decimals-ExactInts = record {
  decimal_exact = λ n h. omega arith;
  mul_exact = λ a b h. omega arith;
  round_exact = λ n h. ap (λ m. some (pos m)) (omega arith);
  trunc_exact = λ n h. ap (λ m. some (pos m)) (omega arith);
  eq_exact = λ n h. ground arith;
  parse_exact = λ n h. rw (decimal_text, number-str_nat-end n) refl;
}

-- a part of a whole, in thousandths of the whole
part_of : (a b : ℕ) → a ≤ b → 1 ≤ b → a * 1000 * 1000 / (b * 1000) ≤ 1000
part_of a b h k = div-le_of_le-mul (b * 1000) (omega arith)

thousandths-DividesParts : DividesParts ℕ
unfolding thousandths
thousandths-DividesParts = record {
  at_least_zero = λ a b h k. ground arith;
  at_most_one = λ a b h k. ground (arith, part_of a b h k);
}

thousandths-Ieee : Ieee ℕ
unfolding thousandths
thousandths-Ieee = record {
  finite-IsNumber = λ x h. ground arith;
  add-IsNumber = λ x y h k. ground arith;
  div-IsNumber = λ x y h k l. ground arith;
  le_of_not_lt = λ x y h k l. ground arith;
  int_zero-IsNumber = refl;
  zero-IsNumber = refl;
  one-IsNumber = refl;
  zero_le_zero = refl;
  zero_le_one = refl;
  int_zero_le_one = refl;
  one_le_one = refl;
}

abbrev apps : Apps ℕ
apps = record { ready_replicas = λ dep ns w. (some (some (pos 3)), w) }

abbrev target : Target
target = record {
  http_route = none;
  namespace = some (codes "shop");
  deployment = some (codes "web");
}

-- a Prometheus that answers each query with one sample of 2 for the backend "web", and Hubble behind it
abbrev sources : Sources ℕ ℕ ℕ
sources = record {
  gateway_implementation = none;
  prometheus_url_variable = none;
  session = λ url. record {
    get = λ promql w. (
      response (pos 200) (
          parsed (codes "success") [] (record {
            result_type = some (codes "vector");
            result = object 0 (some (Raw.number (codes "1") ∷ text (codes "2") ∷ [])) ∷ [];
          })),
      w,
    );
  };
  label = λ labels name. some (codes "web");
  hubble = hubble_collect decoder command apps (pos 2000);
}

hubble_collect-IsHonest_example :
    Holds IsHonest (hubble_collect decoder command apps (pos 2000) target (pos 60) 1000000 0).0
hubble_collect-IsHonest_example =
    hubble_collect-IsHonest decoder command apps (pos 2000) thousandths-DividesParts target (pos 60)
      1000000 0

hubble_never_isolates_example :
    Holds
      (λ snapshot.
        isolates (action (evaluate policy snapshot (status_after no_previous) 1000000 []).0)
        ≡ false)
      (hubble_collect decoder command apps (pos 2000) target (pos 60) 1000000 0).0
hubble_never_isolates_example =
    hubble_never_isolates policy decoder command apps (pos 2000) target (pos 60) 1000000 0
      (status_after no_previous) 1000000 []

collect-IsHonest_example :
    (r : TrafficSnapshot ℕ × ℕ) × (collect ⦃ft = decimals⦄ sources policy none 1000000 0 ≡ some r)
    × IsHonest r.0
collect-IsHonest_example =
    collect-IsHonest ⦃ft = decimals⦄ thousandths-Ieee sources policy none 1000000 (codes "1m")
      (pos 60) 0
      (λ t w.
        hubble_collect-IsHonest decoder command apps (pos 2000) thousandths-DividesParts t (pos 60)
          1000000 w)
      no_window

windows_agree_example :
    (parse_window ℕ (some (window_text 5 minute)) ≡ some (window_text 5 minute, pos 300))
    × (parse_window_seconds ℕ ⦃ft = decimals⦄ (window_text 5 minute) ≡ some (pos 300))
windows_agree_example =
    windows_agree ℕ ⦃ft = decimals⦄ decimals-ExactInts 5 minute (ground arith) (ground arith)
