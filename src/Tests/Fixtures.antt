-- ===== src/Tests/Fixtures.antt =====
-- Concrete floats and a concrete cluster for the examples.
use samsung.Prelude.{
  List, ℕ, zero, suc, ◌+◌, ◌-◌, ◌*◌, ◌/◌, leb, ltb, ◌==◌, ℤ, pos, pos_part, Bool, false, none, some,
  [], ◌∷◌, codes, str_nat, Float, if◌then◌else◌, refl,
}
use samsung.Schemas.{BackendTraffic, Spec, ok, TrafficSnapshot}
use samsung.Policy.Status.{Status, Previous}
use samsung.Actuator.Cluster.{answer, api_exception, loaded, BackendRef, Route, Cluster, IsReadOnly}
use samsung.Actuator.Environment.{Process}
use samsung.Actuator.Scaler.{ScaleOptions}

abbrev root : ℕ → ℕ
root zero = 0
root (suc n) = let r = root n in if leb (suc r * suc r) (suc n) then suc r else r

abbrev power_of_ten : ℕ → ℕ
power_of_ten zero = 1
power_of_ten (suc n) = 10 * power_of_ten n

-- fixed point: a number of thousandths that is not negative
instance unfoldable pub thousandths : Float ℕ
thousandths = record {
  of_int = λ z. pos_part z * 1000;
  decimal = λ m k. m * 1000 / power_of_ten k;
  add = ◌+◌;
  sub = ◌-◌;
  mul = λ x y. x * y / 1000;
  div = λ x y. x * 1000 / y;
  lt = ltb;
  le = leb;
  eq = ◌==◌;
  sqrt = λ x. root (x * 1000);
  ceil = λ x. some (pos ((x + 999) / 1000));
  trunc = λ x. some (pos (x / 1000));
  round = λ x. some (pos ((x + 500) / 1000));
  finite = λ x. Bool.true;
  fixed = λ n x. str_nat (x / 1000);
}

-- the replicas of one deployment, and one route
abbrev pub World : Type 0
World = ℤ × Route ℕ

abbrev pub cluster : Cluster World ℕ
cluster = record {
  read_scale = λ name ns w. (answer (some w.0), w);
  patch_scale = λ name ns n w. (answer tt, (n, w.1));
  get_route = λ v ns name w. (answer w.1, w);
  replace_route = λ v ns name r w. (answer tt, (w.0, r));
  load_incluster_config = λ w. (loaded, w);
  load_kube_config = λ w. (loaded, w);
  namespace_file = λ w. some (codes "apps");
  dry_run_variable = λ w. none;
}

-- the same cluster, in which every write is forbidden
abbrev pub locked : Cluster World ℕ
locked = record cluster {
  patch_scale = λ name ns n w. (api_exception (pos 403) (codes "Forbidden"), w);
  replace_route = λ v ns name r w. (api_exception (pos 409) (codes "Conflict"), w);
}

pub cluster-IsReadOnly : IsReadOnly cluster
cluster-IsReadOnly = record {
  read_scale_keeps = λ name ns w. refl;
  get_route_keeps = λ v ns name w. refl;
  incluster_keeps = λ w. refl;
  kube_keeps = λ w. refl;
}

pub locked-IsReadOnly : IsReadOnly locked
locked-IsReadOnly = record {
  read_scale_keeps = λ name ns w. refl;
  get_route_keeps = λ v ns name w. refl;
  incluster_keeps = λ w. refl;
  kube_keeps = λ w. refl;
}

abbrev pub stable : BackendRef ℕ
stable = record { name = some (codes "stable"); weight = some (pos 100); rest = 0 }

abbrev pub canary : BackendRef ℕ
canary = record { name = some (codes "canary"); weight = some (pos 20); rest = 1 }

abbrev pub route : Route ℕ
route = record {
  rules = some (record { backend_refs = some (stable ∷ canary ∷ []); rest = 0 } ∷ []);
  rest = 7;
}

abbrev pub world : World
world = (pos 3, route)

abbrev pub process : Process World
process = record { world = world; clients_cached = false }

abbrev pub policy : Spec ℕ
policy = record {
  target = some (record {
    http_route = some (codes "web");
    namespace = some (codes "shop");
    deployment = some (codes "web");
  });
  thresholds = some (record {
    target_rps_per_pod = some 100000;
    scale_down_rps_per_pod = some 50000;
    scale_up_error_rate = some 50;
    max_p99_latency_ms = some 800000;
  });
  actions = some (record {
    min_replicas = some (pos 2);
    max_replicas = some (pos 10);
    cooldown_seconds = some (pos 60);
    max_scale_step = some (pos 2);
    allow_route_isolation = none;
    dry_run = none;
  });
  window = none;
}

-- the policy in a dry run
abbrev pub dry_policy : Spec ℕ
dry_policy = record policy {
  actions = some (record {
    min_replicas = some (pos 2);
    max_replicas = some (pos 10);
    cooldown_seconds = some (pos 60);
    max_scale_step = some (pos 2);
    allow_route_isolation = some false;
    dry_run = some Bool.true;
  });
}

abbrev pub snapshot : TrafficSnapshot ℕ
snapshot = record {
  status = ok;
  timestamp = 1000000;
  window_seconds = pos 60;
  rps = some 300000;
  error_rate = some 10;
  p50_latency_ms = some 20000;
  p95_latency_ms = some 40000;
  p99_latency_ms = some 90000;
  total_ready_pods = some (pos 3);
  per_backend = [];
}

-- the same target with an error rate above the limit, in which one of two backends stands out
abbrev pub ill_snapshot : TrafficSnapshot ℕ
ill_snapshot = record snapshot { error_rate = some 100 }

abbrev pub backends : List (BackendTraffic ℕ)
backends =
    (record {
      name = codes "canary";
      rps = none;
      error_rate = some 300;
      p99_latency_ms = none;
      ready_pods = none;
    })
    ∷ (record {
      name = codes "stable";
      rps = none;
      error_rate = some 10;
      p99_latency_ms = none;
      ready_pods = none;
    })
    ∷ []

-- a status with this previous decision
abbrev pub status_after : Previous ℕ → Status ℕ
status_after p = record {
  reconcile = some (record { last_decision = some p; last_reconcile_at = some 940000 });
  last_decision = none;
  last_reconcile_at = none;
}

abbrev pub options : ScaleOptions
options = record {
  min_replicas = some (pos 2);
  max_replicas = some (pos 10);
  max_scale_step = some (pos 2);
  dry_run = false;
}
