-- ===== src/Policy/Baseline.antt =====
-- policy/baseline.py: the EWMA baseline of each target, kept in the memory of the process.
pub mod Entries
use samsung.Prelude.{
  ℕ, ◌+◌, pos, Bool, false, ◌&&◌, Option, none, some, List, [], ◌∷◌, ◌++◌, Text, text_eq, Float,
  leb, ◌==◌, or_else, if◌then◌else◌,
}
use samsung.Schemas.{Spec, no_target}

-- the samples below which a baseline is not warm
abbrev pub min_samples : ℕ
min_samples = 10

-- mean and variance of one metric; an int count from 0
pub record Stat (F : Type 0) : Type 0 where
  pub mean : F
  pub var : F
  pub count : ℕ

pub record Baseline (F : Type 0) : Type 0 where
  pub error_rate : Stat F
  pub p99_latency_ms : Stat F

-- `_BASELINES`, a dict keyed by text
abbrev pub Store : Type 0 → Type 0
Store F = List (Text × Baseline F)

module _ {F : Type 0} ⦃fl : Float F⦄ where
  open fl use {decimal, of_int, add, sub, mul, div, lt, le, sqrt}

  abbrev alpha : F
  alpha = decimal 2 1

  abbrev sigmas : F
  sigmas = decimal 30 1

  abbrev rel_margin : F
  rel_margin = decimal 5 1

  abbrev pub eps : F
  eps = decimal 1 9

  -- max(0.0, x)
  abbrev at_least_zero : F → F
  at_least_zero x = if lt (decimal 0 1) x then x else decimal 0 1

  pub new_stat : Stat F
  new_stat = record { mean = decimal 0 1; var = decimal 0 1; count = 0 }

  pub update : F → Stat F → Stat F
  update x s =
      if s.count == 0
      then record { mean = x; var = decimal 0 1; count = s.count + 1 }
      else let diff = sub x s.mean in
        let incr = mul alpha diff in
        record {
          mean = add s.mean incr;
          var = mul (sub (decimal 10 1) alpha) (add s.var (mul diff incr));
          count = s.count + 1;
        }

  pub stddev : Stat F → F
  stddev s = if lt (of_int (pos 0)) s.var then sqrt s.var else decimal 0 1

  pub upper_zscore : F → Stat F → F
  unfolding stddev
  upper_zscore x s =
      if le (stddev s) eps
      then if le s.mean eps
        then decimal 0 1
        else at_least_zero (div (div (sub x s.mean) s.mean) rel_margin)
      else at_least_zero (div (sub x s.mean) (stddev s))

  pub is_upper_breach : F → Stat F → Bool
  unfolding stddev
  is_upper_breach x s =
      if le (stddev s) eps
      then if le s.mean eps then false else lt (mul s.mean (add (decimal 10 1) rel_margin)) x
      else lt (add s.mean (mul sigmas (stddev s))) x

  unfoldable pub new_baseline : Baseline F
  unfolding new_stat
  new_baseline = record { error_rate = new_stat; p99_latency_ms = new_stat }

  abbrev update_optional : Option F → Stat F → Stat F
  update_optional none s = s
  update_optional (some x) s = update x s

  pub observe : Option F → Option F → Baseline F → Baseline F
  unfolding update
  observe e p b = record {
    error_rate = update_optional e b.error_rate;
    p99_latency_ms = update_optional p b.p99_latency_ms;
  }

module _ {F : Type 0} where
  unfoldable pub warm : Baseline F → Bool
  warm b = leb min_samples b.error_rate.count && leb min_samples b.p99_latency_ms.count

  -- `target.get(…, "") or ""` of the three names
  unfoldable pub target_key : Spec F → Text
  target_key spec =
      let t = or_else spec.target no_target in
      or_else t.namespace []
      ++ (b'/' ∷ (or_else t.deployment [] ++ (b'/' ∷ or_else t.http_route [])))

  unfoldable pub lookup : Text → Store F → Option (Baseline F)
  lookup k [] = none
  lookup k ((j, b) ∷ s) = if text_eq k j then some b else lookup k s

  -- `_BASELINES[key] = bl`; a baseline that is mutated is put back under its key
  pub put : Text → Baseline F → Store F → Store F
  put k b [] = (k, b) ∷ []
  put k b ((j, c) ∷ s) = if text_eq k j then (j, b) ∷ s else (j, c) ∷ put k b s

module _ {F : Type 0} ⦃fl : Float F⦄ where
  -- the baseline of the target and the store that then holds it
  unfoldable pub get_baseline : Spec F → Store F → Baseline F × Store F
  unfolding lookup put new_baseline
  get_baseline spec s = elim (lookup (target_key spec) s) [
    | some b ↦ (b, s)
    | none ↦ (new_baseline, put (target_key spec) new_baseline s)
  ]

  pub reset : Store F → Store F
  reset s = []
