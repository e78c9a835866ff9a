-- ===== src/Metrics/Values.antt =====
-- metrics/collector.py, the helpers on values: one number or one number for each backend from the
-- samples of a query, the ratio of errors, and latencies in milliseconds.
pub mod Ratios
use samsung.Prelude.{
  ℤ, pos, Bool, true, false, Option, none, some, List, [], ◌∷◌, Text, codes, text_eq, sorted, Float,
  nonempty, or_else, if◌then◌else◌,
}
use samsung.Schemas.{BackendTraffic}
use samsung.Metrics.Prometheus.{Sample}

-- the keys of a dict, in insertion order
pub keys : {A : Type 0} → List (Text × A) → List Text
keys [] = []
keys ((n, x) ∷ r) = n ∷ keys r

-- `d.get(name)`
pub get : {A : Type 0} → Text → List (Text × A) → Option A
get name [] = none
get name ((n, x) ∷ r) = if text_eq name n then some x else get name r

module _ {F : Type 0} ⦃fl : Float F⦄ where
  abbrev pub zero_float : F
  zero_float = fl.decimal 0 1

  pub scalar : {L : Type 0} → List (Sample F L) → Option F
  scalar [] = none
  scalar (s ∷ ss) = if fl.finite s.value then some s.value else none

  -- `out[name] = out.get(name, 0.0) + v`
  pub add_value : Text → F → List (Text × F) → List (Text × F)
  add_value name v [] = (name, fl.add zero_float v) ∷ []
  add_value name v ((n, x) ∷ r) =
      let rest = add_value name v r in if text_eq name n then (n, fl.add x v) ∷ r else (n, x) ∷ rest

  module _ {L : Type 0} (label : Option L → Text) (name_map : Text → Text) where
    -- one sample of `_vector`; `label` is `s.labels.get(label, "")`
    pub add_sample : Sample F L → List (Text × F) → List (Text × F)
    unfolding add_value
    add_sample s out =
        let name = name_map (label s.labels) in
        if fl.finite s.value
        then (if nonempty name then add_value name s.value out else out)
        else out

    pub vector_from : List (Text × F) → List (Sample F L) → List (Text × F)
    unfolding add_sample
    vector_from out [] = out
    vector_from out (s ∷ ss) = vector_from (add_sample s out) ss

    pub vector : List (Sample F L) → List (Text × F)
    unfolding vector_from
    vector samples = vector_from [] samples

  pub safe_ratio : F → F → F
  safe_ratio numer denom =
      if fl.le denom (fl.of_int (pos 0))
      then zero_float
      else if fl.lt (fl.div numer denom) (fl.of_int (pos 0))
      then zero_float
      else if fl.lt (fl.decimal 10 1) (fl.div numer denom)
      then fl.decimal 10 1
      else fl.div numer denom

  pub to_ms : Option F → Text → Option F
  to_ms none unit = none
  to_ms (some value) unit =
      some (if text_eq unit (codes "s") then fl.mul value (fl.decimal 10000 1) else value)

  -- `value or 0.0`
  pub or_zero : Option F → F
  or_zero none = zero_float
  or_zero (some v) = if fl.eq v zero_float then zero_float else v

  -- one backend with its rate of requests
  pub backend_entry :
      List (Text × F) → List (Text × F) → List (Text × F) → Text → Text → F → BackendTraffic F
  unfolding safe_ratio to_ms get
  backend_entry rps_by err_by p99_by unit name rps = record {
    name = name;
    rps = some rps;
    error_rate = some (safe_ratio (or_else (get name err_by) zero_float) rps);
    p99_latency_ms = to_ms (get name p99_by) unit;
    ready_pods = none;
  }

  -- the loop over the sorted names
  pub backend_entries :
      List (Text × F)
      → List (Text × F)
      → List (Text × F)
      → Text
      → List Text
      → List (BackendTraffic F)
  unfolding backend_entry
  backend_entries rps_by err_by p99_by unit [] = []
  backend_entries rps_by err_by p99_by unit (name ∷ names) = elim (get name rps_by) [
    | none ↦ backend_entries rps_by err_by p99_by unit names
    | some rps ↦
        backend_entry rps_by err_by p99_by unit name rps
        ∷ backend_entries rps_by err_by p99_by unit names
  ]

  -- the join of `_build_per_backend`
  pub join_backends :
      List (Text × F) → List (Text × F) → List (Text × F) → Text → List (BackendTraffic F)
  unfolding backend_entries keys
  join_backends rps_by err_by p99_by unit =
      backend_entries rps_by err_by p99_by unit (sorted (keys rps_by))
