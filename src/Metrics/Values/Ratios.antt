-- ===== src/Metrics/Values/Ratios.antt =====
-- The ratios of errors in the values of metrics/collector.py are numbers from 0 to 1: what the guards
-- against NaN and infinities are for.
use samsung.Prelude.{
  pos, Bool, true, false, Bool-cases, Option, none, some, some_inj, List, [], ◌∷◌, Text, text_eq,
  nonempty, ◌≡◌, refl, sym, ap, ◌∙◌, ◌⊎◌, inl, inr, Float, All, or_else, sorted, if_keeps,
  if◌then◌else◌,
}
use samsung.Schemas.{BackendTraffic}
use samsung.Metrics.Prometheus.{Sample}
use samsung.Metrics.Values.{
  zero_float, keys, get, scalar, or_zero, add_value, add_sample, vector_from, vector, safe_ratio,
  backend_entry, backend_entries, join_backends,
}

-- What IEEE 754 says of floats; a number is a float that is equal to itself, which NaN alone is not.
module _ (F : Type 0) ⦃fl : Float F⦄ where
  abbrev pub IsNumber : F → Type 0
  IsNumber x = fl.eq x x ≡ true

  pub record Ieee : Type 0 where
    pub finite-IsNumber : (x : F) → fl.finite x ≡ true → IsNumber x
    -- a number and a finite one add up to a number, which may be an infinity
    pub add-IsNumber : (x y : F) → IsNumber x → fl.finite y ≡ true → IsNumber (fl.add x y)
    -- a number by a finite positive one is a number
    pub div-IsNumber :
        (x y : F)
        → IsNumber x
        → fl.finite y ≡ true
        → fl.le y (fl.of_int (pos 0)) ≡ false
        → IsNumber (fl.div x y)
    -- of two numbers the first is below the second, or the second is at most the first
    pub le_of_not_lt : (x y : F) → IsNumber x → IsNumber y → fl.lt x y ≡ false → fl.le y x ≡ true
    -- the literals 0, 0.0 and 1.0
    pub int_zero-IsNumber : IsNumber (fl.of_int (pos 0))
    pub zero-IsNumber : IsNumber zero_float
    pub one-IsNumber : IsNumber (fl.decimal 10 1)
    pub zero_le_zero : fl.le (fl.of_int (pos 0)) zero_float ≡ true
    pub zero_le_one : fl.le zero_float (fl.decimal 10 1) ≡ true
    pub int_zero_le_one : fl.le (fl.of_int (pos 0)) (fl.decimal 10 1) ≡ true
    pub one_le_one : fl.le (fl.decimal 10 1) (fl.decimal 10 1) ≡ true

module _ {F : Type 0} ⦃fl : Float F⦄ where
  -- 0 <= r <= 1, which NaN does not satisfy
  abbrev pub IsRatio : F → Type 0
  IsRatio r = (fl.le (fl.of_int (pos 0)) r ≡ true) × (fl.le r (fl.decimal 10 1) ≡ true)

  -- A backend with its rate of requests, and a ratio of errors; the rate is a sum, so that it may
  -- be an infinity, whose ratio is not bounded.
  pub record HasRatio (b : BackendTraffic F) : Type 0 where
    pub rate : F
    pub rate_given : b.rps ≡ some rate
    pub ratio : F
    pub ratio_given : b.error_rate ≡ some ratio
    pub in_range : IsRatio ratio ⊎ (fl.finite rate ≡ false)

module _ {F : Type 0} ⦃fl : Float F⦄ (laws : Ieee F) where
  pub safe_ratio-IsRatio :
      (numer denom : F)
      → IsNumber F numer
      → fl.finite denom ≡ true
      → IsRatio (safe_ratio numer denom)
  unfolding safe_ratio
  safe_ratio-IsRatio numer denom n f = elim (Bool-cases (fl.le denom (fl.of_int (pos 0)))) [
    | inl e ↦ rw e (laws.zero_le_zero, laws.zero_le_one)
    | inr e ↦ rw e (elim (Bool-cases (fl.lt (fl.div numer denom) (fl.of_int (pos 0)))) [
      | inl low ↦ rw low (laws.zero_le_zero, laws.zero_le_one)
      | inr not_low ↦ rw not_low (elim (Bool-cases (fl.lt (fl.decimal 10 1) (fl.div numer denom))) [
        | inl high ↦ rw high (laws.int_zero_le_one, laws.one_le_one)
        | inr not_high ↦
            let number = laws.div-IsNumber numer denom n f e in
            rw not_high (
              laws.le_of_not_lt (fl.div numer denom) (fl.of_int (pos 0)) number
                  laws.int_zero-IsNumber not_low,
              laws.le_of_not_lt (fl.decimal 10 1) (fl.div numer denom) laws.one-IsNumber number
                  not_high,
            )
      ])
    ])
  ]

  -- what `_scalar` gives is finite
  pub scalar_finite :
      {L : Type 0} (samples : List (Sample F L)) (x : F)
      → scalar samples ≡ some x
      → fl.finite x ≡ true
  unfolding scalar
  scalar_finite [] x e = cc
  scalar_finite (s ∷ ss) x e = by_value (fl.finite s.value) refl e
    where
      by_value :
          (b : Bool)
          → fl.finite s.value ≡ b
          → (if b then some s.value else none) ≡ some x
          → fl.finite x ≡ true
      by_value true f e = ap fl.finite (sym (some_inj e)) ∙ f
      by_value false f e = cc

  pub or_zero-IsNumber :
      (o : Option F) → ((x : F) → o ≡ some x → fl.finite x ≡ true) → IsNumber F (or_zero o)
  unfolding or_zero
  or_zero-IsNumber none h = laws.zero-IsNumber
  or_zero-IsNumber (some v) h =
      if_keeps (IsNumber F) (fl.eq v zero_float) laws.zero-IsNumber
        (laws.finite-IsNumber v (h v refl))

  -- the values of a dict are numbers
  abbrev pub AreNumbers : List (Text × F) → Type 0
  AreNumbers out = All (λ e. IsNumber F e.1) out

  add_value-AreNumbers :
      (name : Text) (v : F) (out : List (Text × F))
      → fl.finite v ≡ true
      → AreNumbers out
      → AreNumbers (add_value name v out)
  unfolding add_value
  add_value-AreNumbers name v [] f h = (laws.add-IsNumber zero_float v laws.zero-IsNumber f, tt)
  add_value-AreNumbers name v ((n, x) ∷ r) f h =
      if_keeps AreNumbers (text_eq name n) (laws.add-IsNumber x v h.0 f, h.1)
        (h.0, add_value-AreNumbers name v r f h.1)

  module _ {L : Type 0} (label : Option L → Text) (name_map : Text → Text) where
    add_sample-AreNumbers :
        (s : Sample F L) (out : List (Text × F))
        → AreNumbers out
        → AreNumbers (add_sample label name_map s out)
    unfolding add_sample
    add_sample-AreNumbers s out h = elim (Bool-cases (fl.finite s.value)) [
      | inl f ↦ rw f (
          if_keeps AreNumbers (nonempty (name_map (label s.labels)))
            (add_value-AreNumbers (name_map (label s.labels)) s.value out f h) h)
      | inr e ↦ rw e h
    ]

    vector_from-AreNumbers :
        (out : List (Text × F)) (samples : List (Sample F L))
        → AreNumbers out
        → AreNumbers (vector_from label name_map out samples)
    unfolding vector_from
    vector_from-AreNumbers out [] h = h
    vector_from-AreNumbers out (s ∷ ss) h =
        vector_from-AreNumbers (add_sample label name_map s out) ss (add_sample-AreNumbers s out h)

    pub vector-AreNumbers :
        (samples : List (Sample F L)) → AreNumbers (vector label name_map samples)
    unfolding vector
    vector-AreNumbers samples = vector_from-AreNumbers [] samples tt

  get-IsNumber :
      (name : Text) (out : List (Text × F))
      → AreNumbers out
      → IsNumber F (or_else (get name out) zero_float)
  unfolding get
  get-IsNumber name [] h = laws.zero-IsNumber
  get-IsNumber name ((n, x) ∷ r) h =
      if_keeps (λ o. IsNumber F (or_else o zero_float)) (text_eq name n) h.0
        (get-IsNumber name r h.1)

  backend_entry-HasRatio :
      (rps_by err_by p99_by : List (Text × F)) (unit name : Text) (rps : F)
      → AreNumbers err_by
      → HasRatio (backend_entry rps_by err_by p99_by unit name rps)
  unfolding backend_entry
  backend_entry-HasRatio rps_by err_by p99_by unit name rps h = record {
    rate = rps;
    rate_given = refl;
    ratio = safe_ratio (or_else (get name err_by) zero_float) rps;
    ratio_given = refl;
    in_range = elim (Bool-cases (fl.finite rps)) [
      | inl f ↦ inl (
          safe_ratio-IsRatio (or_else (get name err_by) zero_float) rps (get-IsNumber name err_by h)
            f)
      | inr e ↦ inr e
    ];
  }

  backend_entries-HasRatio :
      (rps_by err_by p99_by : List (Text × F)) (unit : Text) (names : List Text)
      → AreNumbers err_by
      → All HasRatio (backend_entries rps_by err_by p99_by unit names)
  unfolding backend_entries
  backend_entries-HasRatio rps_by err_by p99_by unit [] h = tt
  backend_entries-HasRatio rps_by err_by p99_by unit (name ∷ names) h =
      by_rate (get name rps_by) (backend_entries-HasRatio rps_by err_by p99_by unit names h)
    where
      by_rate :
          (o : Option F)
          → All HasRatio (backend_entries rps_by err_by p99_by unit names)
          → All HasRatio (elim o [
            | none ↦ backend_entries rps_by err_by p99_by unit names
            | some rps ↦
                backend_entry rps_by err_by p99_by unit name rps
                ∷ backend_entries rps_by err_by p99_by unit names
          ])
      by_rate none rest = rest
      by_rate (some rps) rest = (backend_entry-HasRatio rps_by err_by p99_by unit name rps h, rest)

  pub join_backends-HasRatio :
      (rps_by err_by p99_by : List (Text × F)) (unit : Text)
      → AreNumbers err_by
      → All HasRatio (join_backends rps_by err_by p99_by unit)
  unfolding join_backends
  join_backends-HasRatio rps_by err_by p99_by unit h =
      backend_entries-HasRatio rps_by err_by p99_by unit (sorted (keys rps_by)) h
