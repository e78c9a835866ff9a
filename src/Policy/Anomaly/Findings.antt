-- ===== src/Policy/Anomaly/Findings.antt =====
-- The severity and the culprits of policy/anomaly.py.
use samsung.Prelude.{
  ◌≡◌, refl, ap, ◌∙◌, Bool, true, false, not, ◌&&◌, ◌||◌, Option, none, some, List, [], ◌∷◌, Text,
  Float, nonempty, All, ◌⊎◌, inl, inr, if_keeps, subst, sym, Option-cases, if◌then◌else◌, arith,
}
use samsung.Schemas.{BackendTraffic, TrafficSnapshot, Severity, calm, is_critical}
use samsung.Policy.Baseline.{Stat, Baseline, warm}
use samsung.Policy.Anomaly.{
  any_anomaly, signal, error_signal, latency_signal, assemble, severity_of, assess_anomaly,
  split_backends, find_culprit_backends,
}

abbrev pub is_calm : Severity → Bool
is_calm calm = true
is_calm _ = false

severity_of_flags :
    (w es ee ls le : Bool)
    → (not w && (ee || le)) ≡ false
    → let s = severity_of w es ee ls le in
      (is_critical s ≡ ((es && ee) || (ls && le)))
      × ((is_critical s && not w) ≡ false)
      × (is_calm s ≡ not ((es || ee) || (ls || le)))
unfolding severity_of is_critical
severity_of_flags w es ee ls le h = (ground arith, ground arith, ground arith)

module _ {F : Type 0} ⦃fl : Float F⦄ where
  signal_cold :
      (w : Bool) (s : Stat F) (x limit : Option F) (f : F → F → Text) (g : F → Text)
      → (not w && (signal w s x limit f g).ewma_breach) ≡ false
  unfolding signal
  signal_cold true s x limit f g = refl
  signal_cold false s (some x) (some limit) f g = refl
  signal_cold false s (some x) none f g = refl
  signal_cold false s none limit f g = refl

  -- The severity is critical exactly if one metric shows both of its signals, which never happens
  -- while the baseline is not warm, and it is none exactly if no signal is shown.
  pub assess_anomaly-severity :
      (s : TrafficSnapshot F) (b : Baseline F) (rate limit : Option F)
      → let a = assess_anomaly s b rate limit in
        (is_critical a.severity
          ≡ ((a.error_static && a.error_ewma) || (a.latency_static && a.latency_ewma)))
        × ((is_critical a.severity && not (warm b)) ≡ false)
        × (is_calm a.severity ≡ not (any_anomaly a))
  unfolding assess_anomaly assemble
  assess_anomaly-severity s b rate limit =
      let e = error_signal s b rate in
      let l = latency_signal s b limit in
      severity_of_flags (warm b) e.static_breach e.ewma_breach l.static_breach l.ewma_breach (
        cold (warm b) e.ewma_breach l.ewma_breach
          (unfold error_signal in signal_cold (warm b) b.error_rate s.error_rate rate _ _)
          (unfold latency_signal in
            signal_cold (warm b) b.p99_latency_ms s.p99_latency_ms limit _ _))
    where
      cold :
          (w x y : Bool) → (not w && x) ≡ false → (not w && y) ≡ false → (not w && (x || y)) ≡ false
      cold w x y h k = ground arith

module _ {F : Type 0} ⦃fl : Float F⦄ (rate : F) where
  -- a backend whose rate compares to the limit as given
  pub record Rated (above : Bool) (b : BackendTraffic F) : Type 0 where
    pub value : F
    pub has_rate : b.error_rate ≡ some value
    pub compares : fl.lt rate value ≡ above

  -- Some backend has this name and a rate above the limit.
  abbrev pub Breaches : Text → List (BackendTraffic F) → Type 0
  Breaches n [] = ⊥
  Breaches n (b ∷ bs) = ((b.name ≡ n) × Rated true b) ⊎ Breaches n bs

  -- Some backend has a rate that is not above the limit.
  abbrev pub Spares : List (BackendTraffic F) → Type 0
  Spares [] = ⊥
  Spares (b ∷ bs) = Rated false b ⊎ Spares bs

  weaken :
      (b : BackendTraffic F) (bs : List (BackendTraffic F)) (ns : List Text)
      → All (λ n. Breaches n bs) ns
      → All (λ n. Breaches n (b ∷ bs)) ns
  weaken b bs [] h = tt
  weaken b bs (n ∷ ns) h = (inr h.0, weaken b bs ns h.1)

  -- what a split of a list of backends shows of it
  abbrev Split : List (BackendTraffic F) → List Text × List Text → Type 0
  Split bs (breaching, healthy) =
      All (λ n. Breaches n bs) breaching × (nonempty healthy ≡ true → Spares bs)

  split_none :
      (b : BackendTraffic F) (bs : List (BackendTraffic F))
      → b.error_rate ≡ none
      → split_backends rate (b ∷ bs) ≡ split_backends rate bs
  unfolding split_backends
  split_none b bs e = rw e refl

  split_some :
      (b : BackendTraffic F) (bs : List (BackendTraffic F)) (x : F)
      → b.error_rate ≡ some x
      → split_backends rate (b ∷ bs) ≡ (
          if fl.lt rate x
          then (b.name ∷ (split_backends rate bs).0, (split_backends rate bs).1)
          else ((split_backends rate bs).0, b.name ∷ (split_backends rate bs).1))
  unfolding split_backends
  split_some b bs x e = rw e refl

  rated_backend-Split :
      (b : BackendTraffic F) (bs : List (BackendTraffic F)) (x : F) (above : Bool)
      (p : List Text × List Text)
      → b.error_rate ≡ some x
      → fl.lt rate x ≡ above
      → Split bs p
      → Split (b ∷ bs) (if above then (b.name ∷ p.0, p.1) else (p.0, b.name ∷ p.1))
  rated_backend-Split b bs x true p e k (breaches, spares) = (
    (inl (refl, record { value = x; has_rate = e; compares = k }), weaken b bs p.0 breaches),
    λ h. inr (spares h),
  )
  rated_backend-Split b bs x false p e k (breaches, spares) =
      (weaken b bs p.0 breaches, λ h. inl (record { value = x; has_rate = e; compares = k }))

  split_backends-Split : (bs : List (BackendTraffic F)) → Split bs (split_backends rate bs)
  split_backends-Split [] = unfold split_backends in (tt, λ h. cc)
  split_backends-Split (b ∷ bs) =
      by_rate (split_backends rate bs) (split_backends-Split bs) (split_none b bs) (split_some b bs)
        (Option-cases b.error_rate)
    where
      by_rate :
          (p : List Text × List Text)
          → Split bs p
          → (b.error_rate ≡ none → split_backends rate (b ∷ bs) ≡ p)
          → ((x : F)
              → b.error_rate ≡ some x
              → split_backends rate (b ∷ bs)
                ≡ (if fl.lt rate x then (b.name ∷ p.0, p.1) else (p.0, b.name ∷ p.1)))
          → (b.error_rate ≡ none) ⊎ ((x : F) × (b.error_rate ≡ some x))
          → Split (b ∷ bs) (split_backends rate (b ∷ bs))
      by_rate p (breaches, spares) absent present (inl e) =
          subst (Split (b ∷ bs)) (sym (absent e)) (weaken b bs p.0 breaches, λ h. inr (spares h))
      by_rate p split absent present (inr (x, e)) =
          subst (Split (b ∷ bs)) (sym (present x e))
            (rated_backend-Split b bs x (fl.lt rate x) p e refl split)

  -- Every culprit is the name of a backend whose error rate is above the limit.
  pub find_culprit_backends-Breaches :
      (bs : List (BackendTraffic F))
      → All (λ n. Breaches n bs) (find_culprit_backends bs (some rate))
  unfolding find_culprit_backends
  find_culprit_backends-Breaches bs =
      if_keeps (All (λ n. Breaches n bs))
        (nonempty (split_backends rate bs).0 && nonempty (split_backends rate bs).1)
        (split_backends-Split bs).0 tt

  -- Where there is a culprit, some backend has a rate that is not above the limit.
  pub find_culprit_backends-Spares :
      (bs : List (BackendTraffic F))
      → nonempty (find_culprit_backends bs (some rate)) ≡ true
      → Spares bs
  unfolding find_culprit_backends
  find_culprit_backends-Spares bs h =
      (split_backends-Split bs).1 (both (split_backends rate bs).0 (split_backends rate bs).1 h)
    where
      both :
          (x y : List Text)
          → nonempty (if nonempty x && nonempty y then x else []) ≡ true
          → nonempty y ≡ true
      both x y k = ground arith

module _ {F : Type 0} ⦃fl : Float F⦄ where
  -- without backends, no culprits
  pub assess_anomaly_no_backends :
      (s : TrafficSnapshot F) (b : Baseline F) (rate limit : Option F)
      → s.per_backend ≡ []
      → (assess_anomaly s b rate limit).culprit_backends ≡ []
  unfolding assess_anomaly assemble
  assess_anomaly_no_backends s b rate limit h =
      ap (λ bs. find_culprit_backends bs rate) h ∙ no_culprits rate
    where
      no_culprits : (rate : Option F) → find_culprit_backends [] rate ≡ []
      no_culprits none = unfold find_culprit_backends in refl
      no_culprits (some r) = unfold find_culprit_backends split_backends in refl
