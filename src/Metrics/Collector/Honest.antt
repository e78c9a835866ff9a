-- ===== src/Metrics/Collector/Honest.antt =====
-- What a snapshot of the collector promises to the policy (metrics/collector.py, `collect`).
use samsung.Prelude.{
  Bool-cases, true, Option, none, some, List, [], Text, ◌≡◌, ◌≢◌, refl, ap, ◌⊎◌, inl, inr, Float,
  All, ℤ, arith,
}
use samsung.Schemas.{SnapshotStatus, ok, no_data, collection_failed, TrafficSnapshot, Target, Spec}
use samsung.Actuator.Environment.{present}
use samsung.Actuator.Executor.{target_of_spec}
use samsung.Metrics.Prometheus.{FloatText}
use samsung.Metrics.Adapters.{Impl, get_adapter}
use samsung.Metrics.Window.{parse_window}
use samsung.Metrics.Calls.{Call, Holds, >>=-Holds, >>=-Holds-from, return}
use samsung.Metrics.Values.{scalar}
use samsung.Metrics.Values.Ratios.{
  Ieee, IsRatio, safe_ratio-IsRatio, HasRatio, join_backends-HasRatio, vector-AreNumbers,
  scalar_finite, or_zero-IsNumber,
}
use samsung.Metrics.HubbleCollector.{empty_snapshot}
use samsung.Metrics.Collector.{
  Sources, MetricsConfig, build_per_backend, observed, after_total, collect_route, is_hubble_name,
  resolve_impl, client_url, attempt, handled, collect, collect_in,
}

module _ {F : Type 0} ⦃fl : Float F⦄ where
  -- no metric is given
  pub record IsEmpty (s : TrafficSnapshot F) : Type 0 where
    pub status_not_ok : s.status ≢ ok
    pub no_rps : s.rps ≡ none
    pub no_error_rate : s.error_rate ≡ none
    pub no_p50 : s.p50_latency_ms ≡ none
    pub no_p95 : s.p95_latency_ms ≡ none
    pub no_p99 : s.p99_latency_ms ≡ none
    pub no_pods : s.total_ready_pods ≡ none
    pub no_backends : s.per_backend ≡ []

  -- the rates are given, the ratios of errors among them
  pub record IsMeasured (s : TrafficSnapshot F) : Type 0 where
    pub status_ok : s.status ≡ ok
    pub rps_given : (x : F) × (s.rps ≡ some x)
    pub error_ratio : (r : F) × (s.error_rate ≡ some r) × IsRatio r
    pub backend_ratios : All HasRatio s.per_backend

  -- A snapshot is either without any metric and not "ok", or "ok" with its rates.
  abbrev pub IsHonest : TrafficSnapshot F → Type 0
  IsHonest s = IsEmpty s ⊎ IsMeasured s

  pub empty_snapshot-IsEmpty :
      (status : SnapshotStatus) (now : F) (seconds : ℤ)
      → status ≢ ok
      → IsEmpty (empty_snapshot status now seconds)
  unfolding empty_snapshot
  empty_snapshot-IsEmpty status now seconds h = record {
    status_not_ok = h;
    no_rps = refl;
    no_error_rate = refl;
    no_p50 = refl;
    no_p95 = refl;
    no_p99 = refl;
    no_pods = refl;
    no_backends = refl;
  }

  failed-IsHonest :
      (now : F) (seconds : ℤ) → IsHonest (empty_snapshot collection_failed now seconds)
  failed-IsHonest now seconds =
      inl (empty_snapshot-IsEmpty collection_failed now seconds (λ e. ground arith))

  no_data-IsHonest : (now : F) (seconds : ℤ) → IsHonest (empty_snapshot no_data now seconds)
  no_data-IsHonest now seconds =
      inl (empty_snapshot-IsEmpty no_data now seconds (λ e. ground arith))

module _ {F W L : Type 0} ⦃fl : Float F⦄ ⦃ft : FloatText F⦄ (laws : Ieee F)
    (s : Sources F W L) where
  build_per_backend-HasRatio :
      (url : Text) (adapter : Impl) (bk_q : List (Text × Text)) (w : W)
      → Holds (All HasRatio) (build_per_backend s url adapter bk_q w).0
  unfolding build_per_backend
  build_per_backend-HasRatio url adapter bk_q w =
      >>=-Holds (All HasRatio) _ _
        (λ rps. >>=-Holds (All HasRatio) _ _ (λ errors.
          >>=-Holds (All HasRatio) _ _
            (λ p99 w'. join_backends-HasRatio laws _ _ _ _ (vector-AreNumbers laws _ _ errors))))
        w

  observed-IsHonest :
      (url : Text) (adapter : Impl) (target : Target) (route window : Text) (seconds : ℤ)
      (now total : F) (w : W)
      → fl.finite total ≡ true
      → Holds IsHonest (observed s url adapter target route window seconds now total w).0
  unfolding observed
  observed-IsHonest url adapter target route window seconds now total w f =
      >>=-Holds IsHonest _ _
        (λ errors. >>=-Holds IsHonest _ _ (λ p50. >>=-Holds IsHonest _ _ (λ p95.
          >>=-Holds IsHonest _ _ (λ p99 w'.
            >>=-Holds-from IsHonest _ _ (All HasRatio) w'
              (build_per_backend-HasRatio url adapter _ w')
              (λ backends ratios. >>=-Holds IsHonest _ _ (λ ready w''. inr (record {
                status_ok = refl;
                rps_given = (total, refl);
                error_ratio = (
                  _,
                  refl,
                  safe_ratio-IsRatio laws _ total
                      (or_zero-IsNumber laws (scalar errors) (scalar_finite laws errors)) f,
                );
                backend_ratios = ratios;
              })))))))
        w

  collect_route-IsHonest :
      (url : Text) (adapter : Impl) (target : Target) (route window : Text) (seconds : ℤ) (now : F)
      (w : W)
      → Holds IsHonest (collect_route s url adapter target route window seconds now w).0
  unfolding collect_route after_total
  collect_route-IsHonest url adapter target route window seconds now w =
      >>=-Holds IsHonest _ _ (λ total. by_total (scalar total) (scalar_finite laws total)) w
    where
      by_total :
          (o : Option F)
          → ((x : F) → o ≡ some x → fl.finite x ≡ true)
          → (w : W)
          → Holds IsHonest (after_total s url adapter target route window seconds now o w).0
      by_total none f w' = no_data-IsHonest now seconds
      by_total (some rps) f w' =
          observed-IsHonest url adapter target route window seconds now rps w' (f rps refl)

  attempt-IsHonest :
      (spec : Spec F) (cfg : Option MetricsConfig) (window : Text) (seconds : ℤ) (now : F)
      → ((target : Target) (w : W) → Holds IsHonest (s.hubble target seconds now w).0)
      → (w : W) → Holds IsHonest (attempt s spec cfg window seconds now w).0
  unfolding attempt
  attempt-IsHonest spec cfg window seconds now h w =
      elim (Bool-cases (is_hubble_name (resolve_impl s cfg))) [
        | inl e ↦ rw e (h (target_of_spec spec) w)
        | inr e ↦ rw e (by_route (present (target_of_spec spec).http_route))
      ]
    where
      by_route :
          (o : Option Text)
          → Holds IsHonest
              ((elim o as (λ o. Call W (TrafficSnapshot F)) [
                | none ↦ return (empty_snapshot collection_failed now seconds)
                | some route ↦
                    collect_route s
                      (client_url s cfg)
                      (get_adapter (some (resolve_impl s cfg)))
                      (target_of_spec spec)
                      route
                      window
                      seconds
                      now
              ])
                w).0
      by_route none = failed-IsHonest now seconds
      by_route (some route) =
          collect_route-IsHonest (client_url s cfg) (get_adapter (some (resolve_impl s cfg)))
            (target_of_spec spec) route window seconds now w

  handled-IsHonest :
      (seconds : ℤ) (now : F) (r : Option (TrafficSnapshot F) × W)
      → Holds IsHonest r.0
      → IsHonest (handled s seconds now r).0
  unfolding handled
  handled-IsHonest seconds now (none, w) h = failed-IsHonest now seconds
  handled-IsHonest seconds now (some snapshot, w) h = h

  -- With floats that follow IEEE 754, where the window can be read, a collection gives a snapshot, whatever
  -- the calls do and whatever values, NaN and infinities among them, come back. The snapshot is either
  -- not "ok" and without any metric, or "ok" with its rate and a ratio of errors that is a number from
  -- 0 to 1, each backend having such a ratio too unless its rate, a sum, is not finite; provided the
  -- snapshots of the Hubble collector are so.
  pub collect-IsHonest :
      (spec : Spec F) (cfg : Option MetricsConfig) (now : F) (window : Text) (seconds : ℤ) (w : W)
      → ((target : Target) (w : W) → Holds IsHonest (s.hubble target seconds now w).0)
      → parse_window F spec.window ≡ some (window, seconds)
      → (r : TrafficSnapshot F × W) × (collect s spec cfg now w ≡ some r) × IsHonest r.0
  unfolding collect collect_in
  collect-IsHonest spec cfg now window seconds w h e = (
    handled s seconds now (attempt s spec cfg window seconds now w),
    ap (λ o. collect_in s spec cfg now o w) e,
    handled-IsHonest seconds now _ (attempt-IsHonest spec cfg window seconds now h w),
  )
