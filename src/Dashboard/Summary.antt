-- ===== src/Dashboard/Summary.antt =====
-- dashboard/hubble_flows.py, `fetch_summary`: the cached fetch, and the summary of what it gives.
use samsung.Prelude.{ℤ, Option, none, some, List, [], Text, Float, ◌≡◌, refl}
use samsung.Hubble.Lines.{Decoder}
use samsung.Hubble.Fetch.{Command, unavailable, fetch_flows}
use samsung.Dashboard.FlowCache.{Entry, cached_flows, fetch_flows_cached, answer_of, after_call}
use samsung.Dashboard.Flows.{FlowSummary, failed_summary, summary_of}

module _ {F W : Type 0} ⦃fl : Float F⦄ (d : Decoder F) (h : Command W) (ttl : F)
    (system_namespaces : List Text) (last : ℤ) (scope : Text) (namespace focus : Option Text)
    (order : List Text → List Text) (now : F) where
  -- none where an exception gets out; `top_n` has its default
  pub fetch_summary : Option (Entry F) → W → Option FlowSummary × Option (Entry F) × W
  unfolding fetch_flows_cached summary_of
  fetch_summary cache w =
      let (r, cache', w') = fetch_flows_cached d h ttl last now cache w in
      (summary_of system_namespaces 15 scope namespace focus order r, cache', w')

  -- Where the cache does not serve and hubble is not available, the summary shows an error, and the cache
  -- stays as it was, so that the next request calls the command again.
  fetch_summary_unavailable :
      (cache : Option (Entry F)) (w : W)
      → cached_flows d h ttl last now cache ≡ none
      → (fetch_flows d h last [] w).0 ≡ unavailable
      → fetch_summary cache w
        ≡ (some (failed_summary scope namespace focus), cache, (fetch_flows d h last [] w).1)
  unfolding fetch_summary fetch_flows_cached answer_of after_call summary_of
  fetch_summary_unavailable cache w stale failed = rw (stale, failed) refl
