-- ===== src/Dashboard/FlowCache/Sharing.antt =====
-- Requests share one run of the hubble command (dashboard/hubble_flows.py, `_fetch_flows_cached`).
use samsung.Prelude.{
  ℤ, eqb_ℤ, true, Option, none, some, List, [], ◌∷◌, Float, All, ◌≡◌, refl, arith,
}
use samsung.Hubble.{FlowEvent}
use samsung.Hubble.Lines.{Decoder}
use samsung.Hubble.Fetch.{Command, Fetched, events, fetch_flows}
use samsung.Dashboard.FlowCache.{Entry, cached_flows, after_call, answer_of, fetch_flows_cached}

module _ {F W : Type 0} ⦃fl : Float F⦄ (d : Decoder F) (h : Command W) (ttl : F) where
  -- the answers of requests at these times, one after another
  abbrev pub serve : ℤ → List F → Option (Entry F) → W → List (Fetched F) × Option (Entry F) × W
  serve last [] cache w = ([], cache, w)
  serve last (t ∷ ts) cache w =
      let (r, cache', w') = fetch_flows_cached d h ttl last t cache w in
      let (rs, cache'', w'') = serve last ts cache' w' in (r ∷ rs, cache'', w'')

  abbrev pub all_events : List F → List (FlowEvent F) → List (Fetched F)
  all_events [] es = []
  all_events (t ∷ ts) es = events es ∷ all_events ts es

  -- a time within the lifetime of an entry of time `start`
  abbrev pub IsSoon : F → F → Type 0
  IsSoon start t = fl.lt (fl.sub t start) ttl ≡ true

  eqb_refl : (z : ℤ) → eqb_ℤ z z ≡ true
  eqb_refl z = ground arith

  entry_serves :
      (last : ℤ) (start t : F) (es : List (FlowEvent F)) (w : W)
      → IsSoon start t
      → fetch_flows_cached d h ttl last t (some (record { ts = start; last = last; flows = es })) w
        ≡ (events es, some (record { ts = start; last = last; flows = es }), w)
  unfolding fetch_flows_cached cached_flows answer_of
  entry_serves last start t es w soon = rw (eqb_refl last, soon) refl

  serve_from_entry :
      (last : ℤ) (start : F) (ts : List F) (es : List (FlowEvent F)) (w : W)
      → All (IsSoon start) ts
      → serve last ts (some (record { ts = start; last = last; flows = es })) w
        ≡ (all_events ts es, some (record { ts = start; last = last; flows = es }), w)
  serve_from_entry last start [] es w soon = refl
  serve_from_entry last start (t ∷ ts) es w soon =
      rw (entry_serves last start t es w soon.0, serve_from_entry last start ts es w soon.1) refl

  -- Where the first request finds no entry and the command succeeds, the requests that follow within
  -- the lifetime get the same flows, and the command runs once for all of them: the world is the one
  -- that its first run left.
  pub fetch_flows_cached_shares :
      (last : ℤ) (start : F) (ts : List F) (es : List (FlowEvent F)) (w : W)
      → (fetch_flows d h last [] w).0 ≡ events es
      → All (IsSoon start) ts
      → serve last (start ∷ ts) none w ≡ (
        all_events (start ∷ ts) es,
        some (record { ts = start; last = last; flows = es }),
        (fetch_flows d h last [] w).1,
      )
  unfolding fetch_flows_cached cached_flows answer_of after_call
  fetch_flows_cached_shares last start ts es w fetched soon =
      rw (fetched, serve_from_entry last start ts es (fetch_flows d h last [] w).1 soon) refl
