-- ===== src/Dashboard/FlowCache.antt =====
-- dashboard/hubble_flows.py, `_fetch_flows_cached`: the cache in front of the hubble command. The
-- lock lets one request through at a time, so that the requests are a sequence.
pub mod Sharing
use samsung.Prelude.{
  ℤ, eqb_ℤ, Bool, true, false, ◌&&◌, Option, none, some, List, [], ◌∷◌, Float, if◌then◌else◌,
}
use samsung.Hubble.{FlowEvent}
use samsung.Hubble.Lines.{Decoder}
use samsung.Hubble.Fetch.{Command, Fetched, events, unavailable, crashed, fetch_flows}

-- What a success leaves: its time, the number of flows asked for, and the flows. `_flows_cache` has
-- all three or none.
pub record Entry (F : Type 0) : Type 0 where
  pub ts : F
  pub last : ℤ
  pub flows : List (FlowEvent F)

module _ {F W : Type 0} ⦃fl : Float F⦄ (d : Decoder F) (h : Command W) (ttl : F) where
  -- the flows of an entry that serves this request
  pub cached_flows : ℤ → F → Option (Entry F) → Option (List (FlowEvent F))
  cached_flows last now none = none
  cached_flows last now (some e) =
      if eqb_ℤ e.last last && fl.lt (fl.sub now e.ts) ttl then some e.flows else none

  -- the cache after a call of the command: an error is not kept
  unfoldable pub after_call : ℤ → F → Option (Entry F) → Fetched F → Option (Entry F)
  after_call last now cache (events es) = some (record { ts = now; last = last; flows = es })
  after_call last now cache unavailable = cache
  after_call last now cache crashed = cache

  unfoldable pub answer_of :
      ℤ → F → Option (Entry F) → Option (List (FlowEvent F)) → W → Fetched F × Option (Entry F) × W
  unfolding after_call
  answer_of last now cache (some es) w = (events es, cache, w)
  answer_of last now cache none w =
      let (r, w') = fetch_flows d h last [] w in (r, after_call last now cache r, w')

  unfoldable pub fetch_flows_cached :
      ℤ → F → Option (Entry F) → W → Fetched F × Option (Entry F) × W
  unfolding cached_flows answer_of
  fetch_flows_cached last now cache w = answer_of last now cache (cached_flows last now cache) w
