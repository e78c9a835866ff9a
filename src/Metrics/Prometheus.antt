-- ===== src/Metrics/Prometheus.antt =====
-- metrics/prometheus_client.py: the query with its retries, and the reading of a response.
pub mod Attempts
use samsung.Prelude.{
  ℕ, zero, suc, ℤ, pos, eqb_ℤ, not, Bool, false, Option, none, some, List, [], ◌∷◌, ◌++◌, Text,
  codes, text_eq, str_int, if◌then◌else◌, or_else, repr,
}

-- a value of the JSON response, as `float()` takes it
pub data Raw : Type 0 where
  text : Text → Raw
  number : Text → Raw
  other : Raw

-- An item of `result`: an object with its labels and its `value`, or a value that is no object, which
-- has no method `get`.
pub data Item (L : Type 0) : Type 0 where
  object : L → Option (List Raw) → Item L
  plain : Raw → Item L

-- the `data` of a response
pub record Vector (L : Type 0) : Type 0 where
  pub result_type : Option Text
  pub result : List (Item L)

-- What a response has in it; `parsed` is its JSON, with the texts of its status and error.
pub data Body (L : Type 0) : Type 0 where
  not_json : Text → Body L
  parsed : Text → Text → Vector L → Body L

-- What `session.get` does: it raises, or it answers with a status code.
pub data Fetch (L : Type 0) : Type 0 where
  raises : Text → Fetch L
  response : ℤ → Body L → Fetch L

-- The HTTP session, as a parameter; `W` is all that its calls can see and change.
pub record Session (W L : Type 0) : Type 0 where
  pub get : Text → W → Fetch L × W

-- What the code uses of Python's `float()`: its value, or none where it raises ValueError or TypeError.
pub record FloatText (F : Type 0) : Type 0 where
  pub parse : Raw → Option F
  pub nan : F

pub record Sample (F L : Type 0) : Type 0 where
  pub labels : Option L
  pub value : F

-- What one attempt ends with.
pub data Try (F L : Type 0) : Type 0 where
  samples : List (Sample F L) → Try F L
  error : Text → Try F L

abbrev no_get : Text
no_get = codes "object has no attribute 'get'"

module _ {F : Type 0} ⦃ft : FloatText F⦄ where
  -- `_to_float`
  to_float : Raw → F
  to_float raw = or_else (ft.parse raw) ft.nan

is_scalar_type : Option Text → Bool
is_scalar_type none = false
is_scalar_type (some t) = text_eq t (codes "scalar")

module _ {F L : Type 0} ⦃ft : FloatText F⦄ where
  -- `float` of an item that is an object raises TypeError
  item_value : Item L → F
  unfolding to_float
  item_value (object labels value) = to_float other
  item_value (plain raw) = to_float raw

  -- `data["result"][1]` of a scalar
  scalar_sample : List (Item L) → Try F L
  unfolding item_value
  scalar_sample [] = error (codes "list index out of range")
  scalar_sample (i ∷ is) = samples (record { labels = none; value = item_value i } ∷ [])

  -- the sample of an object, where its value has at least two parts
  value_sample : L → Option (List Raw) → List (Sample F L)
  unfolding to_float
  value_sample labels (some (t ∷ v ∷ vs)) = record { labels = some labels; value = to_float v } ∷ []
  value_sample labels _ = []

  and_then : List (Sample F L) → Try F L → Try F L
  and_then xs (samples ys) = samples (xs ++ ys)
  and_then xs (error e) = error e

  -- the loop over the items; `is_scalar` is the test of the result type
  pub read_items : Bool → List (Item L) → Try F L
  unfolding scalar_sample value_sample and_then
  read_items is_scalar [] = samples []
  read_items is_scalar (plain raw ∷ is) = error no_get
  read_items is_scalar (object labels value ∷ is) =
      let rest = read_items is_scalar is in
      if is_scalar then scalar_sample is else and_then (value_sample labels value) rest

  pub parse_vector : Vector L → Try F L
  unfolding read_items is_scalar_type
  parse_vector v = read_items (is_scalar_type v.result_type) v.result

  -- one response; `promql` is shown in the errors
  read_body : Text → Body L → Try F L
  unfolding parse_vector
  read_body promql (not_json message) = error message
  read_body promql (parsed status message v) =
      if text_eq status (codes "success")
      then parse_vector v
      else error (
          codes "Prometheus status="
          ++ (status
              ++ (codes " error=" ++ (repr message ++ (codes " for query=" ++ repr promql)))))

  pub read_fetch : Text → Fetch L → Try F L
  unfolding read_body
  read_fetch promql (raises message) = error message
  read_fetch promql (response status body) =
      if not (eqb_ℤ status (pos 200))
      then error
          (codes "Prometheus HTTP " ++ (str_int status ++ (codes " for query=" ++ repr promql)))
      else read_body promql body

  final_error : Text → Option Text → Try F L
  final_error promql last = error (
      codes "Prometheus query 최종 실패 (query="
      ++ (repr promql ++ (codes "): " ++ or_else last (codes "None"))))

  module _ {W : Type 0} (session : Session W L) (promql : Text) where
    -- the attempts that are left, with the error of the one before
    pub attempts : ℕ → Option Text → W → Try F L × W
    unfolding final_error
    attempts zero last w = (final_error promql last, w)
    attempts (suc left) last w =
        let (f, w') = session.get promql w in
        elim (read_fetch promql f) [
          | samples xs ↦ (samples xs, w')
          | error e ↦ attempts left (some e) w'
        ]

    -- `query` of a client with a session and so many retries
    pub query : ℕ → W → Try F L × W
    query retries w = attempts (suc retries) none w
