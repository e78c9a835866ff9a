-- ===== src/Actuator/Router.antt =====
-- actuator/router.py: reading the HTTPRoute, and the read-modify-write of its weights.
pub mod Effects
pub mod Rounds
pub mod Retry
pub mod Runs
use samsung.Prelude.{
  ℕ, zero, suc, ◌+◌, ℤ, pos, eqb_ℤ, Bool, not, ◌&&◌, Option, none, some, List, [], ◌∷◌, ◌++◌, Text,
  codes, str_int, join, contains, ◌==◌, nonempty, if◌then◌else◌,
}
use samsung.Schemas.{Weights}
use samsung.Actuator.Cluster.{
  Reply, answer, api_exception, exception, Attempt, returned, raised, Route, Cluster, ActionOutcome,
  applied, skipped, failed,
}
use samsung.Actuator.Weights.{Targets, Pass, normalize_targets, apply_weights_to_route, versions}

-- What `_get_route` returns: a route with the version that served it, or the error.
pub data Fetched (X : Type 0) : Type 0 where
  fetched : Route X → Text → Fetched X
  not_fetched : Text → Fetched X

-- verb httproute ns/name
route_text : Text → Text → Text → Text
route_text verb namespace name = verb ++ (codes " httproute " ++ (namespace ++ (codes "/" ++ name)))

status_text : ℤ → Text → Text
status_text status reason = str_int status ++ (codes " " ++ reason)

-- the error once every version has answered 404; `last` is the last of the exceptions
exhausted_text : Text → Text → Option (ℤ × Text) → Text
unfolding route_text status_text
exhausted_text namespace name none = route_text (codes "get") namespace name ++ codes ": ? unknown"
exhausted_text namespace name (some (status, reason)) =
    route_text (codes "get") namespace name ++ (codes ": " ++ status_text status reason)

-- the error of an exception other than 404
version_text : Text → Text → Text → ℤ → Text → Text
unfolding route_text status_text
version_text v namespace name status reason =
    route_text (codes "get") namespace name
    ++ (codes " (v=" ++ (v ++ (codes "): " ++ status_text status reason)))

module _ {W X : Type 0} (c : Cluster W X) (namespace name : Text) where
  -- the end of one round of the loop; `next` is the rest of the loop, after a 404
  after_version :
      Text
      → (ℤ × Text → W → Attempt (Fetched X) × W)
      → Reply (Route X)
      → W
      → Attempt (Fetched X) × W
  after_version v next (answer route) w = (returned (fetched route v), w)
  after_version v next (api_exception status reason) w =
      if eqb_ℤ status (pos 404)
      then next (status, reason) w
      else (returned (not_fetched (version_text v namespace name status reason)), w)
  after_version v next (exception message) w = (raised message, w)

  -- the loop over the versions, with the exception of the round before
  fetch : List Text → Option (ℤ × Text) → W → Attempt (Fetched X) × W
  unfolding after_version
  fetch [] last w = (returned (not_fetched (exhausted_text namespace name last)), w)
  fetch (v ∷ vs) last w =
      let (r, w') = c.get_route v namespace name w in after_version v (λ e. fetch vs (some e)) r w'

  pub get_route : W → Attempt (Fetched X) × W
  unfolding fetch
  get_route w = fetch versions none w

-- `[b for b in targets if b not in matched]`
unmatched : List Text → Targets → List Text
unmatched matched [] = []
unmatched matched ((n, w) ∷ ts) =
    if contains n matched then unmatched matched ts else n ∷ unmatched matched ts

abbrev names : Targets → List Text
names [] = []
names ((n, w) ∷ ts) = n ∷ names ts

-- `x or default` of a text
abbrev text_or : Text → Text → Text
text_or x d = if nonempty x then x else d

note_if : Text → List Text → List Text
note_if label [] = []
note_if label (x ∷ xs) = (label ++ join (codes ", ") (x ∷ xs)) ∷ []

pub note_text : List Text → List Text → Text
unfolding note_if
note_text rejected missing =
    let notes = note_if (codes "거부됨: ") rejected ++ note_if (codes "route에 없는 backend: ") missing in
    if nonempty notes then codes " | " ++ join (codes "; ") notes else []

detail_text : List Text → Text → Text
detail_text summaries note =
    codes "["
    ++ (text_or (join (codes ", ") summaries) (codes "no backendRefs matched")
        ++ (codes "]" ++ note))

abbrev outcome_failed : Text → Text → ActionOutcome
outcome_failed detail error = record { status = failed; detail = detail; error = some error }

abbrev outcome_skipped : Text → ActionOutcome
outcome_skipped detail = record { status = skipped; detail = detail; error = none }

-- What a round of the loop ends with: `continue`, or a result.
pub data Round : Type 0 where
  again : Round
  stop : Attempt ActionOutcome → Round

module _ {W : Type 0} where
  -- the end of a round; `next` is the rest of the loop
  after_round : (W → Attempt ActionOutcome × W) → Round → W → Attempt ActionOutcome × W
  after_round next again w = next w
  after_round next (stop result) w = (result, w)

module _ {W X : Type 0} (c : Cluster W X) (namespace name : Text) where
  -- the outcome of the replace call of round `attempt`
  after_replace : ℕ → Text → Reply (Unit {0}) → Round
  after_replace attempt detail (answer _) =
      stop (returned (record { status = applied; detail = detail; error = none }))
  after_replace attempt detail (api_exception status reason) =
      if eqb_ℤ status (pos 409) && attempt == 0
      then again
      else stop (
          returned (
            outcome_failed (codes "replace 실패 " ++ detail) (
              route_text (codes "replace") namespace name
              ++ (codes ": " ++ status_text status reason))))
  after_replace attempt detail (exception message) = stop (raised message)

  pub replace_with : ℕ → Text → Text → Route X → W → Round × W
  unfolding after_replace
  replace_with attempt version detail route w =
      let (r, w') = c.replace_route version namespace name route w in
      (after_replace attempt detail r, w')

  -- from the pass over the route on
  write_back : ℕ → Targets → List Text → Bool → Text → Pass (Route X) → W → Round × W
  write_back attempt targets rejected dry_run version p w =
      let note = note_text rejected (unmatched p.matched targets) in
      let detail = detail_text p.summaries note in
      let replaced = replace_with attempt version detail p.result w in
      if not (nonempty p.matched)
      then (
        stop (
            returned (
              outcome_failed (codes "httproute/" ++ name)
                (codes "지정한 backend가 route에 없음: " ++ (join (codes ", ") (names targets) ++ note)))),
        w,
      )
      else if not p.changed
      then (stop (returned (outcome_skipped (codes "이미 목표 상태 " ++ detail))), w)
      else if dry_run
      then (stop (returned (outcome_skipped (codes "[dry-run] " ++ detail))), w)
      else replaced

  after_get : ℕ → Targets → List Text → Bool → Attempt (Fetched X) → W → Round × W
  unfolding write_back
  after_get attempt targets rejected dry_run (returned (fetched route version)) w =
      write_back attempt targets rejected dry_run version (apply_weights_to_route targets route) w
  after_get attempt targets rejected dry_run (returned (not_fetched error)) w =
      (stop (returned (outcome_failed (codes "httproute/" ++ (name ++ codes " 조회 실패")) error)), w)
  after_get attempt targets rejected dry_run (raised message) w = (stop (raised message), w)

  pub one_round : ℕ → Targets → List Text → Bool → W → Round × W
  unfolding after_get
  one_round attempt targets rejected dry_run w =
      let (g, w') = get_route c namespace name w in after_get attempt targets rejected dry_run g w'

  -- `for attempt in range(2)`: the rounds left, and the index of the next
  pub rounds : ℕ → ℕ → Targets → List Text → Bool → W → Attempt ActionOutcome × W
  rounds zero attempt targets rejected dry_run w = (
    returned
        (outcome_failed (codes "httproute/" ++ name) (codes "resourceVersion 충돌(409) 재시도 후에도 실패")),
    w,
  )
  rounds (suc left) attempt targets rejected dry_run w =
      let (r, w') = one_round attempt targets rejected dry_run w in
      after_round (rounds left (attempt + 1) targets rejected dry_run) r w'

  pub set_backend_weights : Weights → Bool → W → Attempt ActionOutcome × W
  set_backend_weights weights dry_run w =
      let (targets, rejected) = normalize_targets weights in
      let run = rounds 2 0 targets rejected dry_run w in
      if nonempty targets then run else (
        returned (
            outcome_failed (codes "적용 가능한 backend weight 없음") (
              codes "모든 weight 항목이 유효하지 않음: "
              ++ text_or (join (codes ", ") rejected) (codes "(빈 맵)"))),
        w,
      )
