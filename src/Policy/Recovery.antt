-- ===== src/Policy/Recovery.antt =====
-- policy/engine.py: the state of a recovery, which travels from one reconcile to the next inside
-- the reason of the reroute decision.
pub mod Digits
pub mod RoundTrip
pub mod Rounds
use samsung.Prelude.{
  ℕ, ◌+◌, ◌-◌, ◌*◌, ◌/◌, ℤ, pos, ◌-ℤ◌, pos_part, ltb_ℤ, min_ℤ, Bool, true, false, ◌&&◌, Option,
  none, some, List, [], ◌∷◌, ◌++◌, Text, codes, str_nat, join, number, split_from, insert_name, leb,
  ltb, ◌==◌, or_else, nonempty, if◌then◌else◌, ◌>>=◌,
}
use samsung.Schemas.{ActionType, reroute, int, not_int, Weights}
use samsung.Policy.Status.{Status, Previous, prev_decision}

abbrev pub healthy_weight : ℤ
healthy_weight = pos 100

abbrev pub assumed_max_weight_step : ℕ
assumed_max_weight_step = 30

pub record Marker : Type 0 where
  pub done : ℕ
  pub total : ℕ
  pub backends : List Text

-- the rest of the text behind a literal
pub strip : Text → Text → Option Text
strip [] s = some s
strip (c ∷ p) [] = none
strip (c ∷ p) (d ∷ s) = if c == d then strip p s else none

-- `([^\]]*)\]`, without what follows
pub until_bracket : Text → Option Text
until_bracket [] = none
until_bracket (c ∷ s) = if c == b']' then some [] else (do r ← until_bracket s; some (c ∷ r))

-- `[b for b in parts if b]`
drop_empty : List Text → List Text
drop_empty [] = []
drop_empty (p ∷ ps) = if nonempty p then p ∷ drop_empty ps else drop_empty ps

-- the groups of `_RECOVERY_MARKER_RE` where it matches at the head of the text
pub match_marker : Text → Option (ℕ × ℕ × Text)
unfolding strip number until_bracket
match_marker s = do
  a ← strip (codes "[recovery done=") s
  (done, b) ← number a
  c ← strip (codes " total=") b
  (total, d) ← number c
  e ← strip (codes " backends=") d
  names ← until_bracket e
  some (done, total, names)

-- `_RECOVERY_MARKER_RE.search`
pub search_marker : Text → Option (ℕ × ℕ × Text)
search_marker [] = none
search_marker (c ∷ s) = elim (match_marker (c ∷ s)) [ some m ↦ some m | none ↦ search_marker s ]

pub split_names : Text → List Text
unfolding split_from drop_empty
split_names names = drop_empty (split_from b',' [] names)

-- the marker of the three groups, if it names a backend
marker_of : ℕ × ℕ × Text → Option Marker
unfolding split_names
marker_of (done, total, names) =
    if nonempty (split_names names)
    then some (record { done = done; total = total; backends = split_names names })
    else none

pub parse_recovery_marker : Text → Option Marker
unfolding search_marker marker_of
parse_recovery_marker reason = do m ← search_marker reason; marker_of m

-- the literal that the reroute reason ends with
pub print_marker : Marker → Text
print_marker m =
    codes "[recovery done="
    ++ (str_nat m.done
        ++ (codes " total="
            ++ (str_nat m.total
                ++ (codes " backends=" ++ (join (codes ",") m.backends ++ codes "]")))))

-- the backends whose weight is a number below the healthy weight
unfoldable pub degraded : Weights → List (Text × ℤ)
degraded [] = []
degraded ((name, int w) ∷ ws) =
    if ltb_ℤ w healthy_weight then (name, w) ∷ degraded ws else degraded ws
degraded ((name, not_int r) ∷ ws) = degraded ws

pub lowest : ℤ → List (Text × ℤ) → ℤ
lowest m [] = m
lowest m ((name, w) ∷ ws) = lowest (min_ℤ m w) ws

-- `sorted(degraded)`: the names in the order of their code points
pub sorted_names : List (Text × ℤ) → List Text
unfolding insert_name
sorted_names [] = []
sorted_names ((n, w) ∷ ws) = insert_name n (sorted_names ws)

-- max(ceil((100 - w) / 30), 1) for a weight below 100; the quotient of such ints is rounded
-- up exactly while they are below 2 ^ 53
pub rounds_needed : ℤ → ℕ
rounds_needed w =
    let total =
      (pos_part (healthy_weight -ℤ w) + (assumed_max_weight_step - 1)) / assumed_max_weight_step in
    if ltb total 1 then 1 else total

unfoldable pub start_recovery : List (Text × ℤ) → Option Marker
unfolding rounds_needed lowest sorted_names
start_recovery [] = none
start_recovery ((name, w) ∷ ws) = some (record {
  done = 0;
  total = rounds_needed (lowest w ws);
  backends = sorted_names ((name, w) ∷ ws);
})

-- a marker whose rounds are not over
pub unfinished : Option Marker → Option Marker
unfinished none = none
unfinished (some m) = if leb m.total m.done then none else some m

unfoldable pub is_reroute : Option ActionType → Bool
is_reroute (some reroute) = true
is_reroute _ = false

module _ {F : Type 0} where
  unfoldable pub recovery_of : Previous F → Option Marker
  unfolding parse_recovery_marker unfinished degraded start_recovery is_reroute
  recovery_of prev =
      if is_reroute prev.action
      then unfinished (parse_recovery_marker (or_else prev.reason []))
      else start_recovery (degraded (or_else prev.backend_weights []))

  unfoldable pub recovery_state : Status F → Option Marker
  unfolding recovery_of prev_decision
  recovery_state status = recovery_of (prev_decision status)
