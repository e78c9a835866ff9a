-- ===== src/Policy/Recovery/Rounds.antt =====
-- The marker of a reroute decision as the next reconcile reads it (policy/engine.py,
-- `_recovery_state`), and the number of rounds that a recovery takes.
use samsung.Prelude.{
  ℕ, ◌-◌, ◌*◌, ◌≤◌, ◌<◌, ℤ, pos, negsuc, ◌-ℤ◌, ◌≤ℤ◌, ◌<ℤ◌, abs, leb, ◌≡◌, refl, false, [], or_else,
  none, some, Text, if◌then◌else◌, int_laws, arith,
}
use samsung.Schemas.{ActionType, reroute}
use samsung.Policy.Status.{Previous}
use samsung.Actuator.Weights.Bounds.{weight_after, weight_after-converge}
use samsung.Policy.Recovery.{
  Marker, parse_recovery_marker, rounds_needed, recovery_of, is_reroute, start_recovery, degraded,
}

module _ {F : Type 0} where
  -- a previous reroute whose reason is read as a marker: the recovery goes on until its rounds are done
  pub recovery_of_reroute :
      (p : Previous F) (reason : Text) (m : Marker)
      → p.action ≡ some reroute
      → p.reason ≡ some reason
      → parse_recovery_marker reason ≡ some m
      → recovery_of p ≡ (if leb m.total m.done then none else some m)
  unfolding recovery_of
  recovery_of_reroute p reason m a r e = rw (a, r, e) refl

  -- any other action: the recovery starts from the weights
  pub recovery_by_weights :
      (p : Previous F) (action : ActionType)
      → p.action ≡ some action
      → is_reroute (some action) ≡ false
      → recovery_of p ≡ start_recovery (degraded (or_else p.backend_weights []))
  unfolding recovery_of
  recovery_by_weights p action e h = rw (e, h) refl

-- For a weight from 0 below 100: so many steps of 30 reach 100, and one step less does not.
pub rounds_needed_exact :
    (w : ℤ)
    → pos 0 ≤ℤ w
    → w <ℤ pos 100
    → (abs (w -ℤ pos 100) ≤ rounds_needed w * 30)
      × ((rounds_needed w - 1) * 30 < abs (w -ℤ pos 100))
unfolding rounds_needed ◌-ℤ◌
rounds_needed_exact (pos n) h k = (ground arith, ground arith)
rounds_needed_exact (negsuc n) h k = absurd (omega arith)

-- However far the cluster has come, from the weight that the recovery started at or above it up to
-- 100: when the router has moved the weight once in each round of the recovery, it is 100.
pub rounds_needed-suffice :
    (w current : ℤ)
    → pos 0 ≤ℤ w
    → w <ℤ pos 100
    → w ≤ℤ current
    → current ≤ℤ pos 100
    → weight_after (rounds_needed w) (pos 100) current ≡ pos 100
rounds_needed-suffice w current h k l u =
    weight_after-converge (rounds_needed w) current (pos 100) (omega arith) u (omega arith)
      (omega arith) (closer w current (rounds_needed w * 30) l u (rounds_needed_exact w h k).0)
  where
    closer :
        (w current : ℤ) (n : ℕ)
        → w ≤ℤ current
        → current ≤ℤ pos 100
        → abs (w -ℤ pos 100) ≤ n
        → abs (current -ℤ pos 100) ≤ n
    closer w current n l u h = grind int_laws
