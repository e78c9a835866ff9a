-- ===== src/Actuator/Router/Effects.antt =====
-- What a call of the router does to the cluster (actuator/router.py, `set_backend_weights`).
use samsung.Prelude.{
  ℕ, zero, suc, ◌+◌, ℤ, pos, eqb_ℤ, ◌≡◌, refl, ◌∙◌, Bool, true, Option, none, some, List, [], ◌∷◌,
  Text, arith, Bool-cases, inl, inr,
}
use samsung.Schemas.{Weights}
use samsung.Actuator.Cluster.{
  Reply, answer, api_exception, exception, Cluster, IsReadOnly, Attempt, returned, raised,
  ActionOutcome, Route,
}
use samsung.Actuator.Weights.{Targets, Pass, normalize_targets, apply_weights_to_route, versions}
use samsung.Actuator.Router.{
  Fetched, fetched, not_fetched, after_version, fetch, get_route, Round, again, stop, write_back,
  after_get, one_round, after_round, rounds, set_backend_weights,
}

module _ {W X : Type 0} (c : Cluster W X) (namespace name : Text) (reads : IsReadOnly c) where
  after_version_keeps :
      (v : Text) (next : ℤ × Text → W → Attempt (Fetched X) × W) (r : Reply (Route X)) (w : W)
      → ((e : ℤ × Text) (w : W) → (next e w).1 ≡ w)
      → (after_version c namespace name v next r w).1 ≡ w
  unfolding after_version
  after_version_keeps v next (answer route) w h = refl
  after_version_keeps v next (api_exception status reason) w h =
      elim (Bool-cases (eqb_ℤ status (pos 404))) [
        | inl e ↦ rw e (h (status, reason) w)
        | inr e ↦ rw e
      ]
  after_version_keeps v next (exception message) w h = refl

  fetch_keeps :
      (vs : List Text) (last : Option (ℤ × Text)) (w : W) → (fetch c namespace name vs last w).1 ≡ w
  unfolding fetch
  fetch_keeps [] last w = refl
  fetch_keeps (v ∷ vs) last w =
      after_version_keeps v (λ e. fetch c namespace name vs (some e))
        (c.get_route v namespace name w).0 (c.get_route v namespace name w).1
        (λ e w'. fetch_keeps vs (some e) w')
      ∙ reads.get_route_keeps v namespace name w

  get_route_keeps : (w : W) → (get_route c namespace name w).1 ≡ w
  unfolding get_route
  get_route_keeps w = fetch_keeps versions none w

  module _ (dry : Bool) (is_dry : dry ≡ true) where
    write_back_dry :
        (attempt : ℕ) (targets : Targets) (rejected : List Text) (v : Text) (p : Pass (Route X))
        (w : W)
        → (write_back c namespace name attempt targets rejected dry v p w).1 ≡ w
    unfolding write_back
    write_back_dry attempt targets rejected v p w = ground arith

    after_get_dry :
        (attempt : ℕ) (targets : Targets) (rejected : List Text) (g : Attempt (Fetched X)) (w : W)
        → (after_get c namespace name attempt targets rejected dry g w).1 ≡ w
    unfolding after_get
    after_get_dry attempt targets rejected (returned (fetched route v)) w =
        write_back_dry attempt targets rejected v (apply_weights_to_route targets route) w
    after_get_dry attempt targets rejected (returned (not_fetched error)) w = refl
    after_get_dry attempt targets rejected (raised message) w = refl

    one_round_dry :
        (attempt : ℕ) (targets : Targets) (rejected : List Text) (w : W)
        → (one_round c namespace name attempt targets rejected dry w).1 ≡ w
    unfolding one_round
    one_round_dry attempt targets rejected w =
        after_get_dry attempt targets rejected (get_route c namespace name w).0
          (get_route c namespace name w).1
        ∙ get_route_keeps w

    after_round_keeps :
        (next : W → Attempt ActionOutcome × W) (r : Round) (w : W)
        → ((w : W) → (next w).1 ≡ w)
        → (after_round next r w).1 ≡ w
    unfolding after_round
    after_round_keeps next again w h = h w
    after_round_keeps next (stop result) w h = refl

    rounds_dry :
        (left attempt : ℕ) (targets : Targets) (rejected : List Text) (w : W)
        → (rounds c namespace name left attempt targets rejected dry w).1 ≡ w
    unfolding rounds
    rounds_dry zero attempt targets rejected w = refl
    rounds_dry (suc left) attempt targets rejected w =
        after_round_keeps (rounds c namespace name left (attempt + 1) targets rejected dry)
          (one_round c namespace name attempt targets rejected dry w).0
          (one_round c namespace name attempt targets rejected dry w).1
          (rounds_dry left (attempt + 1) targets rejected)
        ∙ one_round_dry attempt targets rejected w

  -- With reads that change nothing: in a dry run the world after the call is the one before it,
  -- whatever the client answers.
  pub set_backend_weights_dry :
      (weights : Weights) (w : W) → (set_backend_weights c namespace name weights true w).1 ≡ w
  unfolding set_backend_weights
  set_backend_weights_dry weights w = ground (
    arith,
    rounds_dry true refl 2 0 (normalize_targets weights).0 (normalize_targets weights).1 w,
  )
