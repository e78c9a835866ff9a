-- ===== src/Actuator/Router/Rounds.antt =====
-- One round of the router's read-modify-write (actuator/router.py, `set_backend_weights`): how it ends
-- after the call that writes the route back.
use samsung.Prelude.{
  ℕ, pos, eqb_ℤ→eq, ◌≡◌, nonempty, refl, sym, subst, ◌∙◌, ap, Bool, true, false, List, Text, arith,
}
use samsung.Actuator.Cluster.{
  Reply, answer, api_exception, exception, Cluster, Attempt, returned, raised, ActionOutcome,
  is_applied, applied, Route,
}
use samsung.Actuator.Weights.{Targets, Pass, apply_weights_to_route}
use samsung.Actuator.Router.{
  Fetched, fetched, not_fetched, get_route, Round, again, stop, after_replace, unmatched, note_text,
  detail_text, replace_with, write_back, after_get, one_round,
}

module _ {W X : Type 0} (c : Cluster W X) (namespace name : Text) where
  -- A read route was changed and written back with its version, outside a dry run, and the call that
  -- wrote it answered `reply` in the world `w'`.
  pub record Wrote (targets : Targets) (dry_run : Bool) (w w' : W) (reply : Reply (Unit {0}))
      : Type 0 where
    pub route : Route X
    pub version : Text
    pub read : (get_route c namespace name w).0 ≡ returned (fetched route version)
    pub wet : dry_run ≡ false
    pub named : nonempty (apply_weights_to_route targets route).matched ≡ true
    pub differs : (apply_weights_to_route targets route).changed ≡ true
    pub written :
        c.replace_route version namespace name
          (apply_weights_to_route targets route).result
          (get_route c namespace name w).1
        ≡ (reply, w')

  module _ (attempt : ℕ) (detail : Text) where
    after_replace_again :
        (r : Reply (Unit {0}))
        → after_replace c namespace name attempt detail r ≡ again
        → (attempt ≡ 0) × (reason : Text) × (r ≡ api_exception (pos 409) reason)
    unfolding after_replace
    after_replace_again (answer t) e = cc
    after_replace_again (api_exception status reason) e = (
      ground arith,
      reason,
      ap (λ s. api_exception s reason) (eqb_ℤ→eq status (pos 409) (ground arith)),
    )
    after_replace_again (exception message) e = cc

    after_replace_applied :
        (r : Reply (Unit {0})) (a : ActionOutcome)
        → after_replace c namespace name attempt detail r ≡ stop (returned a)
        → a.status ≡ applied
        → r ≡ answer tt
    unfolding after_replace
    after_replace_applied (answer t) a e s = refl
    after_replace_applied (api_exception status reason) a e s = ground arith
    after_replace_applied (exception message) a e s = cc

  applied_is_applied : (a : ActionOutcome) → a.status ≡ applied → is_applied a ≡ true
  unfolding is_applied
  applied_is_applied a s = rw s

  -- the rounds that end behind a replace call: a conflict, or an applied outcome
  abbrev is_conclusive : Round → Bool
  is_conclusive again = true
  is_conclusive (stop (returned a)) = is_applied a
  is_conclusive (stop (raised message)) = false

  module _ (attempt : ℕ) (targets : Targets) (rejected : List Text) (dry_run : Bool) where
    abbrev detail_of : Pass (Route X) → Text
    detail_of p = detail_text p.summaries (note_text rejected (unmatched p.matched targets))

    write_back_conclusive :
        (v : Text) (p : Pass (Route X)) (w : W)
        → is_conclusive (write_back c namespace name attempt targets rejected dry_run v p w).0
          ≡ true
        → (dry_run ≡ false)
          × (nonempty p.matched ≡ true)
          × (p.changed ≡ true)
          × (write_back c namespace name attempt targets rejected dry_run v p w
              ≡ replace_with c namespace name attempt v (detail_of p) p.result w)
    unfolding write_back is_applied
    write_back_conclusive v p w h = (ground arith, ground arith, ground arith, ground arith)

    -- a conclusive round has read a route and written its pass back
    after_get_conclusive :
        (g : Attempt (Fetched X)) (w : W)
        → is_conclusive (after_get c namespace name attempt targets rejected dry_run g w).0 ≡ true
        → (route : Route X) × (v : Text) × (g ≡ returned (fetched route v))
          × (dry_run ≡ false)
          × (nonempty (apply_weights_to_route targets route).matched ≡ true)
          × ((apply_weights_to_route targets route).changed ≡ true)
          × (after_get c namespace name attempt targets rejected dry_run g w
              ≡ replace_with c namespace name attempt v
                  (detail_of (apply_weights_to_route targets route))
                  (apply_weights_to_route targets route).result
                  w)
    unfolding after_get
    after_get_conclusive (returned (fetched route v)) w h =
        let (a, m, b, e) = write_back_conclusive v (apply_weights_to_route targets route) w h in
        (route, v, refl, a, m, b, e)
    after_get_conclusive (returned (not_fetched error)) w h = unfold is_applied in cc
    after_get_conclusive (raised message) w h = cc

    -- the answer to the replace call decides how a conclusive round ends
    one_round_conclusive :
        (w : W)
        → is_conclusive (one_round c namespace name attempt targets rejected dry_run w).0 ≡ true
        → (detail : Text) × (reply : Reply (Unit {0})) × ((one_round c namespace name attempt
              targets rejected dry_run w).0
            ≡ after_replace c namespace name attempt detail reply)
          × Wrote targets dry_run w
              (one_round c namespace name attempt targets rejected dry_run w).1
              reply
    unfolding one_round replace_with
    one_round_conclusive w h =
        let (route, v, e, wet, named, differs, r) =
          after_get_conclusive (get_route c namespace name w).0 (get_route c namespace name w).1
            h in
        let p = apply_weights_to_route targets route in
        let w' = (get_route c namespace name w).1 in
        let called = c.replace_route v namespace name p.result w' in
        (
          detail_of p,
          called.0,
          ap (λ x. x.0) r,
          record {
            route = route;
            version = v;
            read = e;
            wet = wet;
            named = named;
            differs = differs;
            written = ap {B = Reply (Unit {0}) × W} (λ x. (called.0, x.1)) (sym r);
          },
        )

    -- A round asks for another only as the first one, and then because the server answered 409 to the
    -- route that the round wrote back.
    pub one_round_again :
        (w : W)
        → (one_round c namespace name attempt targets rejected dry_run w).0 ≡ again
        → (attempt ≡ 0)
          × (reason : Text) × Wrote targets dry_run w
              (one_round c namespace name attempt targets rejected dry_run w).1
              (api_exception (pos 409) reason)
    one_round_again w h =
        let (detail, reply, e, wrote) = one_round_conclusive w (rw h) in
        let (first, reason, is_conflict) = after_replace_again attempt detail reply (sym e ∙ h) in
        (
          first,
          reason,
          subst
              (λ r.
                Wrote targets dry_run w
                  (one_round c namespace name attempt targets rejected dry_run w).1 r)
              is_conflict wrote,
        )

    pub one_round_applied :
        (w : W) (a : ActionOutcome)
        → (one_round c namespace name attempt targets rejected dry_run w).0 ≡ stop (returned a)
        → a.status ≡ applied
        → Wrote targets dry_run w
            (one_round c namespace name attempt targets rejected dry_run w).1
            (answer tt)
    one_round_applied w a h s =
        let (detail, reply, e, wrote) = one_round_conclusive w (rw h (applied_is_applied a s)) in
        let taken = after_replace_applied attempt detail reply a (sym e ∙ h) s in
        subst
          (λ r.
            Wrote targets dry_run w
              (one_round c namespace name attempt targets rejected dry_run w).1 r)
          taken wrote

    -- a conflict of the first round asks for another
    pub one_round_conflict :
        (w w' : W) (reason : Text)
        → attempt ≡ 0
        → Wrote targets dry_run w w' (api_exception (pos 409) reason)
        → (one_round c namespace name attempt targets rejected dry_run w).0 ≡ again
    unfolding one_round after_get write_back replace_with after_replace
    one_round_conflict w w' reason first wrote =
        rw (wrote.read, wrote.wet, wrote.named, wrote.differs, wrote.written, first) refl
