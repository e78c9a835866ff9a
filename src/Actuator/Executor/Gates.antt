-- ===== src/Actuator/Executor/Gates.antt =====
-- What holds decisions back in actuator/executor.py: the dry run, the isolation switch, `noop` and
-- unknown actions.
use samsung.Prelude.{
  ℤ, ◌≡◌, refl, ◌∙◌, Bool, true, false, Option, none, some, [], Text, or_else, arith,
}
use samsung.Schemas.{
  ActionType, noop, scale, reroute, isolate_backend, other, Weights, Decision, ActuationResult,
  Actions, Spec,
}
use samsung.Actuator.Cluster.{Cluster, IsReadOnly, Attempt, returned, raised, ActionOutcome}
use samsung.Actuator.Scaler.Effects.{scale_deployment_dry}
use samsung.Actuator.Router.{set_backend_weights}
use samsung.Actuator.Router.Effects.{set_backend_weights_dry}
use samsung.Actuator.Environment.{
  Process, present, is_dry_run, resolve_namespace, load_clients, load_clients_keeps,
}
use samsung.Actuator.Executor.{
  target_of_spec, spec_actions, catch, dispatch, do_scale, do_reroute, route_weights, is_denied,
  perform, on_clients, connect, apply,
}

module _ {W X : Type 0} (c : Cluster W X) where
  -- a result that names its action and its mode
  abbrev Echoes : ActionType → Bool → ActuationResult → Type 0
  Echoes action dry r = (r.action ≡ action) × (r.dry_run ≡ dry)

  catch_echo :
      (action : ActionType) (dry : Bool) (r : Attempt ActionOutcome)
      → Echoes action dry (catch action dry r)
  unfolding catch
  catch_echo action dry (returned o) = (refl, refl)
  catch_echo action dry (raised m) = (refl, refl)

  do_scale_echo :
      (deployment : Option Text) (replicas : Option ℤ) (ns : Text) (actions : Actions) (dry : Bool)
      (w : W)
      → Echoes scale dry (do_scale c deployment replicas ns actions dry w).0
  unfolding do_scale
  do_scale_echo none replicas ns actions dry w = (refl, refl)
  do_scale_echo (some d) none ns actions dry w = (refl, refl)
  do_scale_echo (some d) (some n) ns actions dry w = catch_echo scale dry _

  do_reroute_echo :
      (action : ActionType) (name : Option Text) (weights : Weights) (ns : Text) (actions : Actions)
      (dry : Bool) (w : W)
      → Echoes action dry (do_reroute c action name weights ns actions dry w).0
  unfolding do_reroute route_weights
  do_reroute_echo action none weights ns actions dry w = (refl, refl)
  do_reroute_echo action (some name) weights ns actions dry w =
      let e = catch_echo action dry (set_backend_weights c ns name weights dry w).0 in ground arith

  module _ (reads : IsReadOnly c) (dry : Bool) (is_dry : dry ≡ true) where
    do_scale_dry :
        (deployment : Option Text) (replicas : Option ℤ) (ns : Text) (actions : Actions) (w : W)
        → (do_scale c deployment replicas ns actions dry w).1 ≡ w
    unfolding do_scale
    do_scale_dry none replicas ns actions w = refl
    do_scale_dry (some d) none ns actions w = refl
    do_scale_dry (some d) (some n) ns actions w = scale_deployment_dry c ns d reads n _ w is_dry

    route_weights_dry :
        (action : ActionType) (name : Text) (weights : Weights) (ns : Text) (w : W)
        → (route_weights c action name weights ns dry w).1 ≡ w
    unfolding route_weights
    route_weights_dry action name weights ns w =
        rw is_dry (set_backend_weights_dry c ns name reads weights w)

    do_reroute_dry :
        (action : ActionType) (name : Option Text) (weights : Weights) (ns : Text)
        (actions : Actions) (w : W)
        → (do_reroute c action name weights ns actions dry w).1 ≡ w
    unfolding do_reroute
    do_reroute_dry action none weights ns actions w = refl
    do_reroute_dry action (some name) weights ns actions w =
        ground (arith, route_weights_dry action name weights ns w)

module _ {W X F : Type 0} (c : Cluster W X) (spec : Spec F) (d : Decision F) where
  perform_echo :
      (action : ActionType) (dry : Bool) (w : W)
      → Echoes c action dry (perform c spec d action dry w).0
  unfolding perform
  perform_echo scale dry w =
      do_scale_echo c (present (target_of_spec spec).deployment) d.target_replicas
        (resolve_namespace c (target_of_spec spec) w) (spec_actions spec) dry w
  perform_echo action dry w =
      do_reroute_echo c action (present (target_of_spec spec).http_route)
        (or_else d.backend_weights []) (resolve_namespace c (target_of_spec spec) w)
        (spec_actions spec) dry w

  on_clients_echo :
      (action : ActionType) (dry : Bool) (failure : Option Text) (p : Process W)
      → Echoes c action dry (on_clients c spec d action dry failure p).0
  unfolding on_clients
  on_clients_echo action dry none p = perform_echo action dry p.world
  on_clients_echo action dry (some m) p = (refl, refl)

  connect_echo :
      (action : ActionType) (dry : Bool) (p : Process W)
      → Echoes c action dry (connect c spec d action dry p).0
  unfolding connect
  connect_echo action dry p = on_clients_echo action dry (load_clients c p).0 (load_clients c p).1

  dispatch_echo :
      (action : ActionType) (dry : Bool) (p : Process W)
      → Echoes c action dry (dispatch c spec d action dry p).0
  unfolding dispatch
  dispatch_echo noop dry p = (refl, refl)
  dispatch_echo (other t) dry p = (refl, refl)
  dispatch_echo action dry p = connect_echo action dry p

  -- On every branch the result names the action of the decision, and it is marked as a dry run exactly
  -- if the spec, or else the environment, asks for one.
  pub apply_echo :
      (p : Process W)
      → ((apply c spec d p).0.action ≡ d.action)
        × ((apply c spec d p).0.dry_run ≡ is_dry_run c (spec_actions spec) p.world)
  unfolding apply
  apply_echo p = dispatch_echo d.action (is_dry_run c (spec_actions spec) p.world) p

  module _ (reads : IsReadOnly c) where
    perform_dry :
        (action : ActionType) (dry : Bool) (w : W)
        → dry ≡ true
        → (perform c spec d action dry w).1 ≡ w
    unfolding perform
    perform_dry scale dry w h =
        do_scale_dry c reads dry h (present (target_of_spec spec).deployment) d.target_replicas
          (resolve_namespace c (target_of_spec spec) w) (spec_actions spec) w
    perform_dry action dry w h =
        do_reroute_dry c reads dry h action (present (target_of_spec spec).http_route)
          (or_else d.backend_weights []) (resolve_namespace c (target_of_spec spec) w)
          (spec_actions spec) w

    -- the world after the clients are loaded, if what runs with them keeps it
    connect_keeps :
        (action : ActionType) (dry : Bool) (p : Process W)
        → ((w : W) → (perform c spec d action dry w).1 ≡ w)
        → (connect c spec d action dry p).1.world ≡ p.world
    unfolding connect
    connect_keeps action dry p h =
        by_failure (load_clients c p).0 (load_clients c p).1 ∙ load_clients_keeps c reads p
      where
        by_failure :
            (f : Option Text) (q : Process W)
            → (on_clients c spec d action dry f q).1.world ≡ q.world
        by_failure none q = unfold on_clients in h q.world
        by_failure (some m) q = unfold on_clients in refl

    dispatch_keeps :
        (action : ActionType) (dry : Bool) (p : Process W)
        → ((w : W) → (perform c spec d action dry w).1 ≡ w)
        → (dispatch c spec d action dry p).1.world ≡ p.world
    unfolding dispatch
    dispatch_keeps noop dry p h = refl
    dispatch_keeps (other t) dry p h = refl
    dispatch_keeps action dry p h = connect_keeps action dry p h

    -- With reads that change nothing, `apply` in a dry run leaves the world as it was, whatever the
    -- decision.
    pub apply_dry :
        (p : Process W)
        → is_dry_run c (spec_actions spec) p.world ≡ true
        → (apply c spec d p).1.world ≡ p.world
    unfolding apply
    apply_dry p h =
        dispatch_keeps d.action (is_dry_run c (spec_actions spec) p.world) p
          (λ w. perform_dry d.action (is_dry_run c (spec_actions spec) p.world) w h)

    denied :
        d.action ≡ isolate_backend
        → or_else (spec_actions spec).allow_route_isolation false ≡ false
        → is_denied d.action (spec_actions spec) ≡ true
    unfolding is_denied
    denied e h = rw (e, h)

    perform_denied :
        (action : ActionType) (dry : Bool) (w : W)
        → is_denied action (spec_actions spec) ≡ true
        → (perform c spec d action dry w).1 ≡ w
    unfolding perform do_reroute is_denied
    perform_denied isolate_backend dry w h = ground arith
    perform_denied noop dry w h = cc
    perform_denied scale dry w h = cc
    perform_denied reroute dry w h = cc
    perform_denied (other t) dry w h = cc

    -- With reads that change nothing, an isolation that the spec does not allow leaves the world as
    -- it was, dry run or not.
    pub apply_denied :
        (p : Process W)
        → d.action ≡ isolate_backend
        → or_else (spec_actions spec).allow_route_isolation false ≡ false
        → (apply c spec d p).1.world ≡ p.world
    unfolding apply
    apply_denied p e h =
        dispatch_keeps d.action (is_dry_run c (spec_actions spec) p.world) p
          (λ w. perform_denied d.action (is_dry_run c (spec_actions spec) p.world) w (denied e h))
