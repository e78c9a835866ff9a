-- ===== src/Actuator/Executor.antt =====
-- actuator/executor.py: `apply`, which turns a decision into calls of the scaler or the router.
pub mod Gates
use samsung.Prelude.{
  ℤ, Bool, false, not, Option, none, some, [], ◌++◌, Text, codes, nonempty, or_else, if◌then◌else◌,
}
use samsung.Schemas.{
  ActionType, noop, scale, isolate_backend, other, show_action, Weights, Decision, ActuationResult,
  Target, Actions, Spec, no_target, no_actions,
}
use samsung.Actuator.Cluster.{Attempt, returned, raised, Cluster, ActionOutcome, is_applied}
use samsung.Actuator.Scaler.{ScaleOptions, scale_deployment}
use samsung.Actuator.Router.{set_backend_weights}
use samsung.Actuator.Environment.{Process, present, is_dry_run, resolve_namespace, load_clients}

module _ {F : Type 0} where
  abbrev pub target_of_spec : Spec F → Target
  target_of_spec spec = or_else spec.target no_target

  abbrev pub spec_actions : Spec F → Actions
  spec_actions spec = or_else spec.actions no_actions

-- `_result`
pub to_result : ActionOutcome → ActionType → Bool → ActuationResult
to_result o action dry_run = record {
  applied = is_applied o;
  action = action;
  detail = o.detail;
  dry_run = dry_run;
  error = o.error;
}

-- a result that applied nothing
abbrev refused : ActionType → Bool → Text → Option Text → ActuationResult
refused action dry_run detail error = record {
  applied = false;
  action = action;
  detail = detail;
  dry_run = dry_run;
  error = error;
}

-- the last `except Exception` of `apply`
pub catch : ActionType → Bool → Attempt ActionOutcome → ActuationResult
unfolding to_result
catch action dry_run (returned outcome) = to_result outcome action dry_run
catch action dry_run (raised message) =
    refused action dry_run [] (some (codes "예상치 못한 실행 오류: " ++ message))

-- `action == "isolate_backend"` and its switch
is_denied : ActionType → Actions → Bool
is_denied isolate_backend actions = not (or_else actions.allow_route_isolation false)
is_denied _ actions = false

module _ {W X : Type 0} (c : Cluster W X) where
  pub do_scale : Option Text → Option ℤ → Text → Actions → Bool → W → ActuationResult × W
  unfolding catch
  do_scale none replicas namespace actions dry_run w =
      (refused scale dry_run [] (some (codes "spec.target.deployment 누락 — scale 대상 없음")), w)
  do_scale (some deployment) none namespace actions dry_run w = (
    refused scale dry_run [] (some (codes "scale 액션인데 target_replicas가 None (Decision 규약 위반)")),
    w,
  )
  do_scale (some deployment) (some replicas) namespace actions dry_run w =
      let options : ScaleOptions = record {
        min_replicas = actions.min_replicas;
        max_replicas = actions.max_replicas;
        max_scale_step = actions.max_scale_step;
        dry_run = dry_run;
      } in
      let (r, w') = scale_deployment c namespace deployment replicas options w in
      (catch scale dry_run r, w')

  -- the call of the router, once the checks have passed
  pub route_weights : ActionType → Text → Weights → Text → Bool → W → ActuationResult × W
  unfolding catch
  route_weights action route_name weights namespace dry_run w =
      let (r, w') = set_backend_weights c namespace route_name weights dry_run w in
      (catch action dry_run r, w')

  pub do_reroute :
      ActionType → Option Text → Weights → Text → Actions → Bool → W → ActuationResult × W
  unfolding route_weights is_denied
  do_reroute action none weights namespace actions dry_run w =
      (refused action dry_run [] (some (codes "spec.target.httpRoute 누락 — 라우팅 대상 없음")), w)
  do_reroute action (some route_name) weights namespace actions dry_run w =
      let routed = route_weights action route_name weights namespace dry_run w in
      if not (nonempty weights)
      then (
        refused action dry_run []
            (some (show_action action ++ codes " 액션인데 backend_weights가 비어있음 (Decision 규약 위반)")),
        w,
      )
      else if is_denied action actions
      then (refused action dry_run (codes "allowRouteIsolation=false — 격리 거부") none, w)
      else routed

  module _ {F : Type 0} where
    -- the part inside the last `try`; `action` is that of the decision
    perform : Spec F → Decision F → ActionType → Bool → W → ActuationResult × W
    unfolding do_scale do_reroute
    perform spec d scale dry_run w =
        let t = target_of_spec spec in
        do_scale (present t.deployment) d.target_replicas (resolve_namespace c t w)
          (spec_actions spec) dry_run w
    perform spec d action dry_run w =
        let t = target_of_spec spec in
        do_reroute action (present t.http_route) (or_else d.backend_weights [])
          (resolve_namespace c t w) (spec_actions spec) dry_run w

    on_clients :
        Spec F
        → Decision F
        → ActionType
        → Bool
        → Option Text
        → Process W
        → ActuationResult × Process W
    unfolding perform
    on_clients spec d action dry_run (some message) p =
        (refused action dry_run [] (some (codes "kube client 초기화 실패: " ++ message)), p)
    on_clients spec d action dry_run none p =
        let (r, w') = perform spec d action dry_run p.world in (r, record p { world = w' })

    connect : Spec F → Decision F → ActionType → Bool → Process W → ActuationResult × Process W
    unfolding on_clients
    connect spec d action dry_run p =
        let (failure, p') = load_clients c p in on_clients spec d action dry_run failure p'

    dispatch : Spec F → Decision F → ActionType → Bool → Process W → ActuationResult × Process W
    unfolding connect
    dispatch spec d noop dry_run p = (refused noop dry_run (codes "noop: " ++ d.reason) none, p)
    dispatch spec d (other t) dry_run p = (
      refused (other t) dry_run []
          (some (codes "알 수 없는 action='" ++ (t ++ codes "' — 처리하지 않음(추측 실행 금지)"))),
      p,
    )
    dispatch spec d action dry_run p = connect spec d action dry_run p

    pub apply : Spec F → Decision F → Process W → ActuationResult × Process W
    unfolding dispatch
    apply spec d p = dispatch spec d d.action (is_dry_run c (spec_actions spec) p.world) p
