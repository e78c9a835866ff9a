-- ===== src/Actuator/Cluster.antt =====
-- The kubernetes client and the process environment, which the actuator calls and does not
-- implement, as a parameter of the model; and actuator/_result.py.
use samsung.Prelude.{ℤ, ◌≡◌, Option, List, Text, Bool, true, false}

-- What a call of the client does: it answers, raises ApiException with its status and reason, or
-- raises something else.
pub data Reply (A : Type 0) : Type 0 where
  answer : A → Reply A
  api_exception : ℤ → Text → Reply A
  exception : Text → Reply A

-- What a function of the actuator does: it returns, or an exception other than ApiException
-- passes through it.
pub data Attempt (A : Type 0) : Type 0 where
  returned : A → Attempt A
  raised : Text → Attempt A

-- One entry of `backendRefs`; `rest` is all of it that the code does not read.
pub record BackendRef (X : Type 0) : Type 0 where
  pub name : Option Text
  pub weight : Option ℤ
  pub rest : X

pub record Rule (X : Type 0) : Type 0 where
  pub backend_refs : Option (List (BackendRef X))
  pub rest : X

-- An HTTPRoute; its resourceVersion is a part of `rest`.
pub record Route (X : Type 0) : Type 0 where
  pub rules : Option (List (Rule X))
  pub rest : X

-- What loading a configuration of the client does.
pub data Loading : Type 0 where
  loaded : Loading
  config_exception : Text → Loading
  other_exception : Text → Loading

-- `W` is all that the calls can see and change.
pub record Cluster (W X : Type 0) : Type 0 where
  -- name, namespace
  pub read_scale : Text → Text → W → Reply (Option ℤ) × W
  pub patch_scale : Text → Text → ℤ → W → Reply (Unit {0}) × W
  -- version, namespace, name
  pub get_route : Text → Text → Text → W → Reply (Route X) × W
  pub replace_route : Text → Text → Text → Route X → W → Reply (Unit {0}) × W
  pub load_incluster_config : W → Loading × W
  pub load_kube_config : W → Loading × W
  -- the content of the service account's namespace file, if it can be read
  pub namespace_file : W → Option Text
  -- the variable ACTUATOR_DRY_RUN
  pub dry_run_variable : W → Option Text

-- Reading is free of effects, as the HTTP verb GET promises.
pub record IsReadOnly {W X : Type 0} (c : Cluster W X) : Type 0 where
  pub read_scale_keeps : (name ns : Text) (w : W) → (c.read_scale name ns w).1 ≡ w
  pub get_route_keeps : (v ns name : Text) (w : W) → (c.get_route v ns name w).1 ≡ w
  pub incluster_keeps : (w : W) → (c.load_incluster_config w).1 ≡ w
  pub kube_keeps : (w : W) → (c.load_kube_config w).1 ≡ w

pub data OutcomeStatus : Type 0 where
  applied skipped failed : OutcomeStatus

pub record ActionOutcome : Type 0 where
  pub status : OutcomeStatus
  pub detail : Text
  pub error : Option Text

-- the property `applied`
unfoldable pub is_applied : ActionOutcome → Bool
is_applied o = elim o.status [ applied ↦ true | skipped ↦ false | failed ↦ false ]

-- the property `failed`
unfoldable pub is_failed : ActionOutcome → Bool
is_failed o = elim o.status [ applied ↦ false | skipped ↦ false | failed ↦ true ]
