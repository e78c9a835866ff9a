-- ===== src/Policy/Weights.antt =====
-- policy/engine.py: the weight maps of its decisions, and the current number of pods.
use samsung.Prelude.{
  ℤ, pos, ◌+ℤ◌, Option, none, some, List, [], ◌∷◌, Text, text_eq, contains, nonempty, if◌then◌else◌,
}
use samsung.Schemas.{BackendTraffic, TrafficSnapshot, Severity, Weight, int, Weights, is_critical}
use samsung.Policy.Recovery.{healthy_weight}

abbrev pub isolate_weight_critical : ℤ
isolate_weight_critical = pos 0

abbrev pub isolate_weight_warning : ℤ
isolate_weight_warning = pos 20

pub isolate_weight : Severity → ℤ
isolate_weight s = if is_critical s then isolate_weight_critical else isolate_weight_warning

-- `d[name] = w`
unfoldable pub set_weight : Text → Weight → Weights → Weights
set_weight name w [] = (name, w) ∷ []
set_weight name w ((n, v) ∷ d) = if text_eq name n then (n, w) ∷ d else (n, v) ∷ set_weight name w d

-- `d.setdefault(name, w)`
unfoldable pub default_weight : Text → Weight → Weights → Weights
default_weight name w [] = (name, w) ∷ []
default_weight name w ((n, v) ∷ d) =
    if text_eq name n then (n, v) ∷ d else (n, v) ∷ default_weight name w d

module _ {F : Type 0} where
  -- the loop over the backends, then the one over the culprits
  backend_weights_from : List Text → ℤ → List (BackendTraffic F) → Weights → Weights
  unfolding set_weight contains
  backend_weights_from culprits weight [] d = d
  backend_weights_from culprits weight (b ∷ bs) d =
      backend_weights_from culprits weight bs
        (set_weight b.name (int (if contains b.name culprits then weight else healthy_weight)) d)

  -- `sum(vals)` if every backend has its pods
  sum_ready : List (BackendTraffic F) → ℤ → Option ℤ
  sum_ready [] n = some n
  sum_ready (b ∷ bs) n = elim b.ready_pods [ none ↦ none | some k ↦ sum_ready bs (n +ℤ k) ]

  pub current_pods : TrafficSnapshot F → Option ℤ
  unfolding sum_ready
  current_pods s = elim s.total_ready_pods [
    | some n ↦ some n
    | none ↦ if nonempty s.per_backend then sum_ready s.per_backend (pos 0) else none
  ]

culprit_weights_from : List Text → ℤ → Weights → Weights
unfolding default_weight
culprit_weights_from [] weight d = d
culprit_weights_from (name ∷ names) weight d =
    culprit_weights_from names weight (default_weight name (int weight) d)

module _ {F : Type 0} where
  pub isolation_weights : TrafficSnapshot F → List Text → ℤ → Weights
  unfolding backend_weights_from culprit_weights_from
  isolation_weights s culprits weight =
      culprit_weights_from culprits weight (backend_weights_from culprits weight s.per_backend [])

-- weights_target: every backend of the recovery back to the healthy weight
unfoldable pub healthy_weights : List Text → Weights → Weights
unfolding set_weight
healthy_weights [] d = d
healthy_weights (name ∷ names) d = healthy_weights names (set_weight name (int healthy_weight) d)
