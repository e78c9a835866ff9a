-- ===== src/Actuator/Weights/Entries.antt =====
-- The pass over a route (actuator/router.py, `_apply_weights_to_route`).
use samsung.Prelude.{
  ℤ, eqb_ℤ→eq, false, Option, none, some, List, [], ◌∷◌, or_else, ◌≡◌, refl, ap, arith,
}
use samsung.Actuator.Cluster.{BackendRef, Rule, Route}
use samsung.Actuator.Weights.{
  default_backend_weight, Targets, ref_target, clamp_weight_change, current_weight, set_ref,
  pass_target, pass_optional, pass_ref, pass_refs, pass_rule, pass_rules, apply_weights_to_route,
}

-- Two lists of one length whose elements are related in turn.
abbrev pub Each {ℓ} : {A : Type ℓ} → (A → A → Type 0) → List A → List A → Type 0
Each R [] [] = Unit
Each R [] (y ∷ ys) = ⊥
Each R (x ∷ xs) [] = ⊥
Each R (x ∷ xs) (y ∷ ys) = R x y × Each R xs ys

module _ {X : Type 0} where
  -- the weight that an entry is to have
  abbrev pub wanted_weight : Targets → BackendRef X → ℤ
  wanted_weight targets ref = elim (ref_target ref.name targets) [
    | none ↦ current_weight ref
    | some target ↦ clamp_weight_change (current_weight ref) target
  ]

  -- Only the weight of an entry is touched, and it is the wanted one.
  pub record RefMoved (targets : Targets) (before after : BackendRef X) : Type 0 where
    pub name_kept : after.name ≡ before.name
    pub rest_kept : after.rest ≡ before.rest
    pub weight_wanted : current_weight after ≡ wanted_weight targets before

  -- an absent list of entries stays absent
  abbrev pub RefsMoved :
      Targets → Option (List (BackendRef X)) → Option (List (BackendRef X)) → Type 0
  RefsMoved targets none none = Unit
  RefsMoved targets none (some b) = ⊥
  RefsMoved targets (some a) none = ⊥
  RefsMoved targets (some a) (some b) = Each (RefMoved targets) a b

  pub record RuleMoved (targets : Targets) (before after : Rule X) : Type 0 where
    pub rest_kept : after.rest ≡ before.rest
    pub refs_moved : RefsMoved targets before.backend_refs after.backend_refs

  abbrev pub RulesMoved : Targets → Option (List (Rule X)) → Option (List (Rule X)) → Type 0
  RulesMoved targets none none = Unit
  RulesMoved targets none (some b) = ⊥
  RulesMoved targets (some a) none = ⊥
  RulesMoved targets (some a) (some b) = Each (RuleMoved targets) a b

  pub record RouteMoved (targets : Targets) (before after : Route X) : Type 0 where
    pub rest_kept : after.rest ≡ before.rest
    pub rules_moved : RulesMoved targets before.rules after.rules

  abbrev record_rule : Option (List (BackendRef X)) → X → Rule X
  record_rule refs rest = record { backend_refs = refs; rest = rest }

  abbrev record_route : Option (List (Rule X)) → X → Route X
  record_route rules rest = record { rules = rules; rest = rest }

  pass_target-weight :
      (t : Option ℤ) (ref : BackendRef X)
      → current_weight (pass_target t ref).result ≡ elim t [
        | none ↦ current_weight ref
        | some target ↦ clamp_weight_change (current_weight ref) target
      ]
  unfolding pass_target current_weight set_ref
  pass_target-weight none ref = refl
  pass_target-weight (some target) ref =
      let current = or_else ref.weight default_backend_weight in
      let desired = clamp_weight_change current target in ground (arith, eqb_ℤ→eq desired current)

  pass_ref-RefMoved :
      (targets : Targets) (ref : BackendRef X) → RefMoved targets ref (pass_ref targets ref).result
  unfolding pass_ref
  pass_ref-RefMoved targets ref = record {
    name_kept = unfold set_ref in ground arith;
    rest_kept = unfold set_ref in ground arith;
    weight_wanted = pass_target-weight (ref_target ref.name targets) ref;
  }

  pass_refs-Each :
      (targets : Targets) (refs : List (BackendRef X))
      → Each (RefMoved targets) refs (pass_refs targets refs).result
  unfolding pass_refs
  pass_refs-Each targets [] = tt
  pass_refs-Each targets (r ∷ rs) = (pass_ref-RefMoved targets r, pass_refs-Each targets rs)

  pass_optional-RefsMoved :
      (targets : Targets) (refs : Option (List (BackendRef X)))
      → RefsMoved targets refs (pass_optional (pass_refs targets) refs).result
  pass_optional-RefsMoved targets none = tt
  pass_optional-RefsMoved targets (some refs) = pass_refs-Each targets refs

  pass_rule-RuleMoved :
      (targets : Targets) (rule : Rule X) → RuleMoved targets rule (pass_rule targets rule).result
  unfolding pass_rule
  pass_rule-RuleMoved targets rule = record {
    rest_kept = refl;
    refs_moved = pass_optional-RefsMoved targets rule.backend_refs;
  }

  pass_rules-Each :
      (targets : Targets) (rules : List (Rule X))
      → Each (RuleMoved targets) rules (pass_rules targets rules).result
  unfolding pass_rules
  pass_rules-Each targets [] = tt
  pass_rules-Each targets (r ∷ rs) = (pass_rule-RuleMoved targets r, pass_rules-Each targets rs)

  pass_optional-RulesMoved :
      (targets : Targets) (rules : Option (List (Rule X)))
      → RulesMoved targets rules (pass_optional (pass_rules targets) rules).result
  pass_optional-RulesMoved targets none = tt
  pass_optional-RulesMoved targets (some rules) = pass_rules-Each targets rules

  -- The pass keeps every rule, every entry and all that the code does not read, in their places. The
  -- weight of an entry that a target names moves to the target by the limited step, and every
  -- other weight stays.
  pub apply_weights_to_route-RouteMoved :
      (targets : Targets) (route : Route X)
      → RouteMoved targets route (apply_weights_to_route targets route).result
  unfolding apply_weights_to_route
  apply_weights_to_route-RouteMoved targets route = record {
    rest_kept = refl;
    rules_moved = pass_optional-RulesMoved targets route.rules;
  }

  -- the flag of a pass tells whether it changed its argument
  pass_target_unchanged :
      (t : Option ℤ) (ref : BackendRef X)
      → (pass_target t ref).changed ≡ false
      → (pass_target t ref).result ≡ ref
  unfolding pass_target set_ref
  pass_target_unchanged none ref h = refl
  pass_target_unchanged (some target) ref h = ground arith

  pass_refs_unchanged :
      (targets : Targets) (refs : List (BackendRef X))
      → (pass_refs targets refs).changed ≡ false
      → (pass_refs targets refs).result ≡ refs
  unfolding pass_refs pass_ref
  pass_refs_unchanged targets [] h = refl
  pass_refs_unchanged targets (r ∷ rs) h =
      ground
        (arith, pass_target_unchanged (ref_target r.name targets) r, pass_refs_unchanged targets rs)

  pass_rule_unchanged :
      (targets : Targets) (rule : Rule X)
      → (pass_rule targets rule).changed ≡ false
      → (pass_rule targets rule).result ≡ rule
  unfolding pass_rule
  pass_rule_unchanged targets rule h = by_refs rule.backend_refs h
    where
      by_refs :
          (refs : Option (List (BackendRef X)))
          → (pass_optional (pass_refs targets) refs).changed ≡ false
          → record_rule (pass_optional (pass_refs targets) refs).result rule.rest
            ≡ record_rule refs rule.rest
      by_refs none k = refl
      by_refs (some refs) k =
          ap (λ r. record_rule (some r) rule.rest) (pass_refs_unchanged targets refs k)

  pass_rules_unchanged :
      (targets : Targets) (rules : List (Rule X))
      → (pass_rules targets rules).changed ≡ false
      → (pass_rules targets rules).result ≡ rules
  unfolding pass_rules
  pass_rules_unchanged targets [] h = refl
  pass_rules_unchanged targets (r ∷ rs) h =
      ground (arith, pass_rule_unchanged targets r, pass_rules_unchanged targets rs)

  -- A pass that reports no change leaves the route as it was.
  pub apply_weights_to_route_unchanged :
      (targets : Targets) (route : Route X)
      → (apply_weights_to_route targets route).changed ≡ false
      → (apply_weights_to_route targets route).result ≡ route
  unfolding apply_weights_to_route
  apply_weights_to_route_unchanged targets route h = by_rules route.rules h
    where
      by_rules :
          (rules : Option (List (Rule X)))
          → (pass_optional (pass_rules targets) rules).changed ≡ false
          → record_route (pass_optional (pass_rules targets) rules).result route.rest
            ≡ record_route rules route.rest
      by_rules none k = refl
      by_rules (some rules) k =
          ap (λ r. record_route (some r) route.rest) (pass_rules_unchanged targets rules k)
