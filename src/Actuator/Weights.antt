-- ===== src/Actuator/Weights.antt =====
-- actuator/router.py: the weights, their check, and the pass over the entries of a route.
pub mod Bounds
pub mod Entries
pub mod Runs
use samsung.Prelude.{
  ℤ, pos, ◌+ℤ◌, ◌-ℤ◌, ltb_ℤ, eqb_ℤ, max_ℤ, min_ℤ, abs, Bool, true, false, ◌||◌, Option, none, some,
  List, [], ◌∷◌, ◌++◌, Text, codes, str_int, text_eq, or_else, if◌then◌else◌,
}
use samsung.Schemas.{Weight, int, not_int, Weights}
use samsung.Actuator.Cluster.{BackendRef, Rule, Route}

abbrev pub max_weight_delta : ℤ
max_weight_delta = pos 30

abbrev pub default_backend_weight : ℤ
default_backend_weight = pos 1

abbrev pub versions : List Text
versions = codes "v1" ∷ codes "v1beta1" ∷ []

pub clamp_weight_change : ℤ → ℤ → ℤ
clamp_weight_change current target =
    let delta = target -ℤ current in
    let limited =
      if ltb_ℤ max_weight_delta (pos (abs delta))
      then (if ltb_ℤ (pos 0) delta then max_weight_delta else pos 0 -ℤ max_weight_delta)
      else delta in
    max_ℤ (pos 0) (min_ℤ (pos 100) (current +ℤ limited))

-- the accepted weights by backend
abbrev pub Targets : Type 0
Targets = List (Text × ℤ)

-- the entry that a weight of the policy leaves, and the one that refuses it
accept : Text → Weight → Targets
accept name (int w) = if ltb_ℤ w (pos 0) || ltb_ℤ (pos 100) w then [] else (name, w) ∷ []
accept name (not_int r) = []

refuse : Text → Weight → List Text
refuse name (int w) =
    if ltb_ℤ w (pos 0) || ltb_ℤ (pos 100) w
    then (name ++ (codes "=" ++ (str_int w ++ codes "(0~100 범위 밖)"))) ∷ []
    else []
refuse name (not_int r) = (name ++ (codes "=" ++ (r ++ codes "(정수 아님)"))) ∷ []

unfoldable pub normalize_targets : Weights → Targets × List Text
unfolding accept refuse
normalize_targets [] = ([], [])
normalize_targets ((name, w) ∷ ws) =
    let (clean, rejected) = normalize_targets ws in
    (accept name w ++ clean, refuse name w ++ rejected)

-- `targets[name]`, for a name that is in it
pub target_of : Text → Targets → Option ℤ
target_of name [] = none
target_of name ((n, w) ∷ ts) = if text_eq name n then some w else target_of name ts

-- `ref.get("name")` looked up in the targets
pub ref_target : Option Text → Targets → Option ℤ
unfolding target_of
ref_target none targets = none
ref_target (some name) targets = target_of name targets

-- the result of the pass over a route: whether it changed, the summaries, the matched names
pub record Pass (A : Type 0) : Type 0 where
  pub changed : Bool
  pub summaries : List Text
  pub matched : List Text
  pub result : A

moved_text : Text → ℤ → ℤ → ℤ → Text
moved_text name current desired target =
    name
    ++ (codes " "
        ++ (str_int current
            ++ (codes "->"
                ++ (str_int desired ++ (codes "(target=" ++ (str_int target ++ codes ")"))))))

kept_text : Text → ℤ → Text
kept_text name current = name ++ (codes " " ++ (str_int current ++ codes "(변화없음)"))

module _ {X : Type 0} where
  pub current_weight : BackendRef X → ℤ
  current_weight ref = or_else ref.weight default_backend_weight

  -- a matched entry
  set_ref : BackendRef X → Text → ℤ → ℤ → Pass (BackendRef X)
  unfolding current_weight moved_text kept_text
  set_ref ref name target desired =
      if eqb_ℤ desired (current_weight ref)
      then record {
        changed = false;
        summaries = kept_text name (current_weight ref) ∷ [];
        matched = name ∷ [];
        result = ref;
      }
      else record {
        changed = true;
        summaries = moved_text name (current_weight ref) desired target ∷ [];
        matched = name ∷ [];
        result = record ref { weight = some desired };
      }

  pass_target : Option ℤ → BackendRef X → Pass (BackendRef X)
  unfolding set_ref clamp_weight_change
  pass_target none ref = record { changed = false; summaries = []; matched = []; result = ref }
  pass_target (some target) ref =
      set_ref ref (or_else ref.name []) target (clamp_weight_change (current_weight ref) target)

  -- one round of the inner loop
  unfoldable pub pass_ref : Targets → BackendRef X → Pass (BackendRef X)
  unfolding pass_target ref_target
  pass_ref targets ref = pass_target (ref_target ref.name targets) ref

-- one round, then the rest of the loop
abbrev join_pass : {A B C : Type 0} → (A → B → C) → Pass A → Pass B → Pass C
join_pass f p q = record {
  changed = p.changed || q.changed;
  summaries = p.summaries ++ q.summaries;
  matched = p.matched ++ q.matched;
  result = f p.result q.result;
}

abbrev no_pass : {A : Type 0} → A → Pass A
no_pass a = record { changed = false; summaries = []; matched = []; result = a }

-- the pass over a part, put back into its place
abbrev map_pass : {A B : Type 0} → (A → B) → Pass A → Pass B
map_pass f p = record {
  changed = p.changed;
  summaries = p.summaries;
  matched = p.matched;
  result = f p.result;
}

-- a list that is missing or null is left as it is
abbrev pass_optional :
    {A : Type 0} → (List A → Pass (List A)) → Option (List A) → Pass (Option (List A))
pass_optional f none = no_pass none
pass_optional f (some xs) = map_pass some (f xs)

module _ {X : Type 0} where
  unfoldable pub pass_refs : Targets → List (BackendRef X) → Pass (List (BackendRef X))
  pass_refs targets [] = no_pass []
  pass_refs targets (r ∷ rs) = join_pass ◌∷◌ (pass_ref targets r) (pass_refs targets rs)

  unfoldable pub pass_rule : Targets → Rule X → Pass (Rule X)
  unfolding pass_refs
  pass_rule targets rule =
      map_pass (λ refs. record { backend_refs = refs; rest = rule.rest })
        (pass_optional (pass_refs targets) rule.backend_refs)

  unfoldable pub pass_rules : Targets → List (Rule X) → Pass (List (Rule X))
  pass_rules targets [] = no_pass []
  pass_rules targets (r ∷ rs) = join_pass ◌∷◌ (pass_rule targets r) (pass_rules targets rs)

  -- `_apply_weights_to_route`; the route that it changes in place is the result
  unfoldable pub apply_weights_to_route : Targets → Route X → Pass (Route X)
  unfolding pass_rules
  apply_weights_to_route targets route =
      map_pass (λ rules. record { rules = rules; rest = route.rest })
        (pass_optional (pass_rules targets) route.rules)
