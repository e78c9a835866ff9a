-- ===== src/Dashboard/Layers/Walks.antt =====
-- Layers are lengths of walks (dashboard/hubble_flows.py, `_assign_layers`).
use samsung.Prelude.{
  ℕ, zero, suc, ◌+◌, ◌≤◌, Bool, true, false, ◌&&◌, not, Bool-cases, inl, inr, ◌⊎◌, List, [], ◌∷◌,
  Text, text_eq, text_eq_refl, contains, ◌∙◌, text_eq→eq, length, ltb, All, ◌≡◌, refl, sym, subst,
  arith, if◌then◌else◌, if_keeps,
}
use samsung.Dashboard.Layers.{
  Edges, Layers, add_new, targets_from, layer_of, set_layer, all_zero, relax, relax_nodes,
  relax_rounds, nodes_of, relaxed,
}

-- sets as lists

pub contains_first : (n : Text) (ns : List Text) → contains n (n ∷ ns) ≡ true
unfolding contains
contains_first n ns = rw (text_eq_refl n) refl

pub contains_later :
    (n m : Text) (ns : List Text) → contains n ns ≡ true → contains n (m ∷ ns) ≡ true
unfolding contains
contains_later n m ns h = ground arith

contains_none : (n : Text) → contains n [] ≡ true → ⊥
unfolding contains
contains_none n h = cc

contains-add_new :
    (b n : Text) (ts : List Text)
    → contains b (add_new n ts) ≡ true
    → (b ≡ n) ⊎ (contains b ts ≡ true)
unfolding contains add_new
contains-add_new b n [] h = inl (text_eq→eq b n (ground arith))
contains-add_new b n (m ∷ ms) h = elim (Bool-cases (text_eq b m)) [
  | inl e ↦ inr (rw e refl)
  | inr e ↦ elim (Bool-cases (text_eq n m)) [
    | inl same ↦ inr (rw e (ground arith))
    | inr other ↦ elim (contains-add_new b n ms (ground arith)) [
      | inl f ↦ inl f
      | inr f ↦ inr (rw e f)
    ]
  ]
]

-- an edge of the list
abbrev pub IsEdge : Edges → Text → Text → Type 0
IsEdge [] a b = ⊥
IsEdge ((src, dst) ∷ es) a b = ((src ≡ a) × (dst ≡ b)) ⊎ IsEdge es a b

-- an edge between two nodes
abbrev pub IsStep : Edges → Text → Text → Type 0
IsStep es a b = IsEdge es a b × (text_eq a b ≡ false)

-- a walk along so many edges, none from a node to itself, which ends at the node
pub data Walk (es : Edges) : Text → ℕ → Type 0 where
  here : {n : Text} → Walk es n 0
  along : {a b : Text} {k : ℕ} → IsStep es a b → Walk es a k → Walk es b (suc k)

-- every layer is the length of a walk to its node
abbrev pub AreWalked : Edges → Layers → Type 0
AreWalked es ls = All (λ p. Walk es p.0 p.1) ls

-- the last edges of a walk are a walk
pub shorter-Walk : {es : Edges} {n : Text} (r k : ℕ) → r ≤ k → Walk es n k → Walk es n r
shorter-Walk zero k h w = here
shorter-Walk (suc r) zero h w = ground arith
shorter-Walk (suc r) (suc k) h (along e w) = along e (shorter-Walk r k (omega arith) w)

-- The iteration over a set gives its elements.
pub record Enumerates (order : List Text → List Text) : Type 0 where
  pub same_elements : (ns : List Text) (n : Text) → contains n (order ns) ≡ contains n ns

-- `b` is in the list only if an edge leads to it
module _ (es : Edges) where
  abbrev pub AreTargets : Text → List Text → Type 0
  AreTargets a ts = (b : Text) → contains b ts ≡ true → IsStep es a b

  add_new-AreTargets :
      (a n : Text) (ts : List Text) → IsStep es a n → AreTargets a ts → AreTargets a (add_new n ts)
  add_new-AreTargets a n ts e h b c = elim (contains-add_new b n ts c) [
    | inl same ↦ subst (λ x. IsStep es a x) (sym same) e
    | inr old ↦ h b old
  ]

  set_layer-AreWalked :
      (b : Text) (v : ℕ) (ls : Layers)
      → Walk es b v
      → AreWalked es ls
      → AreWalked es (set_layer b v ls)
  unfolding set_layer
  set_layer-AreWalked b v [] w h = tt
  set_layer-AreWalked b v ((m, k) ∷ ls) w h = elim (Bool-cases (text_eq b m)) [
    | inl e ↦ rw e (subst (λ n. Walk es n v) (text_eq→eq b m e) w, h.1)
    | inr e ↦ rw e (h.0, set_layer-AreWalked b v ls w h.1)
  ]

  pub layer_of-Walk : (n : Text) (ls : Layers) → AreWalked es ls → Walk es n (layer_of n ls)
  unfolding layer_of
  layer_of-Walk n [] h = here
  layer_of-Walk n ((m, k) ∷ ls) h = elim (Bool-cases (text_eq n m)) [
    | inl e ↦ rw e (subst (λ a. Walk es a k) (sym (text_eq→eq n m e)) h.0)
    | inr e ↦ rw e (layer_of-Walk n ls h.1)
  ]

  relax-AreWalked :
      (a : Text) (k : ℕ) (dsts : List Text) (s : Layers × Bool)
      → Walk es a k
      → AreTargets a dsts
      → AreWalked es s.0
      → AreWalked es (relax (k + 1) dsts s).0
  unfolding relax
  relax-AreWalked a k [] s w t h = h
  relax-AreWalked a k (dst ∷ dsts) (ls, changed) w t h =
      relax-AreWalked a k dsts
        (if ltb (layer_of dst ls) (k + 1) then (set_layer dst (k + 1) ls, true) else (ls, changed))
        w (λ b c. t b (contains_later b dst dsts c))
        (if_keeps (λ (s : Layers × Bool). AreWalked es s.0) (ltb (layer_of dst ls) (k + 1))
          (set_layer-AreWalked dst (k + 1) ls
            (subst (λ n. Walk es dst n) (omega arith) (along (t dst (contains_first dst dsts)) w))
            h)
          h)

module _ (all : Edges) where
  targets_from-AreTargets :
      (ts : List Text) (n : Text) (es : Edges)
      → AreTargets all n ts
      → ((a b : Text) → IsEdge es a b → IsEdge all a b)
      → AreTargets all n (targets_from ts n es)
  unfolding targets_from
  targets_from-AreTargets ts n [] t sub = t
  targets_from-AreTargets ts n ((src, dst) ∷ es) t sub =
      targets_from-AreTargets
        (if text_eq src n && not (text_eq src dst) then add_new dst ts else ts) n es
        (added (text_eq src n) (text_eq src dst) refl refl) (λ a b e. sub a b (inr e))
    where
      added :
          (x y : Bool)
          → text_eq src n ≡ x
          → text_eq src dst ≡ y
          → AreTargets all n (if x && not y then add_new dst ts else ts)
      added true false e d =
          add_new-AreTargets all n dst ts
            (
              sub n dst (inl (text_eq→eq src n e, refl)),
              subst (λ a. text_eq a dst ≡ false) (text_eq→eq src n e) d,
            )
            t
      added true true e d = t
      added false y e d = t

module _ (all : Edges) (order : List Text → List Text) (sets : Enumerates order) where
  relax_nodes-AreWalked :
      (ns : List Text) (s : Layers × Bool)
      → AreWalked all s.0
      → AreWalked all (relax_nodes order all ns s).0
  unfolding relax_nodes
  relax_nodes-AreWalked [] s h = h
  relax_nodes-AreWalked (src ∷ ns) (ls, changed) h =
      relax_nodes-AreWalked ns
        (relax (layer_of src ls + 1) (order (targets_from [] src all)) (ls, changed))
        (relax-AreWalked all src (layer_of src ls) (order (targets_from [] src all)) (ls, changed)
          (layer_of-Walk all src ls h)
          (λ b c.
            targets_from-AreTargets all [] src all (λ b c. absurd (contains_none b c)) (λ a b e. e)
              b (sym (sets.same_elements (targets_from [] src all) b) ∙ c))
          h)

  relax_rounds-AreWalked :
      (f : ℕ) (ns : List Text) (ls : Layers)
      → AreWalked all ls
      → AreWalked all (relax_rounds order f all ns ls)
  unfolding relax_rounds
  relax_rounds-AreWalked zero ns ls h = h
  relax_rounds-AreWalked (suc f) ns ls h =
      let after = relax_nodes-AreWalked ns (ls, false) h in
      if_keeps (AreWalked all) (relax_nodes order all ns (ls, false)).1
        (relax_rounds-AreWalked f ns (relax_nodes order all ns (ls, false)).0 after) after

  all_zero-AreWalked : (ns : List Text) → AreWalked all (all_zero ns)
  unfolding all_zero
  all_zero-AreWalked [] = tt
  all_zero-AreWalked (n ∷ ns) = (here, all_zero-AreWalked ns)

  pub relaxed-AreWalked : AreWalked all (relaxed order all)
  unfolding relaxed
  relaxed-AreWalked =
      relax_rounds-AreWalked (length (nodes_of all)) (order (nodes_of all))
        (all_zero (order (nodes_of all))) (all_zero-AreWalked (order (nodes_of all)))
