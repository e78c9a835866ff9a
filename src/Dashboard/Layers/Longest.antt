-- ===== src/Dashboard/Layers/Longest.antt =====
-- The layers are the longest walks (dashboard/hubble_flows.py, `_assign_layers`).
use samsung.Prelude.{
  ℕ, zero, suc, ◌+◌, ◌≤◌, ◌<◌, Bool, true, false, Bool-cases, inl, inr, ◌⊎◌, List, [], ◌∷◌, Text,
  text_eq, contains, length, leb, ◌≡◌, refl, sym, ap, subst, ◌∙◌, arith, if◌then◌else◌,
}
use samsung.Dashboard.Layers.{
  Edges, Layers, nodes_of, targets_from, layer_of, all_zero, relax_nodes, relax_rounds, relaxed,
  has_value, rank, compress, assign_layers,
}
use samsung.Dashboard.Layers.Walks.{
  IsStep, Walk, along, shorter-Walk, layer_of-Walk, Enumerates, relaxed-AreWalked,
}
use samsung.Dashboard.Layers.Sets.{targets_complete, nodes_complete}
use samsung.Dashboard.Layers.Passes.{
  has_key, all_zero_keys, relax_nodes-Grows, relax_nodes_reaches, relax_nodes_unchanged,
}

at_most_or_above : (x y : ℕ) → (x ≤ y) ⊎ (y < x)
at_most_or_above x y = elim (Bool-cases (leb x y)) [
  | inl e ↦ inl (ground arith)
  | inr e ↦ inr (ground arith)
]

-- the ranks of used values

rank_up : (ls : Layers) (x y : ℕ) → x ≤ y → rank ls x ≤ rank ls y
unfolding rank
rank_up ls x zero h = ground arith
rank_up ls x (suc y) h = elim (at_most_or_above x y) [
  | inl k ↦ ground (arith, rank_up ls x y k)
  | inr k ↦
      let same : suc y ≡ x = omega arith in
      subst (λ z. rank ls z ≤ rank ls (suc y)) same (omega arith)
]

rank_above : (ls : Layers) (x y : ℕ) → has_value x ls ≡ true → x < y → suc (rank ls x) ≤ rank ls y
unfolding rank
rank_above ls x y used h =
    let next : rank ls (suc x) ≡ suc (rank ls x) = rw used refl in
    omega (arith, next, rank_up ls (suc x) y h)

rank_at_most : (ls : Layers) (v : ℕ) → rank ls v ≤ v
unfolding rank
rank_at_most ls zero = omega arith
rank_at_most ls (suc v) = ground (arith, rank_at_most ls v)

has_value-layer_of :
    (n : Text) (ls : Layers) → has_key n ls ≡ true → has_value (layer_of n ls) ls ≡ true
unfolding has_value layer_of has_key
has_value-layer_of n [] h = cc
has_value-layer_of n ((m, k) ∷ ls) h = elim (Bool-cases (text_eq n m)) [
  | inl e ↦ ground arith
  | inr e ↦ ground (arith, has_value-layer_of n ls)
]

layer_of-compress :
    (used : Layers) (n : Text) (ls : Layers)
    → has_key n ls ≡ true
    → layer_of n (compress used ls) ≡ rank used (layer_of n ls)
unfolding layer_of compress has_key
layer_of-compress used n [] h = cc
layer_of-compress used n ((m, k) ∷ ls) h = elim (Bool-cases (text_eq n m)) [
  | inl e ↦ rw e refl
  | inr e ↦ rw e (layer_of-compress used n ls (ground arith))
]

module _ (all : Edges) (order : List Text → List Text) (sets : Enumerates order) where
  -- every node of an edge has a layer
  abbrev HasNodes : Layers → Type 0
  HasNodes ls = (n : Text) → contains n (nodes_of all) ≡ true → has_key n ls ≡ true

  -- walks along so many edges at most are no longer than the layers
  abbrev Covers : ℕ → Layers → Type 0
  Covers i ls = (n : Text) (j : ℕ) → j ≤ i → Walk all n j → j ≤ layer_of n ls

  pass_lifts :
      (a b : Text) (ls : Layers)
      → HasNodes ls
      → IsStep all a b
      → suc (layer_of a ls)
        ≤ layer_of b (relax_nodes order all (order (nodes_of all)) (ls, false)).0
  unfolding nodes_of
  pass_lifts a b ls keys (edge, differs) =
      let ends = nodes_complete a b [] all edge in
      relax_nodes_reaches all order a b (order (nodes_of all)) (ls, false)
        (sets.same_elements (nodes_of all) a ∙ ends.0)
        (sets.same_elements (targets_from [] a all) b ∙ targets_complete a b [] all edge differs)
        (keys b ends.1)

  pass-Covers :
      (i : ℕ) (ls : Layers)
      → HasNodes ls
      → Covers i ls
      → Covers (suc i) (relax_nodes order all (order (nodes_of all)) (ls, false)).0
  pass-Covers i ls keys h n zero k w = omega arith
  pass-Covers i ls keys h n (suc j) k (along {a} e w) =
      omega (arith, pass_lifts a n ls keys e, h a j (omega arith) w)

  -- after a pass that changes nothing the layers cover every walk
  still-Covers :
      (ls : Layers)
      → HasNodes ls
      → (relax_nodes order all (order (nodes_of all)) (ls, false)).1 ≡ false
      → (n : Text) (j : ℕ) → Walk all n j
      → j ≤ layer_of n ls
  still-Covers ls keys same n zero w = omega arith
  still-Covers ls keys same n (suc j) (along {a} e w) = omega (
    arith,
    pass_lifts a n ls keys e,
    ap (λ s. layer_of n s.0)
        (relax_nodes_unchanged all order (order (nodes_of all)) (ls, false) same),
    still-Covers ls keys same a j w,
  )

  rounds-Covers :
      (f i : ℕ) (ls : Layers)
      → HasNodes ls
      → Covers i ls
      → Covers (f + i) (relax_rounds order f all (order (nodes_of all)) ls)
        × HasNodes (relax_rounds order f all (order (nodes_of all)) ls)
  unfolding relax_rounds
  rounds-Covers zero i ls keys h = (λ n j k w. h n j (omega arith) w, keys)
  rounds-Covers (suc f) i ls keys h =
      let pass = relax_nodes order all (order (nodes_of all)) (ls, false) in
      let grown = relax_nodes-Grows all order (order (nodes_of all)) (ls, false) in
      let keys' : HasNodes pass.0 = λ n c. grown.keys n (keys n c) in
      by_flag pass.1 refl keys' (pass-Covers i ls keys h)
        (rounds-Covers f (suc i) pass.0 keys' (pass-Covers i ls keys h))
    where
      by_flag :
          (b : Bool)
          → (relax_nodes order all (order (nodes_of all)) (ls, false)).1 ≡ b
          → HasNodes (relax_nodes order all (order (nodes_of all)) (ls, false)).0
          → Covers (suc i) (relax_nodes order all (order (nodes_of all)) (ls, false)).0
          → (Covers (f + suc i) (
                relax_rounds order f all
                  (order (nodes_of all))
                  (relax_nodes order all (order (nodes_of all)) (ls, false)).0)
              × HasNodes (
                  relax_rounds order f all
                    (order (nodes_of all))
                    (relax_nodes order all (order (nodes_of all)) (ls, false)).0))
          → let after =
              if b
              then relax_rounds order f all
                  (order (nodes_of all))
                  (relax_nodes order all (order (nodes_of all)) (ls, false)).0
              else (relax_nodes order all (order (nodes_of all)) (ls, false)).0 in
            Covers (suc f + i) after × HasNodes after
      by_flag true flag keys' c rest = (λ n j k w. rest.0 n j (omega arith) w, rest.1)
      by_flag false flag keys' c rest = (
        λ n j k w. omega (
          arith,
          still-Covers ls keys flag n j w,
          ap (λ s. layer_of n s.0)
              (relax_nodes_unchanged all order (order (nodes_of all)) (ls, false) flag),
        ),
        keys',
      )

  relaxed-Covers : Covers (length (nodes_of all)) (relaxed order all) × HasNodes (relaxed order all)
  unfolding relaxed
  relaxed-Covers =
      let done =
        rounds-Covers (length (nodes_of all)) 0 (all_zero (order (nodes_of all)))
          (λ n c. all_zero_keys n (order (nodes_of all)) (sets.same_elements (nodes_of all) n ∙ c))
          (λ n j k w. omega arith) in
      (λ n j k w. done.0 n j (omega arith) w, done.1)

  module _ (acyclic : (n : Text) → ¬ Walk all n (length (nodes_of all))) where
    below_nodes : (n : Text) (k : ℕ) → Walk all n k → k < length (nodes_of all)
    below_nodes n k w = elim (at_most_or_above (length (nodes_of all)) k) [
      | inl h ↦ absurd (acyclic n (shorter-Walk (length (nodes_of all)) k h w))
      | inr h ↦ omega arith
    ]

    -- an edge leads to a higher layer, before the ranks are taken and after
    edge_up :
        (a b : Text)
        → IsStep all a b
        → layer_of a (relaxed order all) < layer_of b (relaxed order all)
    edge_up a b e =
        let w = layer_of-Walk all a (relaxed order all) (relaxed-AreWalked all order sets) in
        relaxed-Covers.0 b (suc (layer_of a (relaxed order all)))
          (below_nodes a (layer_of a (relaxed order all)) w) (along e w)

    Walk-rank :
        (n : Text) (j : ℕ)
        → Walk all n j
        → j ≤ rank (relaxed order all) (layer_of n (relaxed order all))
    unfolding nodes_of
    Walk-rank n zero w = omega arith
    Walk-rank n (suc j) (along {a} e w) =
        let ls = relaxed order all in
        omega (
          arith,
          Walk-rank a j w,
          rank_above ls (layer_of a ls) (layer_of n ls)
              (has_value-layer_of a ls (relaxed-Covers.1 a (nodes_complete a n [] all e.0).0))
              (edge_up a n e),
        )

    -- In a graph without a walk along as many edges as it has nodes, and so without a cycle, the layer of
    -- a node is the length of the longest walk that ends at it, none of whose edges leads from a
    -- node to itself; in whatever order the sets are iterated over.
    pub assign_layers_longest :
        (n : Text)
        → contains n (nodes_of all) ≡ true
        → Walk all n (layer_of n (assign_layers order all))
          × ((j : ℕ) → Walk all n j → j ≤ layer_of n (assign_layers order all))
    unfolding assign_layers
    assign_layers_longest n c =
        let ls = relaxed order all in
        let ranked = layer_of-compress ls n ls (relaxed-Covers.1 n c) in
        (
          subst (λ k. Walk all n k) (sym ranked)
              (shorter-Walk (rank ls (layer_of n ls)) (layer_of n ls)
                (rank_at_most ls (layer_of n ls))
                (layer_of-Walk all n ls (relaxed-AreWalked all order sets))),
          λ j w. subst (λ k. j ≤ k) (sym ranked) (Walk-rank n j w),
        )
