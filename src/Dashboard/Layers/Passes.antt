-- ===== src/Dashboard/Layers/Passes.antt =====
-- What the passes of the relaxation reach (dashboard/hubble_flows.py, `_assign_layers`): no layer drops,
-- and a pass lifts the target of each edge above its source.
use samsung.Prelude.{
  ℕ, suc, ◌+◌, ◌≤◌, Bool, true, false, ◌||◌, Bool-cases, inl, inr, List, [], ◌∷◌, Text, text_eq,
  text_eq→eq, contains, ltb, ◌≡◌, refl, sym, ap, subst, ◌∙◌, arith, if◌then◌else◌, if_keeps,
}
use samsung.Dashboard.Layers.{
  Edges, Layers, targets_from, layer_of, set_layer, all_zero, relax, relax_nodes,
}

-- whether the node has a layer
unfoldable pub has_key : Text → Layers → Bool
has_key n [] = false
has_key n ((m, k) ∷ ls) = text_eq n m || has_key n ls

has_key-set_layer : (n b : Text) (v : ℕ) (ls : Layers) → has_key n (set_layer b v ls) ≡ has_key n ls
unfolding has_key set_layer
has_key-set_layer n b v [] = refl
has_key-set_layer n b v ((m, k) ∷ ls) = elim (Bool-cases (text_eq b m)) [
  | inl e ↦ rw e refl
  | inr e ↦ rw e (ap (λ x. text_eq n m || x) (has_key-set_layer n b v ls))
]

layer_of-set_layer :
    (b : Text) (v : ℕ) (ls : Layers) → has_key b ls ≡ true → layer_of b (set_layer b v ls) ≡ v
unfolding has_key set_layer layer_of
layer_of-set_layer b v [] h = cc
layer_of-set_layer b v ((m, k) ∷ ls) h = elim (Bool-cases (text_eq b m)) [
  | inl e ↦ rw (e, e) refl
  | inr e ↦ rw (e, e) (layer_of-set_layer b v ls (ground arith))
]

-- a layer that is raised lowers none
set_layer_grows :
    (m b : Text) (v : ℕ) (ls : Layers)
    → layer_of b ls ≤ v
    → layer_of m ls ≤ layer_of m (set_layer b v ls)
unfolding set_layer layer_of
set_layer_grows m b v [] h = omega arith
set_layer_grows m b v ((n, k) ∷ ls) h = elim (Bool-cases (text_eq b n)) [
  | inl e ↦ ground arith
  | inr e ↦ ground (arith, set_layer_grows m b v ls)
]

-- no layer drops and no node is lost
pub record Grows (ls ls' : Layers) : Type 0 where
  pub higher : (m : Text) → layer_of m ls ≤ layer_of m ls'
  pub keys : (m : Text) → has_key m ls ≡ true → has_key m ls' ≡ true

Grows-refl : (ls : Layers) → Grows ls ls
Grows-refl ls = record { higher = λ m. omega arith; keys = λ m h. h }

Grows-trans : {a b c : Layers} → Grows a b → Grows b c → Grows a c
Grows-trans {a} {b} {c} g h = record {
  higher = λ m. omega (arith, g.higher m, h.higher m);
  keys = λ m k. h.keys m (g.keys m k);
}

-- one target
abbrev relax_one : ℕ → Text → Layers × Bool → Layers × Bool
relax_one base dst (ls, changed) =
    if ltb (layer_of dst ls) base then (set_layer dst base ls, true) else (ls, changed)

relax_one-Grows : (base : ℕ) (dst : Text) (s : Layers × Bool) → Grows s.0 (relax_one base dst s).0
relax_one-Grows base dst (ls, changed) = elim (Bool-cases (ltb (layer_of dst ls) base)) [
  | inl e ↦ rw e (record {
    higher = λ m. set_layer_grows m dst base ls (ground arith);
    keys = λ m k. has_key-set_layer m dst base ls ∙ k;
  })
  | inr e ↦ rw e (Grows-refl ls)
]

relax_one_reaches :
    (base : ℕ) (dst : Text) (s : Layers × Bool)
    → has_key dst s.0 ≡ true
    → base ≤ layer_of dst (relax_one base dst s).0
relax_one_reaches base dst (ls, changed) h = elim (Bool-cases (ltb (layer_of dst ls) base)) [
  | inl e ↦ rw e (omega (arith, layer_of-set_layer dst base ls h))
  | inr e ↦ rw e (ground arith)
]

relax-Grows : (base : ℕ) (dsts : List Text) (s : Layers × Bool) → Grows s.0 (relax base dsts s).0
unfolding relax
relax-Grows base [] s = Grows-refl s.0
relax-Grows base (dst ∷ dsts) (ls, changed) =
    Grows-trans (relax_one-Grows base dst (ls, changed))
      (relax-Grows base dsts (relax_one base dst (ls, changed)))

relax_reaches :
    (base : ℕ) (dsts : List Text) (s : Layers × Bool) (b : Text)
    → contains b dsts ≡ true
    → has_key b s.0 ≡ true
    → base ≤ layer_of b (relax base dsts s).0
unfolding relax contains
relax_reaches base [] s b c h = cc
relax_reaches base (dst ∷ dsts) (ls, changed) b c h =
    let next = relax_one base dst (ls, changed) in
    elim (Bool-cases (text_eq b dst)) [
      | inl e ↦
          let same = text_eq→eq b dst e in
          omega (
            arith,
            relax_one_reaches base b (ls, changed) h,
            (subst (λ x. Grows (relax_one base x (ls, changed)).0 (relax base dsts next).0)
                  (sym same) (relax-Grows base dsts next)).higher
                b,
          )
      | inr e ↦
          relax_reaches base dsts next b (ground arith)
            ((relax_one-Grows base dst (ls, changed)).keys b h)
    ]

-- an unset flag: nothing has changed
relax_marks : (base : ℕ) (dsts : List Text) (ls : Layers) → (relax base dsts (ls, true)).1 ≡ true
unfolding relax
relax_marks base [] ls = refl
relax_marks base (dst ∷ dsts) ls =
    if_keeps (λ (s : Layers × Bool). (relax base dsts s).1 ≡ true) (ltb (layer_of dst ls) base)
      (relax_marks base dsts (set_layer dst base ls)) (relax_marks base dsts ls)

relax_unchanged :
    (base : ℕ) (dsts : List Text) (s : Layers × Bool)
    → (relax base dsts s).1 ≡ false
    → relax base dsts s ≡ s
unfolding relax
relax_unchanged base [] s h = refl
relax_unchanged base (dst ∷ dsts) (ls, changed) h =
    by_test (ltb (layer_of dst ls) base) (relax_unchanged base dsts (ls, changed)) h
  where
    true_ne_false : true ≡ false → ⊥
    true_ne_false e = cc

    by_test :
        (b : Bool)
        → ((relax base dsts (ls, changed)).1 ≡ false
            → relax base dsts (ls, changed) ≡ (ls, changed))
        → (relax base dsts (if b then (set_layer dst base ls, true) else (ls, changed))).1 ≡ false
        → relax base dsts (if b then (set_layer dst base ls, true) else (ls, changed))
          ≡ (ls, changed)
    by_test true k g =
        absurd (true_ne_false (sym (relax_marks base dsts (set_layer dst base ls)) ∙ g))
    by_test false k g = k g

pub all_zero_keys :
    (n : Text) (ns : List Text) → contains n ns ≡ true → has_key n (all_zero ns) ≡ true
unfolding contains has_key all_zero
all_zero_keys n [] h = cc
all_zero_keys n (m ∷ ms) h = ground (arith, all_zero_keys n ms)

module _ (all : Edges) (order : List Text → List Text) where
  pub relax_nodes-Grows :
      (ns : List Text) (s : Layers × Bool) → Grows s.0 (relax_nodes order all ns s).0
  unfolding relax_nodes
  relax_nodes-Grows [] s = Grows-refl s.0
  relax_nodes-Grows (src ∷ ns) (ls, changed) =
      let dsts = order (targets_from [] src all) in
      Grows-trans (relax-Grows (layer_of src ls + 1) dsts (ls, changed))
        (relax_nodes-Grows ns (relax (layer_of src ls + 1) dsts (ls, changed)))

  -- a pass lifts the target of an edge above the layer that its source had before
  pub relax_nodes_reaches :
      (a b : Text) (ns : List Text) (s : Layers × Bool)
      → contains a ns ≡ true
      → contains b (order (targets_from [] a all)) ≡ true
      → has_key b s.0 ≡ true
      → suc (layer_of a s.0) ≤ layer_of b (relax_nodes order all ns s).0
  unfolding relax_nodes contains
  relax_nodes_reaches a b [] s c t h = cc
  relax_nodes_reaches a b (src ∷ ns) (ls, changed) c t h =
      let next = relax (layer_of src ls + 1) (order (targets_from [] src all)) (ls, changed) in
      let grown =
        relax-Grows (layer_of src ls + 1) (order (targets_from [] src all)) (ls, changed) in
      elim (Bool-cases (text_eq a src)) [
        | inl e ↦
            let same = text_eq→eq a src e in
            omega (
              arith,
              relax_reaches (layer_of src ls + 1) (order (targets_from [] src all)) (ls, changed) b
                  (subst (λ x. contains b (order (targets_from [] x all)) ≡ true) same t) h,
              ap (λ x. layer_of x ls) same,
              (relax_nodes-Grows ns next).higher b,
            )
        | inr e ↦ omega (
          arith,
          relax_nodes_reaches a b ns next (ground arith) t (grown.keys b h),
          grown.higher a,
        )
      ]

  relax_nodes_marks :
      (ns : List Text) (ls : Layers) → (relax_nodes order all ns (ls, true)).1 ≡ true
  unfolding relax_nodes
  relax_nodes_marks [] ls = refl
  relax_nodes_marks (src ∷ ns) ls =
      let next = relax (layer_of src ls + 1) (order (targets_from [] src all)) (ls, true) in
      ap (λ x. (relax_nodes order all ns (next.0, x)).1)
        (relax_marks (layer_of src ls + 1) (order (targets_from [] src all)) ls)
      ∙ relax_nodes_marks ns next.0

  -- a pass that leaves the flag unset has changed nothing
  pub relax_nodes_unchanged :
      (ns : List Text) (s : Layers × Bool)
      → (relax_nodes order all ns s).1 ≡ false
      → relax_nodes order all ns s ≡ s
  unfolding relax_nodes
  relax_nodes_unchanged [] s h = refl
  relax_nodes_unchanged (src ∷ ns) (ls, changed) h =
      let next = relax (layer_of src ls + 1) (order (targets_from [] src all)) (ls, changed) in
      let rest = relax_nodes_unchanged ns next h in
      rest
      ∙ relax_unchanged (layer_of src ls + 1) (order (targets_from [] src all)) (ls, changed)
          (sym (ap (λ x. x.1) rest) ∙ h)
