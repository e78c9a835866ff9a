-- ===== src/Dashboard/Layers/Sets.antt =====
-- The sets of `_assign_layers` (dashboard/hubble_flows.py) hold every node and every target.
use samsung.Prelude.{
  true, false, ◌&&◌, not, Bool-cases, inl, inr, List, [], ◌∷◌, Text, text_eq, text_eq_refl,
  contains, ◌≡◌, refl, subst, arith, if◌then◌else◌, if_keeps,
}
use samsung.Dashboard.Layers.{Edges, add_new, nodes_from, targets_from}
use samsung.Dashboard.Layers.Walks.{IsEdge}

add_new_first : (n : Text) (ts : List Text) → contains n (add_new n ts) ≡ true
unfolding add_new contains
add_new_first n [] = rw (text_eq_refl n) refl
add_new_first n (m ∷ ms) = elim (Bool-cases (text_eq n m)) [
  | inl e ↦ rw (e, e) refl
  | inr e ↦ rw (e, e) (add_new_first n ms)
]

add_new_later :
    (b n : Text) (ts : List Text) → contains b ts ≡ true → contains b (add_new n ts) ≡ true
unfolding add_new contains
add_new_later b n [] h = cc
add_new_later b n (m ∷ ms) h = ground (arith, add_new_later b n ms)

targets_keep :
    (b n : Text) (ts : List Text) (es : Edges)
    → contains b ts ≡ true
    → contains b (targets_from ts n es) ≡ true
unfolding targets_from
targets_keep b n ts [] h = h
targets_keep b n ts ((src, dst) ∷ es) h =
    targets_keep b n (if text_eq src n && not (text_eq src dst) then add_new dst ts else ts) es (
      if_keeps (λ x. contains b x ≡ true) (text_eq src n && not (text_eq src dst))
        (add_new_later b dst ts h) h)

pub targets_complete :
    (a b : Text) (ts : List Text) (es : Edges)
    → IsEdge es a b
    → text_eq a b ≡ false
    → contains b (targets_from ts a es) ≡ true
unfolding targets_from
targets_complete a b ts [] e h = absurd e
targets_complete a b ts ((src, dst) ∷ es) (inl (e, f)) h =
    targets_keep b a (if text_eq src a && not (text_eq src dst) then add_new dst ts else ts) es
      (rw (e, f, text_eq_refl a, h) (add_new_first b ts))
targets_complete a b ts ((src, dst) ∷ es) (inr later) h =
    targets_complete a b (if text_eq src a && not (text_eq src dst) then add_new dst ts else ts) es
      later h

nodes_keep :
    (b : Text) (ns : List Text) (es : Edges)
    → contains b ns ≡ true
    → contains b (nodes_from ns es) ≡ true
unfolding nodes_from
nodes_keep b ns [] h = h
nodes_keep b ns ((src, dst) ∷ es) h =
    nodes_keep b (add_new dst (add_new src ns)) es
      (add_new_later b dst (add_new src ns) (add_new_later b src ns h))

pub nodes_complete :
    (a b : Text) (ns : List Text) (es : Edges)
    → IsEdge es a b
    → (contains a (nodes_from ns es) ≡ true) × (contains b (nodes_from ns es) ≡ true)
unfolding nodes_from
nodes_complete a b ns [] e = absurd e
nodes_complete a b ns ((src, dst) ∷ es) (inl (e, f)) = (
  nodes_keep a (add_new dst (add_new src ns)) es (
      add_new_later a dst (add_new src ns)
        (subst (λ x. contains x (add_new src ns) ≡ true) e (add_new_first src ns))),
  nodes_keep b (add_new dst (add_new src ns)) es (
      subst (λ x. contains x (add_new dst (add_new src ns)) ≡ true) f
        (add_new_first dst (add_new src ns))),
)
nodes_complete a b ns ((src, dst) ∷ es) (inr later) =
    nodes_complete a b (add_new dst (add_new src ns)) es later
