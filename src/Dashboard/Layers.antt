-- ===== src/Dashboard/Layers.antt =====
-- dashboard/hubble_flows.py, `_assign_layers`: the layers of the graph of flows. A set is a list without
-- repetition; the order in which Python iterates over a set is a parameter, `order`.
pub mod Walks
pub mod Sets
pub mod Passes
pub mod Longest
use samsung.Prelude.{
  ℕ, zero, suc, ◌+◌, Bool, true, false, ◌&&◌, not, List, [], ◌∷◌, Text, text_eq, contains, length,
  ltb, ◌==◌, if◌then◌else◌,
}

abbrev pub Edges : Type 0
Edges = List (Text × Text)

abbrev pub Layers : Type 0
Layers = List (Text × ℕ)

-- `set.add`
unfoldable pub add_new : Text → List Text → List Text
add_new n [] = n ∷ []
add_new n (m ∷ ms) = let rest = add_new n ms in if text_eq n m then m ∷ ms else m ∷ rest

unfoldable pub nodes_from : List Text → Edges → List Text
unfolding add_new
nodes_from ns [] = ns
nodes_from ns ((src, dst) ∷ es) = nodes_from (add_new dst (add_new src ns)) es

unfoldable pub nodes_of : Edges → List Text
unfolding nodes_from
nodes_of es = nodes_from [] es

-- `adj[src]`: edges from a node to itself are left out
pub targets_from : List Text → Text → Edges → List Text
unfolding add_new
targets_from ts n [] = ts
targets_from ts n ((src, dst) ∷ es) =
    targets_from (if text_eq src n && not (text_eq src dst) then add_new dst ts else ts) n es

unfoldable pub layer_of : Text → Layers → ℕ
layer_of n [] = 0
layer_of n ((m, k) ∷ ls) = if text_eq n m then k else layer_of n ls

pub set_layer : Text → ℕ → Layers → Layers
set_layer n v [] = []
set_layer n v ((m, k) ∷ ls) =
    let rest = set_layer n v ls in if text_eq n m then (m, v) ∷ ls else (m, k) ∷ rest

pub all_zero : List Text → Layers
all_zero [] = []
all_zero (n ∷ ns) = (n, 0) ∷ all_zero ns

-- the loop over the targets of a node
pub relax : ℕ → List Text → Layers × Bool → Layers × Bool
unfolding layer_of set_layer
relax base [] s = s
relax base (dst ∷ dsts) (ls, changed) =
    relax base dsts
      (if ltb (layer_of dst ls) base then (set_layer dst base ls, true) else (ls, changed))

module _ (order : List Text → List Text) where
  -- one pass over the nodes
  pub relax_nodes : Edges → List Text → Layers × Bool → Layers × Bool
  unfolding relax targets_from
  relax_nodes es [] s = s
  relax_nodes es (src ∷ ns) (ls, changed) =
      relax_nodes es ns (relax (layer_of src ls + 1) (order (targets_from [] src es)) (ls, changed))

  -- at most so many passes, until one changes nothing
  pub relax_rounds : ℕ → Edges → List Text → Layers → Layers
  unfolding relax_nodes
  relax_rounds zero es ns ls = ls
  relax_rounds (suc f) es ns ls =
      let (ls', changed) = relax_nodes es ns (ls, false) in
      let rest = relax_rounds f es ns ls' in if changed then rest else ls'

  pub relaxed : Edges → Layers
  unfolding relax_rounds nodes_of all_zero
  relaxed es =
      let nodes = order (nodes_of es) in
      relax_rounds (length (nodes_of es)) es nodes (all_zero nodes)

-- the values below v, without repetition
pub has_value : ℕ → Layers → Bool
has_value v [] = false
has_value v ((n, k) ∷ ls) = if v == k then true else has_value v ls

-- the rank of v: how many values below it are used
pub rank : Layers → ℕ → ℕ
unfolding has_value
rank ls zero = 0
rank ls (suc v) = let below = rank ls v in if has_value v ls then suc below else below

pub compress : Layers → Layers → Layers
unfolding rank
compress all [] = []
compress all ((n, k) ∷ ls) = (n, rank all k) ∷ compress all ls

pub assign_layers : (List Text → List Text) → Edges → Layers
unfolding relaxed compress
assign_layers order es = compress (relaxed order es) (relaxed order es)
