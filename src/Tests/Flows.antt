-- ===== src/Tests/Flows.antt =====
-- Examples for the flows of the dashboard.
use samsung.Prelude.{
  ℕ, zero, suc, true, false, inl, inr, sym, ◌∙◌, Text, contains, arith, ◌≤◌, pos, none, some, [],
  ◌∷◌, codes, text_eq, length, ◌≡◌, refl, if◌then◌else◌,
}
use samsung.Hubble.Lines.{event_of}
use samsung.Hubble.Fetch.{fetch_flows}
use samsung.Hubble.Fetch.Runs.{one_flow}
use samsung.Dashboard.Counters.{total}
use samsung.Dashboard.FlowCache.Sharing.{serve, all_events, fetch_flows_cached_shares}
use samsung.Dashboard.Layers.{Edges, Layers, layer_of, nodes_of, nodes_from, add_new, assign_layers}
use samsung.Dashboard.Layers.Walks.{IsStep, Walk, along}
use samsung.Dashboard.Layers.Longest.{assign_layers_longest}
use samsung.Dashboard.Flows.Counts.{summary, shown_in, summarize_counts}
use samsung.Tests.Fixtures.{thousandths}
use samsung.Tests.HubbleFixtures.{decoder, command, web_flow}

fetch_flows_cached_shares_example :
    serve decoder command 6000 (pos 300) (1000 ∷ 2000 ∷ 3000 ∷ []) none 0 ≡ (
      all_events decoder command 6000 (1000 ∷ 2000 ∷ 3000 ∷ []) (event_of decoder web_flow ∷ []),
      some (record { ts = 1000; last = pos 300; flows = event_of decoder web_flow ∷ [] }),
      (fetch_flows decoder command (pos 300) [] 0).1,
    )
unfolding thousandths
fetch_flows_cached_shares_example =
    fetch_flows_cached_shares decoder command 6000 (pos 300) 1000 (2000 ∷ 3000 ∷ [])
      (event_of decoder web_flow ∷ []) 0 one_flow (refl, (refl, tt))

summarize_counts_example :
    let s =
      summary
        (codes "kube-system" ∷ [])
        15
        (codes "app")
        none
        none
        (λ ns. ns)
        (event_of decoder web_flow ∷ []) in
    (total s.verdicts ≡ s.shown)
    × (shown_in s.top_pairs ≤ s.shown)
    × (length s.top_pairs ≤ 15)
    × (s.shown ≤ (if text_eq (codes "app") (codes "all") then s.total_flows else s.app_flows))
    × (s.app_flows ≤ s.total_flows)
summarize_counts_example =
    summarize_counts (codes "kube-system" ∷ []) 15 (codes "app") none none (λ ns. ns)
      (event_of decoder web_flow ∷ [])

-- a graph with a shortcut and an edge from a node to itself
abbrev shortcut : Edges
shortcut =
    (codes "a", codes "c")
    ∷ (codes "a", codes "b")
    ∷ (codes "b", codes "c")
    ∷ (codes "c", codes "c")
    ∷ []

true_ne_false : true ≡ false → ⊥
true_ne_false e = cc

abbrev heights : Layers
heights = (codes "a", 0) ∷ (codes "b", 1) ∷ (codes "c", 2) ∷ []

step_up : (x y : Text) → IsStep shortcut x y → suc (layer_of x heights) ≤ layer_of y heights
unfolding layer_of text_eq
step_up x y (inl (p, q), d) = rw (← p, ← q) (omega arith)
step_up x y (inr (inl (p, q)), d) = rw (← p, ← q) (omega arith)
step_up x y (inr (inr (inl (p, q))), d) = rw (← p, ← q) (omega arith)
step_up x y (inr (inr (inr (inl (p, q)))), d) =
    let same : text_eq x y ≡ true = rw (← p, ← q) refl in absurd (true_ne_false (sym same ∙ d))
step_up x y (inr (inr (inr (inr e))), d) = absurd e

Walk-height : (n : Text) (j : ℕ) → Walk shortcut n j → j ≤ layer_of n heights
Walk-height n zero w = omega arith
Walk-height n (suc j) (along {a} e w) = omega (arith, step_up a n e, Walk-height a j w)

height_bound : (n : Text) → layer_of n heights ≤ 2
unfolding layer_of
height_bound n = ground arith

shortcut_acyclic : (n : Text) → ¬ Walk shortcut n (length (nodes_of shortcut))
unfolding nodes_of nodes_from add_new text_eq
shortcut_acyclic n w = absurd (omega (arith, Walk-height n 3 w, height_bound n))

assign_layers_longest_example :
    Walk shortcut (codes "c") (layer_of (codes "c") (assign_layers (λ ns. ns) shortcut))
    × ((j : ℕ)
        → Walk shortcut (codes "c") j
        → j ≤ layer_of (codes "c") (assign_layers (λ ns. ns) shortcut))
unfolding nodes_of nodes_from add_new text_eq contains
assign_layers_longest_example =
    assign_layers_longest shortcut (λ ns. ns) (record { same_elements = λ ns n. refl })
      shortcut_acyclic (codes "c") refl
