-- ===== src/Dashboard/Flows/Counts.antt =====
-- The counts of dashboard/hubble_flows.py, `summarize`, agree with one another.
use samsung.Prelude.{
  ℕ, ◌+◌, ◌≤◌, Bool, true, false, Option, none, some, List, [], ◌∷◌, Text, codes, text_eq, length,
  ◌≡◌, refl, sym, ap, subst, ◌∙◌, arith, if◌then◌else◌,
}
use samsung.Actuator.Environment.{present}
use samsung.Hubble.{FlowEvent}
use samsung.Dashboard.Counters.{
  total, count_from, most_common, total-counted, total-most_common, sort_by, length-take, at_least,
}
use samsung.Dashboard.Flows.{
  Pair, PairRow, FlowSummary, same_pair, is_application_flow, flow_in_namespace, flow_touches, keep,
  keep_if_given, pairs_of, verdicts_of, rows_of, top_rows, scoped, selected, summarize,
}

-- the flows of the rows
abbrev pub shown_in : List PairRow → ℕ
shown_in [] = 0
shown_in (r ∷ rs) = r.count + shown_in rs

module _ {F : Type 0} where
  length-keep :
      (p : FlowEvent F → Bool) (evs : List (FlowEvent F)) → length (keep p evs) ≤ length evs
  unfolding keep
  length-keep p [] = omega arith
  length-keep p (ev ∷ evs) = ground (arith, length-keep p evs)

  length-keep_if_given :
      (p : Text → FlowEvent F → Bool) (o : Option Text) (evs : List (FlowEvent F))
      → length (keep_if_given p o evs) ≤ length evs
  unfolding keep_if_given
  length-keep_if_given p none evs = omega arith
  length-keep_if_given p (some t) evs = length-keep (p t) evs

  length-verdicts_of : (evs : List (FlowEvent F)) → length (verdicts_of evs) ≡ length evs
  unfolding verdicts_of
  length-verdicts_of [] = refl
  length-verdicts_of (ev ∷ evs) = ground (arith, length-verdicts_of evs)

  length-pairs_of : (evs : List (FlowEvent F)) → length (pairs_of evs) ≡ length evs
  unfolding pairs_of
  length-pairs_of [] = refl
  length-pairs_of (ev ∷ evs) = ground (arith, length-pairs_of evs)

  shown_in-rows_of :
      (evs : List (FlowEvent F)) (c : List (Pair × ℕ)) → shown_in (rows_of evs c) ≡ total c
  unfolding rows_of total
  shown_in-rows_of evs [] = refl
  shown_in-rows_of evs ((k, n) ∷ r) = ap (λ m. n + m) (shown_in-rows_of evs r)

  length-rows_of :
      (evs : List (FlowEvent F)) (c : List (Pair × ℕ)) → length (rows_of evs c) ≡ length c
  unfolding rows_of
  length-rows_of evs [] = refl
  length-rows_of evs ((k, n) ∷ r) = ground (arith, length-rows_of evs r)

module _ {F : Type 0} (system_namespaces : List Text) (top_n : ℕ) (scope : Text)
    (namespace focus : Option Text) (order : List Text → List Text) (evs : List (FlowEvent F)) where
  abbrev pub summary : FlowSummary
  summary = summarize system_namespaces top_n scope namespace focus order evs

  length-scoped : length (scoped system_namespaces top_n scope namespace focus evs) ≤ (
      if text_eq scope (codes "all")
      then length evs
      else length (keep (is_application_flow system_namespaces) evs))
  unfolding scoped
  length-scoped = by_scope (text_eq scope (codes "all"))
    where
      by_scope :
          (b : Bool)
          → length (if b then evs else keep (is_application_flow system_namespaces) evs)
            ≤ (if b then length evs else length (keep (is_application_flow system_namespaces) evs))
      by_scope true = omega arith
      by_scope false = omega arith

  length-selected : length (selected system_namespaces top_n scope namespace focus evs) ≤ (
      if text_eq scope (codes "all")
      then length evs
      else length (keep (is_application_flow system_namespaces) evs))
  unfolding selected
  length-selected =
      let inner = scoped system_namespaces top_n scope namespace focus evs in
      at_most
        (length-keep_if_given flow_touches (present focus)
          (keep_if_given flow_in_namespace (present namespace) inner))
        (at_most (length-keep_if_given flow_in_namespace (present namespace) inner) length-scoped)
    where
      at_most : {a b c : ℕ} → a ≤ b → b ≤ c → a ≤ c
      at_most h k = omega arith

  -- Every flow that is shown is counted under one verdict, the pairs that are listed, at most as many as
  -- asked for, count no more flows than are shown, and no more are shown than the scope holds: all
  -- flows, or those of applications, which are no more than all.
  pub summarize_counts :
      (total summary.verdicts ≡ summary.shown)
      × (shown_in summary.top_pairs ≤ summary.shown)
      × (length summary.top_pairs ≤ top_n)
      × (summary.shown
          ≤ (if text_eq scope (codes "all") then summary.total_flows else summary.app_flows))
      × (summary.app_flows ≤ summary.total_flows)
  unfolding summarize selected top_rows most_common total
  summarize_counts =
      let chosen = selected system_namespaces top_n scope namespace focus evs in
      (
        total-counted text_eq (verdicts_of chosen) ∙ length-verdicts_of chosen,
        subst (λ n. n ≤ length chosen)
            (sym (
              shown_in-rows_of chosen
                (most_common top_n (count_from same_pair [] (pairs_of chosen)))))
            (subst (λ n. total (most_common top_n (count_from same_pair [] (pairs_of chosen))) ≤ n)
              (total-counted same_pair (pairs_of chosen) ∙ length-pairs_of chosen)
              (total-most_common top_n (count_from same_pair [] (pairs_of chosen)))),
        subst (λ n. n ≤ top_n)
            (sym (
              length-rows_of chosen
                (most_common top_n (count_from same_pair [] (pairs_of chosen)))))
            (length-take top_n (sort_by at_least (count_from same_pair [] (pairs_of chosen)))),
        length-selected,
        length-keep (is_application_flow system_namespaces) evs,
      )
