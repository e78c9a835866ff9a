-- ===== src/Policy/Messages/Reroute.antt =====
-- The reason of a reroute decision carries the recovery to the next reconcile (policy/engine.py).
use samsung.Prelude.{
  ◌≡◌, refl, ap, ◌∙◌, true, some, List, [], ◌∷◌, ◌++◌, Text, codes, lacks, lacks-append, str_nat,
  str_nat-lacks, repr_list, nonempty, All, append_assoc,
}
use samsung.Policy.Recovery.{Marker, search_marker, print_marker, parse_recovery_marker}
use samsung.Policy.Recovery.RoundTrip.{IsName, search-append, search-repr_list, parse-print}
use samsung.Policy.Messages.{reroute_prefix, reroute_reason}

names_open : (ns : List Text) → All IsName ns → All (λ n. lacks b'[' n ≡ true) ns
names_open [] hs = tt
names_open (n ∷ ns) hs = (hs.0.no_open, names_open ns hs.1)

-- the part of the reason between the list and the marker
abbrev middle : Marker → Text → Text
middle m summary =
    codes " 정상 weight(100)로 점진 복구 중 (진행 "
    ++ (str_nat m.done
        ++ (codes "/" ++ (str_nat m.total ++ (codes "). 관측: " ++ (summary ++ codes " ")))))

middle-lacks :
    (m : Marker) (summary : Text) → lacks b'[' summary ≡ true → lacks b'[' (middle m summary) ≡ true
unfolding lacks
middle-lacks m summary h = lacks-append b'[' (str_nat m.done) _ (str_nat-lacks m.done) (
    lacks-append b'[' (str_nat m.total) (codes "). 관측: " ++ (summary ++ codes " "))
      (str_nat-lacks m.total) (lacks-append b'[' summary (codes " ") h refl))

abbrev opening : Text
opening = codes "이상 해소 확인 -> 이전에 격리된 backend="

prefix_shape :
    (m : Marker) (summary : Text)
    → reroute_prefix m summary ≡ opening ++ (repr_list m.backends ++ middle m summary)
unfolding reroute_prefix
prefix_shape m summary = refl

opening-lacks : lacks b'[' opening ≡ true
unfolding lacks
opening-lacks = refl

-- For names that a marker can hold, at least one of them, and a summary with no bracket: the next
-- reconcile reads from the reason of a reroute exactly the state that was put into it.
pub parse-reroute_reason :
    (m : Marker) (summary : Text)
    → nonempty m.backends ≡ true
    → All IsName m.backends
    → lacks b'[' summary ≡ true
    → parse_recovery_marker (reroute_reason m summary) ≡ some m
unfolding reroute_reason
parse-reroute_reason m summary h hs lack =
    parse-print (reroute_prefix m summary) m
      (ap (λ p. search_marker (p ++ print_marker m)) (prefix_shape m summary)
        ∙ ap search_marker
            (regroup opening (repr_list m.backends) (middle m summary) (print_marker m))
        ∙ search-append opening (repr_list m.backends ++ (middle m summary ++ print_marker m))
            opening-lacks
        ∙ search-repr_list m.backends (middle m summary ++ print_marker m)
            (names_open m.backends hs)
        ∙ search-append (middle m summary) (print_marker m) (middle-lacks m summary lack))
      h hs
  where
    regroup : (a b c d : Text) → (a ++ (b ++ c)) ++ d ≡ a ++ (b ++ (c ++ d))
    regroup a b c d = simp append_assoc
