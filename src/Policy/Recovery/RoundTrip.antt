-- ===== src/Policy/Recovery/RoundTrip.antt =====
-- The state of a recovery survives its way through the reason of a decision (policy/engine.py,
-- `_parse_recovery_marker` after the marker that `evaluate` writes).
use samsung.Prelude.{
  ℕ, ◌≡◌, refl, sym, ap, ◌∙◌, true, false, some, List, [], ◌∷◌, ◌++◌, Text, codes, lacks,
  join-lacks, str_nat, join, repr_list, repr_list-Quoted, nonempty, All, ◌==◌, arith, append_assoc,
  append-nil, split_from, number-str_nat,
}
use samsung.Policy.Recovery.{
  Marker, drop_empty, match_marker, search_marker, split_names, parse_recovery_marker, print_marker,
}
use samsung.Policy.Recovery.Digits.{until_bracket-append}

-- A backend name that the marker can hold, as every Kubernetes name is.
pub record IsName (n : Text) : Type 0 where
  pub present : nonempty n ≡ true
  pub no_comma : lacks b',' n ≡ true
  pub no_close : lacks b']' n ≡ true
  pub no_open : lacks b'[' n ≡ true

split_from-append :
    (sep : ℕ) (cur p s : Text)
    → lacks sep p ≡ true
    → split_from sep cur (p ++ s) ≡ split_from sep (cur ++ p) s
unfolding lacks split_from
split_from-append sep cur [] s h = rw append-nil
split_from-append sep cur (c ∷ p) s h =
    ground (arith, split_from-append sep (cur ++ c ∷ []) p s, append_assoc cur (c ∷ []) p)

split_at_sep : (sep : ℕ) (cur s : Text) → split_from sep cur (sep ∷ s) ≡ cur ∷ split_from sep [] s
unfolding split_from
split_at_sep sep cur s = ground arith

split_from-join :
    (n : Text) (ns : List Text)
    → IsName n
    → All IsName ns
    → split_from b',' [] (join (codes ",") (n ∷ ns)) ≡ n ∷ ns
unfolding join
split_from-join n [] h hs =
    ap (split_from b',' []) (sym (append-nil n))
    ∙ split_from-append b',' [] n [] h.no_comma
    ∙ (unfold split_from in refl)
split_from-join n (m ∷ ms) h hs =
    split_from-append b',' [] n (b',' ∷ join (codes ",") (m ∷ ms)) h.no_comma
    ∙ split_at_sep b',' n (join (codes ",") (m ∷ ms))
    ∙ ap (λ r. n ∷ r) (split_from-join m ms hs.0 hs.1)

drop_empty_names : (ns : List Text) → All IsName ns → drop_empty ns ≡ ns
unfolding drop_empty
drop_empty_names [] hs = refl
drop_empty_names (n ∷ ns) hs = rw (hs.0.present, drop_empty_names ns hs.1)

pub split_names-join : (ns : List Text) → All IsName ns → split_names (join (codes ",") ns) ≡ ns
unfolding split_names
split_names-join [] hs = unfold split_from drop_empty join in refl
split_names-join (n ∷ ns) hs =
    ap drop_empty (split_from-join n ns hs.0 hs.1) ∙ drop_empty_names (n ∷ ns) hs

names-close : (ns : List Text) → All IsName ns → All (λ n. lacks b']' n ≡ true) ns
names-close [] hs = tt
names-close (n ∷ ns) hs = (hs.0.no_close, names-close ns hs.1)

match_marker-print :
    (m : Marker)
    → All IsName m.backends
    → match_marker (print_marker m) ≡ some (m.done, m.total, join (codes ",") m.backends)
unfolding match_marker print_marker
match_marker-print m hs =
    let names = join (codes ",") m.backends in
    let closed =
      until_bracket-append names [] (
        join-lacks b']' (codes ",") m.backends (unfold lacks in refl)
          (names-close m.backends hs)) in
    let tail = names ++ codes "]" in
    let second = number-str_nat m.total 32 (codes "backends=" ++ tail) refl in
    let first =
      number-str_nat m.done 32 (codes "total=" ++ (str_nat m.total ++ (codes " backends=" ++ tail)))
        refl in
    rw (first, second, closed) refl

-- the search passes over a character that opens no marker
search_skip : (c : ℕ) (s : Text) → c == b'[' ≡ false → search_marker (c ∷ s) ≡ search_marker s
unfolding search_marker match_marker
search_skip c s h = ground arith

search_skip_open :
    (q : ℕ) (s : Text) → q == b'r' ≡ false → search_marker (b'[' ∷ q ∷ s) ≡ search_marker (q ∷ s)
unfolding search_marker match_marker
search_skip_open q s h = ground arith

pub search-append : (p s : Text) → lacks b'[' p ≡ true → search_marker (p ++ s) ≡ search_marker s
search-append [] s h = refl
search-append (c ∷ p) s h =
    search_skip c (p ++ s) (unfold lacks in ground arith)
    ∙ search-append p s (unfold lacks in ground arith)

-- the search passes over a printed list of names
pub search-repr_list :
    (ns : List Text) (s : Text)
    → All (λ n. lacks b'[' n ≡ true) ns
    → search_marker (repr_list ns ++ s) ≡ search_marker s
search-repr_list ns s hs =
    let q = repr_list-Quoted ns hs in
    ap (λ t. search_marker (t ++ s)) q.shape
    ∙ search_skip_open q.head (q.rest ++ s) q.head_ne
    ∙ search-append (q.head ∷ q.rest) s q.no_bracket

search_at_match :
    (c : ℕ) (s : Text) (m : ℕ × ℕ × Text)
    → match_marker (c ∷ s) ≡ some m
    → search_marker (c ∷ s) ≡ some m
unfolding search_marker
search_at_match c s m e = ground arith

-- A printed marker is read back behind any text that the search passes over.
pub parse-print :
    (p : Text) (m : Marker)
    → search_marker (p ++ print_marker m) ≡ search_marker (print_marker m)
    → nonempty m.backends ≡ true
    → All IsName m.backends
    → parse_recovery_marker (p ++ print_marker m) ≡ some m
unfolding parse_recovery_marker
parse-print p m skip h hs =
    let found = skip ∙ found_marker in rw (found, split_names-join m.backends hs, h) refl
  where
    found_marker :
        search_marker (print_marker m) ≡ some (m.done, m.total, join (codes ",") m.backends)
    found_marker = unfold print_marker in search_at_match b'[' _ _ (match_marker-print m hs)
