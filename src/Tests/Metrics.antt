-- ===== src/Tests/Metrics.antt =====
-- Examples for the metrics.
use samsung.Prelude.{true, ℕ, zero, suc, pos, ◌≡◌, refl, none, some, [], ◌∷◌, Text, codes}
use samsung.Metrics.Prometheus.{
  text, number, plain, object, Vector, Session, FloatText, raises, response, parsed, query,
}
use samsung.Metrics.Prometheus.Attempts.{query_scalar_fails, is_error}

-- no text is read as a number
instance unfoldable pub unread : FloatText ℕ
unread = record { parse = λ raw. none; nan = 0 }

-- a server that does not answer the first call; the world counts the calls
abbrev slow : Session ℕ Text
slow = record {
  get = λ promql n. elim n [
    | zero ↦ (raises (codes "timeout"), 1)
    | suc k ↦ (
      response (pos 200) (
          parsed (codes "success") [] (record {
            result_type = some (codes "vector");
            result = object (codes "web") (some (number (codes "1") ∷ text (codes "2") ∷ [])) ∷ [];
          })),
      suc (suc k),
    )
  ];
}

abbrev scalar : Vector Text
scalar = record {
  result_type = some (codes "scalar");
  result = plain (number (codes "1700000000")) ∷ plain (text (codes "5")) ∷ [];
}

abbrev scalar_server : Session ℕ Text
scalar_server = record {
  get = λ promql n. (response (pos 200) (parsed (codes "success") [] scalar), suc n);
}

query_scalar_fails_example :
    is_error (query {F = ℕ} scalar_server (codes "scalar(up)") 1 0).0 ≡ true
query_scalar_fails_example =
    query_scalar_fails ℕ (codes "scalar(up)") scalar_server [] scalar (number (codes "1700000000"))
      (plain (text (codes "5")) ∷ []) (λ w. refl) refl 1 0
