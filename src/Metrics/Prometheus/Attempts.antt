-- ===== src/Metrics/Prometheus/Attempts.antt =====
-- What the attempts of a query come to (metrics/prometheus_client.py).
use samsung.Prelude.{
  Bool, true, false, subst, sym, pos, text_eq, ℕ, zero, suc, ◌≡◌, refl, Option, none, some, List,
  ◌∷◌, Text, codes, ◌⊎◌,
}
use samsung.Metrics.Prometheus.{
  Raw, plain, Item, response, parsed, Vector, Session, FloatText, Sample, Try, samples, error,
  read_fetch, attempts, query,
}

module _ {L W : Type 0} (session : Session W L) (promql : Text) where
  abbrev world_after : W → W
  world_after w = (session.get promql w).1

module _ (F : Type 0) {L W : Type 0} ⦃ft : FloatText F⦄ (session : Session W L)
    (promql : Text) where
  -- the reading of the next response
  abbrev next : W → Try F L
  next w = read_fetch promql (session.get promql w).0

  -- What so many attempts from a world come to: the first response that can be read gives the
  -- result, and no call follows it; without one, every attempt was made and the result is an error.
  abbrev pub Tried : ℕ → W → Try F L × W → Type 0
  Tried zero w (result, w') = ((e : Text) × (result ≡ error e)) × (w' ≡ w)
  Tried (suc n) w (result, w') =
      ((xs : List (Sample F L)) × (next w ≡ samples xs)
        × (result ≡ samples xs)
        × (w' ≡ world_after session promql w))
      ⊎ (((e : Text) × (next w ≡ error e)) × Tried n (world_after session promql w) (result, w'))

abbrev pub is_error : {F L : Type 0} → Try F L → Bool
is_error (samples xs) = false
is_error (error e) = true

module _ (F : Type 0) {L : Type 0} ⦃ft : FloatText F⦄ (promql : Text) where
  plain_first_fails :
      (message : Text) (v : Vector L) (a : Raw) (rest : List (Item L))
      → v.result ≡ plain a ∷ rest
      → is_error
          (read_fetch {F = F} promql (response (pos 200) (parsed (codes "success") message v)))
        ≡ true
  unfolding read_fetch text_eq
  plain_first_fails message v a rest h = rw h refl

module _ (F : Type 0) {L W : Type 0} ⦃ft : FloatText F⦄ (promql : Text)
    (session : Session W L) where
  attempts_fail :
      (n : ℕ) (last : Option Text) (w : W)
      → ((w' : W) → is_error (read_fetch {F = F} promql (session.get promql w').0) ≡ true)
      → is_error (attempts {F = F} session promql n last w).0 ≡ true
  unfolding attempts
  attempts_fail zero last w h = refl
  attempts_fail (suc n) last w h =
      by_next (read_fetch promql (session.get promql w).0) (h w)
        (λ e. attempts_fail n (some e) (session.get promql w).1 h)
    where
      by_next :
          (t : Try F L)
          → is_error t ≡ true
          → ((e : Text)
              → is_error (attempts {F = F} session promql n (some e) (session.get promql w).1).0
                ≡ true)
          → is_error
              (elim t as (λ t. Try F L × W) [
                | samples xs ↦ (samples xs, (session.get promql w).1)
                | error e ↦ attempts session promql n (some e) (session.get promql w).1
              ]).0
            ≡ true
      by_next (samples xs) k rest = cc
      by_next (error e) k rest = rest e

  -- Against a server that always answers a successful response whose result begins with a value that is
  -- no object, as the result of a scalar does with its time: the query fails, whatever the retries.
  pub query_scalar_fails :
      (message : Text) (v : Vector L) (a : Raw) (rest : List (Item L))
      → ((w : W)
          → (session.get promql w).0 ≡ response (pos 200) (parsed (codes "success") message v))
      → v.result ≡ plain a ∷ rest
      → (retries : ℕ) (w : W) → is_error (query {F = F} session promql retries w).0 ≡ true
  unfolding query
  query_scalar_fails message v a rest always h retries w = attempts_fail (suc retries) none w (λ w'.
      subst (λ f. is_error (read_fetch {F = F} promql f) ≡ true) (sym (always w'))
        (plain_first_fails F promql message v a rest h))
