-- ===== src/Dashboard/Counters.antt =====
-- collections.Counter as an association list in insertion order, sorting, and `most_common`.
use samsung.Prelude.{
  ℕ, zero, suc, ◌+◌, ◌≤◌, ◌≡◌, refl, ap, subst, ◌∙◌, Bool, true, false, List, [], ◌∷◌, length, ltb,
  arith, if◌then◌else◌,
}

-- `counter[k] += 1`
unfoldable pub bump {ℓ} : {K : Type ℓ} → (K → K → Bool) → K → List (K × ℕ) → List (K × ℕ)
bump same k [] = (k, 1) ∷ []
bump same k ((k', n) ∷ r) =
    let rest = bump same k r in if same k k' then (k', suc n) ∷ r else (k', n) ∷ rest

-- the counts of a sequence, from a counter on
unfoldable pub count_from {ℓ} : {K : Type ℓ} → (K → K → Bool) → List (K × ℕ) → List K → List (K × ℕ)
unfolding bump
count_from same c [] = c
count_from same c (k ∷ ks) = count_from same (bump same k c) ks

-- `sorted(xs, key=…)` by a test of order; what comes first stays first among equals
unfoldable pub insert_by {ℓ} : {A : Type ℓ} → (A → A → Bool) → A → List A → List A
insert_by before x [] = x ∷ []
insert_by before x (y ∷ ys) =
    let rest = insert_by before x ys in if before x y then x ∷ y ∷ ys else y ∷ rest

unfoldable pub sort_by {ℓ} : {A : Type ℓ} → (A → A → Bool) → List A → List A
unfolding insert_by
sort_by before [] = []
sort_by before (x ∷ xs) = insert_by before x (sort_by before xs)

unfoldable pub take {ℓ} : {A : Type ℓ} → ℕ → List A → List A
take zero xs = []
take (suc n) [] = []
take (suc n) (x ∷ xs) = x ∷ take n xs

-- not the smaller count of the two
abbrev pub at_least {ℓ} : {K : Type ℓ} → K × ℕ → K × ℕ → Bool
at_least (a, m) (b, n) = if ltb m n then false else true

-- `counter.most_common(n)`
unfoldable pub most_common {ℓ} : {K : Type ℓ} → ℕ → List (K × ℕ) → List (K × ℕ)
unfolding sort_by take
most_common n c = take n (sort_by at_least c)

-- the sum of the counts
unfoldable pub total {ℓ} : {K : Type ℓ} → List (K × ℕ) → ℕ
total [] = 0
total ((k, n) ∷ r) = n + total r

total-bump {ℓ} :
    {K : Type ℓ} (same : K → K → Bool) (k : K) (c : List (K × ℕ))
    → total (bump same k c) ≡ suc (total c)
unfolding total bump
total-bump same k [] = ground arith
total-bump same k ((k', n) ∷ r) = ground (arith, total-bump same k r)

-- every element of the sequence is counted once
total-count_from {ℓ} :
    {K : Type ℓ} (same : K → K → Bool) (c : List (K × ℕ)) (ks : List K)
    → total (count_from same c ks) ≡ total c + length ks
unfolding count_from
total-count_from same c [] = omega arith
total-count_from same c (k ∷ ks) =
    total-count_from same (bump same k c) ks
    ∙ ap (λ n. n + length ks) (total-bump same k c)
    ∙ (omega arith)

total-insert_by {ℓ} :
    {K : Type ℓ} (before : K × ℕ → K × ℕ → Bool) (x : K × ℕ) (c : List (K × ℕ))
    → total (insert_by before x c) ≡ x.1 + total c
unfolding total insert_by
total-insert_by before x [] = refl
total-insert_by before x (y ∷ ys) = ground (arith, total-insert_by before x ys)

total-sort_by {ℓ} :
    {K : Type ℓ} (before : K × ℕ → K × ℕ → Bool) (c : List (K × ℕ))
    → total (sort_by before c) ≡ total c
unfolding total sort_by
total-sort_by before [] = refl
total-sort_by before (x ∷ xs) =
    total-insert_by before x (sort_by before xs) ∙ ap (λ n. x.1 + n) (total-sort_by before xs)

total-take {ℓ} : {K : Type ℓ} (n : ℕ) (c : List (K × ℕ)) → total (take n c) ≤ total c
unfolding total take
total-take zero c = omega arith
total-take (suc n) [] = omega arith
total-take (suc n) ((k, m) ∷ r) = ground (arith, total-take n r)

-- the most common ones count no more than all
pub total-most_common {ℓ} :
    {K : Type ℓ} (n : ℕ) (c : List (K × ℕ)) → total (most_common n c) ≤ total c
unfolding most_common
total-most_common n c =
    subst (λ t. total (take n (sort_by at_least c)) ≤ t) (total-sort_by at_least c)
      (total-take n (sort_by at_least c))

pub length-take {ℓ} : {A : Type ℓ} (n : ℕ) (xs : List A) → length (take n xs) ≤ n
unfolding take
length-take zero xs = omega arith
length-take (suc n) [] = omega arith
length-take (suc n) (x ∷ xs) = ground (arith, length-take n xs)

-- a whole sequence, counted from nothing
pub total-counted {ℓ} :
    {K : Type ℓ} (same : K → K → Bool) (ks : List K) → total (count_from same [] ks) ≡ length ks
unfolding total
total-counted same ks = total-count_from same [] ks ∙ (omega arith)
