-- ===== src/Metrics/Calls.antt =====
-- Code that makes calls and may raise: a function of the world, with its result, `none` where an
-- exception gets out, and the world after it.
use samsung.Prelude.{Option, none, some}

abbrev pub Call : Type 0 → Type 0 → Type 0
Call W A = W → Option A × W

-- The second step runs from the world that the first one leaves.
unfoldable pub continue : {W A B : Type 0} → (A → Call W B) → Option A × W → Option B × W
continue f (none, w) = (none, w)
continue f (some a, w) = f a w

infixl 5 ◌>>=◌
unfoldable pub ◌>>=◌ : {W A B : Type 0} → Call W A → (A → Call W B) → Call W B
unfolding continue
(m >>= f) w = continue f (m w)

abbrev pub return : {W A : Type 0} → A → Call W A
return a w = (some a, w)

abbrev pub fail : {W A : Type 0} → Call W A
fail w = (none, w)

-- what holds of a result, if there is one
abbrev pub Holds : {A : Type 0} → (A → Type 0) → Option A → Type 0
Holds P none = Unit
Holds P (some a) = P a

module _ {W A B : Type 0} (P : B → Type 0) (m : Call W A) (f : A → Call W B) where
  -- What every result of the second step has, from a result of the first, the whole has.
  pub >>=-Holds-from :
      (Q : A → Type 0) (w : W)
      → Holds Q (m w).0
      → ((a : A) → Q a → (w' : W) → Holds P (f a w').0)
      → Holds P ((m >>= f) w).0
  unfolding ◌>>=◌ continue
  >>=-Holds-from Q w q h = by_result (m w) q
    where
      by_result : (r : Option A × W) → Holds Q r.0 → Holds P (continue f r).0
      by_result (none, w') q' = tt
      by_result (some a, w') q' = h a q' w'

  pub >>=-Holds : ((a : A) (w : W) → Holds P (f a w).0) → (w : W) → Holds P ((m >>= f) w).0
  unfolding ◌>>=◌ continue
  >>=-Holds h w = by_result (m w)
    where
      by_result : (r : Option A × W) → Holds P (continue f r).0
      by_result (none, w') = tt
      by_result (some a, w') = h a w'
