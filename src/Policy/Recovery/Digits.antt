-- ===== src/Policy/Recovery/Digits.antt =====
-- The groups of the recovery marker (policy/engine.py, `_RECOVERY_MARKER_RE`) read back what the
-- reroute reason prints around its numbers.
use samsung.Prelude.{◌≡◌, refl, true, some, [], ◌∷◌, ◌++◌, Text, lacks, arith}
use samsung.Policy.Recovery.{strip, until_bracket}

pub strip-append : (p s : Text) → strip p (p ++ s) ≡ some s
unfolding strip
strip-append [] s = refl
strip-append (c ∷ p) s = ground (arith, strip-append p s)

pub until_bracket-append :
    (names rest : Text)
    → lacks b']' names ≡ true
    → until_bracket (names ++ b']' ∷ rest) ≡ some names
unfolding until_bracket lacks
until_bracket-append [] rest h = refl
until_bracket-append (c ∷ s) rest h = ground (arith, until_bracket-append s rest)
