-- ===== src/Prelude/Texts/Order.antt =====
-- The order of texts by their code points, and sorting.
use mathlib.Core.Bool.{Bool, true, false}
use mathlib.Core.List.{List, [], ◌∷◌}
use samsung.Prelude.Tests.{ltb, ◌==◌, if◌then◌else◌}
use samsung.Prelude.Texts.{Text}

-- `s <= t` of two texts, by code points
unfoldable pub text_before : Text → Text → Bool
text_before [] t = true
text_before (c ∷ s) [] = false
text_before (c ∷ s) (d ∷ t) = if c == d then text_before s t else ltb c d

-- a text put into a sorted list of texts
unfoldable pub insert_name : Text → List Text → List Text
unfolding text_before
insert_name n [] = n ∷ []
insert_name n (m ∷ ms) = if text_before n m then n ∷ m ∷ ms else m ∷ insert_name n ms

-- `sorted(texts)`
unfoldable pub sorted : List Text → List Text
unfolding insert_name
sorted [] = []
sorted (s ∷ ss) = insert_name s (sorted ss)
