-- ===== src/Dashboard/Access/Runs.antt =====
-- Runs of dashboard/app.py at concrete inputs.
use samsung.Prelude.{false, codes, ◌≡◌, refl, some, [], text_eq, strip_prefix, contains}
use samsung.Dashboard.Access.{is_public, safe_next, has_prefix}

pub flows_private : is_public (codes "/flows") ≡ false
unfolding is_public contains text_eq
flows_private = refl

-- A path that starts with a slash and a backslash, which browsers read as two slashes, passes the
-- test of a local path.
pub backslash_passes : safe_next [] (some (codes "/\\evil.example")) ≡ codes "/\\evil.example"
unfolding safe_next has_prefix strip_prefix
backslash_passes = refl
