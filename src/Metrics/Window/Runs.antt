-- ===== src/Metrics/Window/Runs.antt =====
-- Runs of the two readings of spec.window.
use samsung.Prelude.{ℕ, pos, none, some, codes, ◌≡◌, refl}
use samsung.Metrics.Window.{parse_window}
use samsung.Tests.Fixtures.{thousandths}

pub no_window : parse_window ℕ none ≡ some (codes "1m", pos 60)
unfolding parse_window
no_window = refl
