-- ===== src/Handlers/Runs.antt =====
-- A run of handlers.py at a concrete input.
use samsung.Prelude.{◌≡◌, refl}
use samsung.Handlers.{registered, missing_fields, register_policy}
use samsung.Tests.Fixtures.{policy}

pub registered_run : register_policy policy ≡ registered
unfolding register_policy missing_fields
registered_run = refl
