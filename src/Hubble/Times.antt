-- ===== src/Hubble/Times.antt =====
-- hubble_client.py, `_parse_flow_time`: the text of a flow's time, brought to six digits of fraction
-- before it is read as an ISO date.
use samsung.Prelude.{
  ℕ, zero, suc, Option, none, some, [], ◌∷◌, ◌++◌, Text, codes, is_digit, partition, lacks,
  nonempty, if◌then◌else◌,
}
use samsung.Metrics.Window.{strip_suffix}
use samsung.Actuator.Environment.{strip}

-- the ASCII digits at the head of a text, and what follows
pub leading_digits : Text → Text × Text
leading_digits [] = ([], [])
leading_digits (c ∷ s) =
    let (ds, rest) = leading_digits s in if is_digit c then (c ∷ ds, rest) else ([], c ∷ s)

-- `digits[:n].ljust(n, "0")`
pub exactly : ℕ → Text → Text
exactly zero s = []
exactly (suc n) [] = b'0' ∷ exactly n []
exactly (suc n) (c ∷ s) = c ∷ exactly n s

-- a fraction of six digits
pub six_digits : Text → Text
unfolding leading_digits exactly
six_digits s =
    let (main, tail) = partition b'.' s in
    let (ds, tz) = leading_digits tail in
    if lacks b'.' s then s else main ++ (codes "." ++ (exactly 6 ds ++ tz))

-- "Z" as an offset
pub utc_offset : Text → Text
utc_offset s = elim (strip_suffix (codes "Z") s) [ none ↦ s | some t ↦ t ++ codes "+00:00" ]

unfoldable pub iso_text : Text → Text
unfolding six_digits utc_offset
iso_text raw = six_digits (utc_offset (strip raw))

-- `from_iso` is `datetime.fromisoformat(s).timestamp()`, `none` where it raises ValueError
unfoldable pub parse_flow_time : {F : Type 0} → (Text → Option F) → Text → Option F
unfolding iso_text
parse_flow_time from_iso raw = if nonempty raw then from_iso (iso_text raw) else none
