-- ===== src/Hubble/Fetch.antt =====
-- hubble_client.py, `fetch_flows`: one run of the hubble command, as a parameter, and its outcomes.
pub mod Runs
use samsung.Prelude.{
  ℤ, pos, eqb_ℤ, ◌&&◌, not, Option, none, some, List, ◌∷◌, Text, codes, str_int, nonempty,
  if◌then◌else◌,
}
use samsung.Actuator.Environment.{strip}
use samsung.Hubble.{FlowEvent}
use samsung.Hubble.Lines.{Decoder, parse_lines, splitlines}

-- What `subprocess.run` does: it raises FileNotFoundError or TimeoutExpired, or the command ends.
pub data Ran : Type 0 where
  not_found timed_out : Ran
  ended : ℤ → Text → Text → Ran

-- HUBBLE_BINARY, HUBBLE_RELAY_ADDR, and the run of a command.
pub record Command (W : Type 0) : Type 0 where
  pub binary : Text
  pub relay_addr : Text
  pub run : List Text → W → Ran × W

-- What a fetch ends with: events, HubbleUnavailableError, or an exception of the decoding.
pub data Fetched (F : Type 0) : Type 0 where
  events : List (FlowEvent F) → Fetched F
  unavailable : Fetched F
  crashed : Fetched F

module _ {F W : Type 0} (d : Decoder F) (h : Command W) where
  command_line : ℤ → List Text → List Text
  command_line last extra_args =
      h.binary
      ∷ codes "observe"
      ∷ codes "--server"
      ∷ h.relay_addr
      ∷ codes "--last"
      ∷ str_int last
      ∷ codes "-o"
      ∷ codes "jsonpb"
      ∷ extra_args

  events_of : Option (List (FlowEvent F)) → Fetched F
  events_of none = crashed
  events_of (some es) = events es

  -- the texts of the errors, which go to the log and the meta of a snapshot, are left out
  pub read_output : Ran → Fetched F
  unfolding events_of
  read_output not_found = unavailable
  read_output timed_out = unavailable
  read_output (ended returncode stdout stderr) =
      if not (eqb_ℤ returncode (pos 0)) && not (nonempty (strip stdout))
      then unavailable
      else events_of (parse_lines d (splitlines stdout))

  pub fetch_flows : ℤ → List Text → W → Fetched F × W
  unfolding command_line read_output
  fetch_flows last extra_args w =
      let (r, w') = h.run (command_line last extra_args) w in (read_output r, w')
