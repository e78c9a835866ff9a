-- ===== src/Hubble/Fetch/Runs.antt =====
-- A run of hubble_client.py, `fetch_flows`.
use samsung.Prelude.{pos, [], ◌∷◌, ◌≡◌, refl}
use samsung.Actuator.Environment.{strip}
use samsung.Hubble.Lines.{parse_lines, parse_flow_line, event_of_line, event_of, splitlines}
use samsung.Hubble.Fetch.{events, fetch_flows, read_output, events_of}
use samsung.Tests.HubbleFixtures.{decoder, command, web_flow}

pub one_flow :
    (fetch_flows decoder command (pos 300) [] 0).0 ≡ events (event_of decoder web_flow ∷ [])
unfolding fetch_flows read_output events_of parse_lines parse_flow_line event_of_line splitlines
    strip
one_flow = refl
