-- ===== src/Hubble/Lines.antt =====
-- hubble_client.py, `_parse_flow_line`, and the lines of the command's output.
use samsung.Prelude.{
  ℕ, Bool, true, false, ◌&&◌, ◌||◌, Option, none, some, List, [], ◌∷◌, ◌++◌, Text, codes, nonempty,
  or_else, leb, ◌==◌, if◌then◌else◌,
}
use samsung.Actuator.Environment.{strip}
use samsung.Hubble.{
  Line, not_json, no_flow, not_object, flow, Flow, FlowEvent, entity_label, no_side,
  protocol_of_flow,
}
use samsung.Hubble.Times.{parse_flow_time}

-- Python's JSON decoder on one line, and its reading of an ISO date.
pub record Decoder (F : Type 0) : Type 0 where
  pub decode : Text → Line
  pub from_iso : Text → Option F

module _ {F : Type 0} (d : Decoder F) where
  unfoldable pub event_of : Flow → FlowEvent F
  unfolding protocol_of_flow entity_label parse_flow_time no_side
  event_of f =
      let (protocol, dst_port) = protocol_of_flow f.l4 in
      record {
        time = or_else f.time [];
        epoch = parse_flow_time d.from_iso (or_else f.time []);
        verdict = or_else f.verdict (codes "UNKNOWN");
        direction = f.traffic_direction;
        protocol = protocol;
        src = entity_label (or_else f.source no_side);
        dst = entity_label (or_else f.destination no_side);
        dst_port = dst_port;
      }

  -- the outer option is none where AttributeError gets out
  unfoldable pub event_of_line : Line → Option (Option (FlowEvent F))
  unfolding event_of
  event_of_line not_json = some none
  event_of_line no_flow = some none
  event_of_line not_object = none
  event_of_line (flow f) = some (some (event_of f))

  unfoldable pub parse_flow_line : Text → Option (Option (FlowEvent F))
  unfolding event_of_line
  parse_flow_line line =
      let s = strip line in if nonempty s then event_of_line (d.decode s) else some none

  -- the events of the lines that hold one
  unfoldable pub parse_lines : List Text → Option (List (FlowEvent F))
  unfolding parse_flow_line
  parse_lines [] = some []
  parse_lines (l ∷ ls) = elim (parse_flow_line l) [
    | none ↦ none
    | some none ↦ parse_lines ls
    | some (some e) ↦ elim (parse_lines ls) [ none ↦ none | some es ↦ some (e ∷ es) ]
  ]

-- the line boundaries among the ASCII characters
unfoldable pub is_boundary : ℕ → Bool
is_boundary c = (leb 10 c && leb c 13) || (leb 28 c && leb c 30)

-- `line` is what stands before the text; `cr` tells that a carriage return does
unfoldable pub lines_from : Text → Bool → Text → List Text
unfolding is_boundary
lines_from line cr [] = if nonempty line then line ∷ [] else []
lines_from line cr (c ∷ s) = elim (cr && (c == 10)) [
  | true ↦ lines_from [] false s
  | false ↦ elim (is_boundary c) [
    | true ↦ line ∷ lines_from [] (c == 13) s
    | false ↦ lines_from (line ++ c ∷ []) false s
  ]
]

-- `s.splitlines()`, with the boundaries among the ASCII characters
unfoldable pub splitlines : Text → List Text
unfolding lines_from
splitlines s = lines_from [] false s
