-- ===== src/Connectors/Slack/Expected.antt =====
-- crates/sa-connectors/src/slack.rs: what the receive loop should deliver, without ring and buffer: the
-- envelopes that were acknowledged, in order, each of them once.
use secretagent_rust_agent.Base.{
  ℕ, zero, suc, ◌+◌, ◌*◌, String, Bool, true, false, List, [], ◌∷◌, ◌++◌, length, contains,
  if◌then◌else◌, Option, none, some, Outcome, ok, err,
}
use secretagent_rust_agent.Json.{Json}
use secretagent_rust_agent.Connectors.{InboundMsg}
use secretagent_rust_agent.Connectors.Received.{messages_of}
use secretagent_rust_agent.Connectors.Slack.{
  SlackConnector, Frame, text, no_text, Envelope, hello, disconnect, events_api, other, Input,
  connect_ws, map_message, parse_envelope, recv,
}

module _ (j : Json) where
  open j use {Value, from_str}

  -- What a turn leaves of the socket, and the envelope that it acknowledges.
  abbrev pub Turned : Type 0
  Turned = Bool × List (String × Value)

  abbrev pub envelope_turn : Bool → Envelope j → Turned
  envelope_turn true (events_api id payload) = (true, (id, payload) ∷ [])
  envelope_turn false (events_api id payload) = (false, [])
  envelope_turn sent disconnect = (false, [])
  envelope_turn sent hello = (true, [])
  envelope_turn sent other = (true, [])

  abbrev pub value_turn : Bool → Outcome Value → Turned
  value_turn sent (err e) = (true, [])
  value_turn sent (ok v) = envelope_turn sent (parse_envelope j v)

  abbrev pub frame_turn : Bool → Option (Option Frame) → Turned
  frame_turn sent none = (false, [])
  frame_turn sent (some none) = (false, [])
  frame_turn sent (some (some no_text)) = (true, [])
  frame_turn sent (some (some (text t))) = value_turn sent (from_str t)

  abbrev pub input_turn : Bool → Input j → Outcome (Unit {0}) → Turned
  input_turn ws i (err e) = (ws, [])
  input_turn ws i (ok u) = frame_turn i.ack_is_sent i.frame

  -- The envelopes that are acknowledged, from a socket that is open or not.
  unfoldable pub acked : Bool → List (Input j) → List (String × Value)
  unfolding connect_ws
  acked ws [] = []
  acked ws (i ∷ inputs) =
      let (open_still, envelopes) = input_turn ws i (if ws then ok tt else connect_ws j i) in
      envelopes ++ acked open_still inputs

  abbrev pub with_message : Option InboundMsg → List InboundMsg → List InboundMsg
  with_message none ms = ms
  with_message (some m) ms = m ∷ ms

  -- The messages of the envelopes that are not known yet; all of them are known from then on.
  unfoldable pub first_messages : String → List String → List (String × Value) → List InboundMsg
  unfolding map_message
  first_messages connector known [] = []
  first_messages connector known ((id, payload) ∷ rest) =
      if contains known id
      then first_messages connector known rest
      else with_message (map_message j payload connector)
          (first_messages connector (known ++ (id ∷ [])) rest)

  -- What is still to be delivered.
  unfoldable pub due : SlackConnector → List (Input j) → List InboundMsg
  unfolding acked first_messages
  due c inputs = c.buf ++ first_messages c.id c.seen (acked c.ws inputs)

  -- `n` calls of recv, and the messages they returned.
  unfoldable pub recv_times :
      ℕ → SlackConnector → List (Input j) → List InboundMsg × SlackConnector × List (Input j)
  unfolding recv
  recv_times zero c inputs = ([], c, inputs)
  recv_times (suc n) c inputs =
      let (r, d, rest) = recv j c inputs in
      let (ms, e, last) = recv_times n d rest in (messages_of r ++ ms, e, last)

  abbrev pub pending : SlackConnector → List (Input j) → ℕ
  pending c inputs = 2 * length inputs + length c.buf
