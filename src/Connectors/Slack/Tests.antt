-- ===== src/Connectors/Slack/Tests.antt =====
-- crates/sa-connectors/src/slack.rs: a redelivered envelope, and a socket that closes between.
use secretagent_rust_agent.Base.{
  String, ◌≡◌, refl, true, false, List, [], ◌∷◌, Option, none, some, ok, arith,
}
use secretagent_rust_agent.Text.Words.{trim}
use secretagent_rust_agent.Json.{Json}
use secretagent_rust_agent.Json.Sample.{Value, object, string, json_with, from_fields}
use secretagent_rust_agent.Connectors.{InboundMsg}
use secretagent_rust_agent.Connectors.Slack.{
  SlackConnector, Frame, text, no_text, Input, map_message, recv,
}
use secretagent_rust_agent.Connectors.Slack.Expected.{acked, first_messages, recv_times}
use secretagent_rust_agent.Connectors.Slack.Refines.{recv_times-first_messages}

abbrev event : String → Value
event said = object (
    from_fields (
      ("type", string "message")
      ∷ ("user", string "U1")
      ∷ ("channel", string "C1")
      ∷ ("text", string said)
      ∷ []))

abbrev envelope : String → String → Value
envelope id said = object (
    from_fields (
      ("type", string "events_api")
      ∷ ("envelope_id", string id)
      ∷ ("payload", object (from_fields (("team_id", string "T1") ∷ ("event", event said) ∷ [])))
      ∷ []))

abbrev slack_json : Json
slack_json = json_with (("first", envelope "e1" " hi ") ∷ ("second", envelope "e2" "again") ∷ [])

abbrev opened : Value
opened = object (from_fields (("ok", Value.bool true) ∷ ("url", string "wss://example") ∷ []))

abbrev input_with : Option (Option Frame) → Input slack_json
input_with frame = record {
  open_reply = ok opened;
  uri_is_valid = λ url. true;
  handshake = true;
  frame = frame;
  ack_is_sent = true;
}

abbrev inputs : List (Input slack_json)
inputs =
    input_with (some (some (text "first")))
    ∷ input_with (some (some no_text))
    ∷ input_with none
    ∷ input_with (some (some (text "first")))
    ∷ input_with (some (some (text "second")))
    ∷ []

abbrev fresh : SlackConnector
fresh = record {
  id = "slack";
  bot_token = "xoxb";
  app_token = "xapp";
  base = "https://slack.com/api";
  ws = false;
  buf = [];
  seen = [];
}

abbrev said : String → InboundMsg
said body = record { connector = "slack"; sender = "T1:U1"; chat = "C1"; text = body }

delivered : (recv_times slack_json 11 fresh inputs).0 ≡ said "hi" ∷ said "again" ∷ []
unfolding recv_times recv map_message trim
delivered = refl

recv_times-first_messages_example :
    (recv_times slack_json 11 fresh inputs).0
    ≡ first_messages slack_json "slack" [] (acked slack_json false inputs)
recv_times-first_messages_example =
    recv_times-first_messages slack_json 11 fresh inputs (omega arith) (omega arith)
