-- ===== src/Connectors/Slack.antt =====
-- crates/sa-connectors/src/slack.rs: Socket Mode. What the network gives in one turn of the receive
-- loop is an Input; a run takes a list of them, and the request of a reply takes its answer.
pub mod Ring
pub mod Expected
pub mod Steps
pub mod Refines
mod Tests
use secretagent_rust_agent.Base.{
  ℕ, String, Bool, true, false, not, ◌||◌, List, [], ◌∷◌, ◌++◌, drop, length, Option, none, some,
  Outcome, ok, err, ◌>>=◌, ok_or, unwrap_or, contains, ltb, if◌then◌else◌, format,
}
use secretagent_rust_agent.Text.Words.{is_empty, trim}
use secretagent_rust_agent.Connectors.{InboundMsg, OutboundMsg, clamp_reply}
use secretagent_rust_agent.Connectors.Received.{Received, message, failed, waiting}
use secretagent_rust_agent.Json.{Json, is_str, get_str, get_bool, str_or}

pub record SlackConnector : Type 0 where
  pub id : String
  pub bot_token : String
  pub app_token : String
  pub base : String
  pub ws : Bool
  pub buf : List InboundMsg
  pub seen : List String

abbrev pub seen_cap : ℕ
seen_cap = 256

unfoldable pub with_base : String → String → String → String → SlackConnector
with_base id bot_token app_token base = record {
  id = id;
  bot_token = bot_token;
  app_token = app_token;
  base = base;
  ws = false;
  buf = [];
  seen = [];
}

-- `pop_front` when the ring is longer than its cap
abbrev pub trim_ring : ℕ → List String → List String
trim_ring cap seen = if ltb cap (length seen) then drop 1 seen else seen

unfoldable pub note_envelope : List String → String → ℕ → Bool × List String
note_envelope seen id cap =
    if contains seen id then (false, seen) else (true, trim_ring cap (seen ++ (id ∷ [])))

-- A frame of the socket: a text, or a ping, pong or binary message.
pub data Frame : Type 0 where
  text : String → Frame
  no_text : Frame

module _ (j : Json) where
  open j use {Value, null, get, as_str, from_str}

  pub data Envelope : Type 0 where
    hello : Envelope
    disconnect : Envelope
    events_api : String → Value → Envelope
    other : Envelope

  -- One turn of the loop. `open_reply` answers apps.connections.open, if no socket is there;
  -- `frame` is `none` for the end of the stream and `some none` for an error of the socket.
  pub record Input : Type 0 where
    pub open_reply : Outcome Value
    pub uri_is_valid : String → Bool
    pub handshake : Bool
    pub frame : Option (Option Frame)
    pub ack_is_sent : Bool

  abbrev pub events_envelope : String → Value → Envelope
  events_envelope envelope_id payload =
      if is_empty envelope_id then other else events_api envelope_id payload

  unfoldable pub parse_envelope : Value → Envelope
  parse_envelope json =
      let kind = get_str j json "type" in
      if is_str kind "hello"
      then hello
      else if is_str kind "disconnect"
      then disconnect
      else if is_str kind "events_api"
      then events_envelope (str_or j "" json "envelope_id") (unwrap_or (get json "payload") null)
      else other

  abbrev pub present : Option Value → Bool
  present none = false
  present (some v) = true

  -- The message, from the texts that `map_message` reads.
  abbrev pub inbound : String → String → String → String → String → Option InboundMsg
  inbound connector body team user channel =
      if is_empty body
      then none
      else if is_empty team || (is_empty user || is_empty channel)
      then none
      else some (record {
        connector = connector;
        sender = format (team ∷ ":" ∷ user ∷ []);
        chat = channel;
        text = body;
      })

  unfoldable pub map_event : Value → Value → String → Option InboundMsg
  map_event payload event connector =
      if not (is_str (get_str j event "type") "message")
      then none
      else if present (get event "bot_id") || present (get event "subtype")
      then none
      else inbound connector (trim (str_or j "" event "text")) (str_or j "" payload "team_id")
          (str_or j "" event "user") (str_or j "" event "channel")

  abbrev pub event_of : Value → String → Option Value → Option InboundMsg
  event_of payload connector none = none
  event_of payload connector (some event) = map_event payload event connector

  unfoldable pub map_message : Value → String → Option InboundMsg
  unfolding map_event
  map_message payload connector = event_of payload connector (get payload "event")

  -- The refusal of a Web API call, with the code that Slack gave.
  abbrev pub not_ok : {A : Type 0} → String → Value → Outcome A
  not_ok what json =
      err (format (what ∷ " not ok: " ∷ unwrap_or (get_str j json "error") "unknown" ∷ []))

  abbrev pub is_ok : Value → Bool
  is_ok json = unwrap_or (get_bool j json "ok") false

  unfoldable pub open_socket_url : Outcome Value → Outcome String
  open_socket_url (err e) = err e
  open_socket_url (ok json) =
      if is_ok json
      then ok_or (get_str j json "url") "slack apps.connections.open: no url"
      else not_ok "slack apps.connections.open" json

  unfoldable pub build_socket_client : (String → Bool) → String → Outcome String
  build_socket_client uri_is_valid url =
      if uri_is_valid url then ok url else err "slack socket uri invalid (url withheld)"

  abbrev pub shaken : Bool → Outcome (Unit {0})
  shaken true = ok tt
  shaken false = err "slack socket connect failed"

  unfoldable pub connect_ws : Input → Outcome (Unit {0})
  unfolding open_socket_url build_socket_client
  connect_ws i = open_socket_url i.open_reply >>= λ url.
      build_socket_client i.uri_is_valid url >>= λ client. shaken i.handshake

  -- The buffer behind a mapped message.
  abbrev pub push_back : List InboundMsg → Option InboundMsg → List InboundMsg
  push_back buf none = buf
  push_back buf (some m) = buf ++ (m ∷ [])

  abbrev pub noted : SlackConnector → Value → Bool × List String → SlackConnector
  noted c payload (false, seen) = c
  noted c payload (true, seen) = record c {
    seen = seen;
    buf = push_back c.buf (map_message payload c.id);
  }

  unfoldable pub on_events_api : SlackConnector → String → Value → Bool → SlackConnector
  unfolding note_envelope
  on_events_api c envelope_id payload false = record c { ws = false }
  on_events_api c envelope_id payload true =
      noted c payload (note_envelope c.seen envelope_id seen_cap)

  unfoldable pub on_envelope : SlackConnector → Bool → Envelope → SlackConnector
  unfolding on_events_api
  on_envelope c ack_is_sent (events_api envelope_id payload) =
      on_events_api c envelope_id payload ack_is_sent
  on_envelope c ack_is_sent disconnect = record c { ws = false }
  on_envelope c ack_is_sent hello = c
  on_envelope c ack_is_sent other = c

  unfoldable pub on_text : SlackConnector → Bool → Outcome Value → SlackConnector
  unfolding parse_envelope on_envelope
  on_text c ack_is_sent (err e) = c
  on_text c ack_is_sent (ok value) = on_envelope c ack_is_sent (parse_envelope value)

  unfoldable pub on_frame : SlackConnector → Bool → Option (Option Frame) → SlackConnector
  unfolding on_text
  on_frame c ack_is_sent none = record c { ws = false }
  on_frame c ack_is_sent (some none) = record c { ws = false }
  on_frame c ack_is_sent (some (some no_text)) = c
  on_frame c ack_is_sent (some (some (text t))) = on_text c ack_is_sent (from_str t)

  -- The connector with a socket, or the error of opening one.
  unfoldable pub with_ws : SlackConnector → Input → Outcome (Unit {0})
  unfolding connect_ws
  with_ws c i = if c.ws then ok tt else connect_ws i

  -- The turn with an empty buffer, in front of the next turn of the loop.
  unfoldable pub turn :
      SlackConnector
      → Input
      → List Input
      → Outcome (Unit {0})
      → (SlackConnector → Received × SlackConnector × List Input)
      → Received × SlackConnector × List Input
  unfolding on_frame
  turn c i inputs (err e) later = (failed e, c, inputs)
  turn c i inputs (ok connected) later =
      later (on_frame (record c { ws = true }) i.ack_is_sent i.frame)

  abbrev pub pop_or :
      SlackConnector
      → List Input
      → List InboundMsg
      → Received × SlackConnector × List Input
      → Received × SlackConnector × List Input
  pop_or c inputs [] rest = rest
  pop_or c inputs (m ∷ buf) rest = (message m, record c { buf = buf }, inputs)

  unfoldable pub recv : SlackConnector → List Input → Received × SlackConnector × List Input
  unfolding with_ws turn
  recv c [] = pop_or c [] c.buf (waiting, c, [])
  recv c (i ∷ inputs) =
      pop_or c (i ∷ inputs) c.buf (turn c i inputs (with_ws c i) (λ d. recv d inputs))

  unfoldable pub check_post_ok : Value → Outcome (Unit {0})
  check_post_ok body = if is_ok body then ok tt else not_ok "slack chat.postMessage" body

  -- The request of a reply and its answer: the text that is sent, and the result.
  unfoldable pub send :
      SlackConnector → OutboundMsg → (String → String → Outcome Value) → Outcome (Unit {0})
  unfolding check_post_ok clamp_reply
  send c reply post = post reply.chat (clamp_reply reply.text 4000) >>= check_post_ok
