-- ===== src/Connectors/Discord.antt =====
-- crates/sa-connectors/src/discord.rs: the shard's events are a list, whose end is the end of the
-- stream; a message is what `map_message` reads of it.
use secretagent_rust_agent.Base.{
  ℕ, String, Bool, List, [], ◌∷◌, Option, none, some, Outcome, ok, err, ◌>>=◌, ok_or, if◌then◌else◌,
  format,
}
use secretagent_rust_agent.Text.Words.{decimal, is_empty, trim}
use secretagent_rust_agent.Connectors.{InboundMsg, OutboundMsg, clamp_reply}
use secretagent_rust_agent.Connectors.Received.{Received, message, ended}

pub record DiscordMessage : Type 0 where
  pub author_is_bot : Bool
  pub author_id : ℕ
  pub channel_id : ℕ
  pub content : String

unfoldable pub map_message : DiscordMessage → String → Option InboundMsg
unfolding trim
map_message msg connector =
    if msg.author_is_bot
    then none
    else if is_empty (trim msg.content)
    then none
    else some (record {
      connector = connector;
      sender = decimal msg.author_id;
      chat = decimal msg.channel_id;
      text = msg.content;
    })

pub data Event : Type 0 where
  message_create : DiscordMessage → Event
  other : Event

abbrev pub mapped :
    Option InboundMsg
    → List (Outcome Event)
    → Received × List (Outcome Event)
    → Received × List (Outcome Event)
mapped none events later = later
mapped (some m) events later = (message m, events)

unfoldable pub recv : String → List (Outcome Event) → Received × List (Outcome Event)
unfolding map_message
recv id [] = (ended, [])
recv id (err e ∷ events) = recv id events
recv id (ok other ∷ events) = recv id events
recv id (ok (message_create msg) ∷ events) = mapped (map_message msg id) events (recv id events)

-- `parse` reads a number of 64 bits, `create_message` is the request.
unfoldable pub send :
    OutboundMsg → (String → Option ℕ) → (ℕ → String → Outcome (Unit {0})) → Outcome (Unit {0})
unfolding clamp_reply
send reply parse create_message =
    ok_or (parse reply.chat) (format ("discord chat id is not a u64: \"" ∷ reply.chat ∷ "\"" ∷ []))
    >>= λ channel_id. create_message channel_id (clamp_reply reply.text 2000)
