-- ===== src/Connectors/Telegram.antt =====
-- crates/sa-connectors/src/telegram.rs: long polling. The answers of the server are a list, each the
-- JSON of a poll or an error; the request of a poll has the offset behind the last update.

pub mod Offset
mod Tests
use secretagent_rust_agent.Base.{
  ℕ, zero, suc, ◌+◌, ◌^◌, ℤ, pos, negsuc, gtb, String, Bool, true, false, ◌||◌, List, [], ◌∷◌, ◌++◌,
  Option, none, some, Outcome, ok, err, nat_eq, unwrap_or, if◌then◌else◌, format,
}
use secretagent_rust_agent.Text.Words.{decimal, is_empty}
use secretagent_rust_agent.Connectors.{InboundMsg, OutboundMsg, clamp_reply}
use secretagent_rust_agent.Connectors.Received.{Received, message, failed, waiting}
use secretagent_rust_agent.Json.{Json, get_str, get_array, then_get, then_i64}

pub record TelegramConnector : Type 0 where
  pub id : String
  pub token : String
  pub base : String
  pub offset : ℤ
  pub buf : List InboundMsg

unfoldable pub with_base : String → String → String → TelegramConnector
with_base id token base = record { id = id; token = token; base = base; offset = pos 0; buf = [] }

unfoldable pub api : TelegramConnector → String → String
api c method = format (c.base ∷ "/bot" ∷ c.token ∷ "/" ∷ method ∷ [])

-- `n.to_string()`
abbrev pub to_text : ℤ → String
to_text (pos n) = decimal n
to_text (negsuc n) = format ("-" ∷ decimal (suc n) ∷ [])

-- `n + 1` of 64 bits
abbrev pub next : ℤ → ℤ
next (pos n) = if nat_eq (suc n) (2 ^ 63) then negsuc n else pos (suc n)
next (negsuc zero) = pos 0
next (negsuc (suc n)) = negsuc n

-- The greater of the number so far and an id, if there is one.
abbrev pub raised : ℤ → Option ℤ → ℤ
raised max_id none = max_id
raised max_id (some uid) = if gtb uid max_id then uid else max_id

abbrev pub id_text : Option ℤ → String
id_text none = ""
id_text (some n) = to_text n

module _ (j : Json) where
  open j use {Value, get}

  abbrev pub inbound : String → String → String → String → Option InboundMsg
  inbound connector body sender chat =
      if is_empty sender || is_empty chat
      then none
      else some (record { connector = connector; sender = sender; chat = chat; text = body })

  abbrev pub with_text : Value → String → Option String → Option InboundMsg
  with_text msg connector none = none
  with_text msg connector (some body) =
      inbound connector body (id_text (then_i64 j (then_get j (get msg "from") "id")))
        (id_text (then_i64 j (then_get j (get msg "chat") "id")))

  abbrev pub message_of : String → Option Value → Option InboundMsg
  message_of connector none = none
  message_of connector (some msg) = with_text msg connector (get_str j msg "text")

  abbrev pub push : Option InboundMsg → List InboundMsg → List InboundMsg
  push none out = out
  push (some m) out = m ∷ out

  unfoldable pub update_id : Value → Option ℤ
  update_id u = then_i64 j (get u "update_id")

  -- The messages of the updates, and the greatest id.
  unfoldable pub parse_all : String → ℤ → List Value → List InboundMsg × ℤ
  unfolding update_id
  parse_all connector max_id [] = ([], max_id)
  parse_all connector max_id (u ∷ us) =
      let (out, last) = parse_all connector (raised max_id (update_id u)) us in
      (push (message_of connector (get u "message")) out, last)

  unfoldable pub parse_updates : Value → String → List InboundMsg × ℤ
  unfolding parse_all
  parse_updates json connector =
      parse_all connector (pos 0) (unwrap_or (get_array j json "result") [])

  unfoldable pub polled : TelegramConnector → List InboundMsg × ℤ → TelegramConnector
  polled c (msgs, max_id) = record c {
    offset = if gtb max_id c.offset then max_id else c.offset;
    buf = c.buf ++ msgs;
  }

  abbrev pub pop_or :
      TelegramConnector
      → List (Outcome Value)
      → List InboundMsg
      → Received × TelegramConnector × List (Outcome Value)
      → Received × TelegramConnector × List (Outcome Value)
  pop_or c polls [] rest = rest
  pop_or c polls (m ∷ buf) rest = (message m, record c { buf = buf }, polls)

  -- An answer with an empty buffer, in front of the next turn of the loop.
  unfoldable pub turn :
      TelegramConnector
      → List (Outcome Value)
      → Outcome Value
      → (TelegramConnector → Received × TelegramConnector × List (Outcome Value))
      → Received × TelegramConnector × List (Outcome Value)
  unfolding parse_updates polled
  turn c polls (err e) later = (failed e, c, polls)
  turn c polls (ok json) later = later (polled c (parse_updates json c.id))

  unfoldable pub recv :
      TelegramConnector → List (Outcome Value) → Received × TelegramConnector × List (Outcome Value)
  unfolding turn
  recv c [] = pop_or c [] c.buf (waiting, c, [])
  recv c (i ∷ polls) = pop_or c (i ∷ polls) c.buf (turn c polls i (λ d. recv d polls))

  -- The query of a poll.
  unfoldable pub poll_query : TelegramConnector → List (String × String)
  poll_query c = ("offset", to_text (next c.offset)) ∷ ("timeout", "25") ∷ []

  unfoldable pub send :
      TelegramConnector
      → OutboundMsg
      → (String → String → String → Outcome (Unit {0}))
      → Outcome (Unit {0})
  unfolding clamp_reply api
  send c reply post = post (api c "sendMessage") reply.chat (clamp_reply reply.text 4096)
