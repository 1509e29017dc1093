-- ===== src/Connectors/Telegram/Tests.antt =====
-- crates/sa-connectors/src/telegram.rs: an answer with one message and one update without text.
use secretagent_rust_agent.Base.{pos, String, ◌≡◌, refl, List, [], ◌∷◌, ok, err}
use secretagent_rust_agent.Json.{Json}
use secretagent_rust_agent.Json.Sample.{
  Value, object, string, number, array, json_with, from_fields, from_list,
}
use secretagent_rust_agent.Connectors.Telegram.{TelegramConnector, parse_updates, update_id, recv}
use secretagent_rust_agent.Connectors.Telegram.Offset.{Reads, recv-Reads}

abbrev wire : Json
wire = json_with []

abbrev obj : List (String × Value) → Value
obj fields = object (from_fields fields)

abbrev peer : Value
peer = obj (("id", number 7) ∷ [])

abbrev answer : Value
answer = obj (
    (
      "result",
      array (
          from_list (
            obj (
              ("update_id", number 10)
              ∷ ("message", obj (("text", string "hi") ∷ ("from", peer) ∷ ("chat", peer) ∷ []))
              ∷ [])
            ∷ obj (("update_id", number 12) ∷ [])
            ∷ [])),
    )
    ∷ [])

greatest_id : (parse_updates wire answer "telegram").1 ≡ pos 12
unfolding parse_updates update_id
greatest_id = refl

abbrev fresh : TelegramConnector
fresh = record { id = "telegram"; token = "t"; base = "b"; offset = pos 0; buf = [] }

recv-Reads_example :
    Reads wire fresh
      (ok answer ∷ err "timeout" ∷ [])
      (recv wire fresh (ok answer ∷ err "timeout" ∷ [])).1
      (recv wire fresh (ok answer ∷ err "timeout" ∷ [])).2
recv-Reads_example = recv-Reads wire fresh (ok answer ∷ err "timeout" ∷ [])
