-- ===== src/Providers/Tests.antt =====
-- crates/sa-providers/src: a run of messages for the API, and a reply that is cut into chunks.
use secretagent_rust_agent.Base.{String, ◌≡◌, refl, List, [], ◌∷◌, map, none, some, ok}
use secretagent_rust_agent.Text.Words.{trim}
use secretagent_rust_agent.Json.{Json}
use secretagent_rust_agent.Json.Sample.{
  Value, object, string, array, json_with, json_with-IsLawful, from_fields, from_list,
}
use secretagent_rust_agent.Providers.Anthropic.{translate}
use secretagent_rust_agent.Providers.Anthropic.Turns.{AlternatesFrom, turns, blocks_of}
use secretagent_rust_agent.Providers.Anthropic.Translate.{translate-AlternatesFrom, turns-translate}
use secretagent_rust_agent.Providers.OpenAi.{
  stream_from, deltas_of, drain_lines, parse_sse_line, strip_prefix,
}
use secretagent_rust_agent.Providers.OpenAi.Chunks.{stream_from-chunks}

abbrev obj : List (String × Value) → Value
obj fields = object (from_fields fields)

abbrev said : String → String → Value
said role content = obj (("role", string role) ∷ ("content", string content) ∷ [])

abbrev delta : Value
delta = obj (
    ("choices", array (from_list (obj (("delta", obj (("content", string "Mo") ∷ [])) ∷ []) ∷ [])))
    ∷ [])

abbrev wire : Json
wire = json_with (("D", delta) ∷ [])

abbrev messages : List Value
messages = said "system" "S" ∷ said "user" "a" ∷ said "user" "b" ∷ said "assistant" "c" ∷ []

two_messages : (translate wire messages).0 ≡ some "S"
unfolding translate
two_messages = refl

translate-AlternatesFrom_example : AlternatesFrom wire none (translate wire messages).1
translate-AlternatesFrom_example =
    translate-AlternatesFrom wire (json_with-IsLawful (("D", delta) ∷ [])) messages

turns-translate_example : turns wire (translate wire messages).1 ≡ blocks_of wire messages
turns-translate_example = turns-translate wire (json_with-IsLawful (("D", delta) ∷ [])) messages

abbrev chunks : List String
chunks = "da" ∷ "ta: D\ndata: [DO" ∷ "NE]\n" ∷ []

streamed : stream_from wire "" (map ok chunks) ≡ ok "Mo" ∷ []
unfolding stream_from drain_lines deltas_of parse_sse_line strip_prefix trim
streamed = refl

stream_from-chunks_example :
    stream_from wire "" (map ok chunks)
    ≡ deltas_of wire (drain_lines "" "data: D\ndata: [DONE]\n").0
stream_from-chunks_example = stream_from-chunks wire chunks
