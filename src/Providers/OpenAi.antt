-- ===== src/Providers/OpenAi.antt =====
-- crates/sa-providers/src/openai.rs: an endpoint in OpenAI's format. A chunk of the stream is a text
-- (`String::from_utf8_lossy` of its bytes) or the error that ends it.
pub mod Chunks
use Prim.Native.Char.{Char, code}
use Prim.Native.String.{◌++◌ as text_append}
use secretagent_rust_agent.Base.{
  String, Bool, true, false, ◌||◌, List, [], ◌∷◌, ◌++◌, map, Option, none, some, Outcome, ok, err,
  ◌>>=◌, unwrap_or, ◌==◌, nat_eq, if◌then◌else◌,
}
use secretagent_rust_agent.Text.Words.{is_empty, trim, trim_end}
use secretagent_rust_agent.Json.{
  Json, get_array, str_or, index, index_first, then_str, then_get, first_or,
}
use secretagent_rust_agent.Agent.{ToolSpec, ProviderAction, text, tool_call}
use secretagent_rust_agent.Providers.{ChatMsg}

pub record OpenAiCompat : Type 0 where
  pub base_url : String
  pub model : String
  pub api_key : Option String

-- `str::strip_prefix`
unfoldable pub strip_prefix : String → String → Option String
strip_prefix String.[] s = some s
strip_prefix (String.◌∷◌ c p) String.[] = none
strip_prefix (String.◌∷◌ c p) (String.◌∷◌ d s) =
    let rest = strip_prefix p s in if nat_eq (code c) (code d) then rest else none

-- The complete lines of `line` and the text behind it, and what is left behind the last newline:
-- `buf.drain(..=nl)` as long as there is a newline.
unfoldable pub drain_lines : String → String → List String × String
drain_lines line String.[] = ([], line)
drain_lines line (String.◌∷◌ c s) =
    let longer = text_append line (String.◌∷◌ c "") in
    elim (nat_eq (code c) 10) [
      | true ↦ let (lines, rest) = drain_lines "" s in (longer ∷ lines, rest)
      | false ↦ drain_lines longer s
    ]

module _ (j : Json) where
  open j use {Value, bool, string, array, object, get, set, as_str, as_array, from_str}

  abbrev pub first_of : Option (List Value) → Option Value
  first_of none = none
  first_of (some []) = none
  first_of (some (v ∷ vs)) = some v

  abbrev pub then_first : Option Value → Option Value
  then_first none = none
  then_first (some v) = first_of (as_array v)

  abbrev pub delta_of : Outcome Value → Option String
  delta_of (err e) = none
  delta_of (ok v) =
      then_str j (then_get j (then_get j (then_first (get v "choices")) "delta") "content")

  abbrev pub parse_data : Option String → Option String
  parse_data none = none
  parse_data (some rest) =
      let payload = trim rest in
      if payload == "[DONE]" || is_empty payload then none else delta_of (from_str payload)

  unfoldable pub parse_sse_line : String → Option String
  unfolding strip_prefix trim
  parse_sse_line line = parse_data (strip_prefix "data:" line)

  abbrev pub yielded : Option String → List (Outcome String) → List (Outcome String)
  yielded none chunks = chunks
  yielded (some delta) chunks = ok delta ∷ chunks

  unfoldable pub deltas_of : List String → List (Outcome String)
  unfolding parse_sse_line trim_end
  deltas_of [] = []
  deltas_of (line ∷ lines) = yielded (parse_sse_line (trim_end line)) (deltas_of lines)

  -- The stream of `chat` behind the buffer.
  unfoldable pub stream_from : String → List (Outcome String) → List (Outcome String)
  unfolding drain_lines deltas_of
  stream_from buf [] = []
  stream_from buf (err e ∷ chunks) = err e ∷ []
  stream_from buf (ok chunk ∷ chunks) =
      let (lines, rest) = drain_lines "" (text_append buf chunk) in
      deltas_of lines ++ stream_from rest chunks

  -- `post` is the answer of the server to the body: its chunks, or an error.
  unfoldable pub chat :
      OpenAiCompat
      → List ChatMsg
      → (Value → Outcome (List (Outcome String)))
      → Outcome (List (Outcome String))
  unfolding stream_from
  chat p messages post =
      let msgs =
        map (λ (m : ChatMsg). object (("role", string m.role) ∷ ("content", string m.content) ∷ []))
          messages in
      post
        (object (("model", string p.model) ∷ ("messages", array msgs) ∷ ("stream", bool true) ∷ []))
      >>= λ chunks. ok (stream_from "" chunks)

  abbrev pub tool_spec : ToolSpec Value → Value
  tool_spec t = object (
      ("type", string "function")
      ∷ (
        "function",
        object (
            ("name", string t.name)
            ∷ ("description", string t.description)
            ∷ ("parameters", t.parameters)
            ∷ []),
      )
      ∷ [])

  abbrev pub with_tools : List (ToolSpec Value) → Value → Value
  with_tools [] body = body
  with_tools (t ∷ tools) body = set body "tools" (array (map tool_spec (t ∷ tools)))

  abbrev pub parsed_or_empty : Outcome Value → Value
  parsed_or_empty (ok v) = v
  parsed_or_empty (err e) = object []

  -- Arguments are a text of JSON, or the value itself.
  abbrev pub arguments : Value → Option String → Value
  arguments raw (some s) = parsed_or_empty (from_str s)
  arguments raw none = raw

  abbrev pub action_of : Value → Option Value → ProviderAction Value
  action_of msg none = text (unwrap_or (as_str (index j msg "content")) "")
  action_of msg (some tc) =
      let function = index j tc "function" in
      let raw = index j function "arguments" in
      tool_call (unwrap_or (as_str (index j tc "id")) "call_0")
        (unwrap_or (as_str (index j function "name")) "") (arguments raw (as_str raw))

  unfoldable pub read_action : Value → ProviderAction Value
  read_action v =
      let msg = index j (index_first j (index j v "choices")) "message" in
      action_of msg (first_of (as_array (index j msg "tool_calls")))

  unfoldable pub act :
      OpenAiCompat
      → List Value
      → List (ToolSpec Value)
      → (Value → Outcome Value)
      → Outcome (ProviderAction Value)
  unfolding read_action
  act p messages tools post =
      post (
        with_tools tools (
          object (
            ("model", string p.model)
            ∷ ("messages", array messages)
            ∷ ("stream", bool false)
            ∷ [])))
      >>= λ v. ok (read_action v)
