-- ===== src/Providers/Anthropic.antt =====
-- crates/sa-providers/src/anthropic.rs: the Messages API. `translate` turns the messages of the
-- agent into those of the API, and `parse_action` reads its answer.

pub mod Turns
pub mod Translate
use Prim.Native.String.{◌++◌ as text_append}
use secretagent_rust_agent.Base.{
  ℕ, String, Bool, true, false, List, [], ◌∷◌, ◌++◌, map, Option, none, some, Outcome, ok, err,
  ◌>>=◌, unwrap_or, ◌==◌, if◌then◌else◌,
}
use secretagent_rust_agent.Text.Words.{join}
use secretagent_rust_agent.Json.{Json, is_str, get_str, get_array, str_or}
use secretagent_rust_agent.Agent.{ToolSpec, ProviderAction, text, tool_call}
use secretagent_rust_agent.Providers.{ChatMsg}

abbrev pub anthropic_api_version : String
anthropic_api_version = "2023-06-01"

abbrev pub max_tokens_per_call : ℕ
max_tokens_per_call = 4096

pub record Anthropic : Type 0 where
  pub base_url : String
  pub model : String
  pub api_key : Option String

unfoldable pub anthropic : String → Option String → Anthropic
anthropic model api_key = record {
  base_url = "https://api.anthropic.com";
  model = model;
  api_key = api_key;
}

module _ (j : Json) where
  open j use {Value, string, number, array, object, get, set, as_array, from_str}

  abbrev pub empty_object : Value
  empty_object = object []

  unfoldable pub new_message : String → Value → Value
  new_message role block = object (("role", string role) ∷ ("content", array (block ∷ [])) ∷ [])

  -- The last message with the block behind its content, if it has a list of blocks.
  abbrev pub content_pushed : Value → String → Value → Option (List Value) → List Value
  unfolding new_message
  content_pushed last role block none = last ∷ new_message role block ∷ []
  content_pushed last role block (some blocks) =
      set last "content" (array (blocks ++ (block ∷ []))) ∷ []

  unfoldable pub push_block : List Value → String → Value → List Value
  unfolding new_message
  push_block [] role block = new_message role block ∷ []
  push_block (last ∷ []) role block =
      if is_str (get_str j last "role") role
      then content_pushed last role block (get_array j last "content")
      else last ∷ new_message role block ∷ []
  push_block (m ∷ n ∷ out) role block = m ∷ push_block (n ∷ out) role block

  abbrev pub text_block : String → Value
  text_block s = object (("type", string "text") ∷ ("text", string s) ∷ [])

  abbrev pub parsed_or_empty : Outcome Value → Value
  parsed_or_empty (ok v) = v
  parsed_or_empty (err e) = empty_object

  abbrev pub arguments_of : Option String → Value
  arguments_of none = empty_object
  arguments_of (some s) = parsed_or_empty (from_str s)

  unfoldable pub tool_use_block : Value → Value
  tool_use_block tc =
      let id = str_or j "toolu_0" tc "id" in
      let f = unwrap_or (get tc "function") empty_object in
      let name = str_or j "" f "name" in
      let input = arguments_of (get_str j f "arguments") in
      object (
        ("type", string "tool_use")
        ∷ ("id", string id)
        ∷ ("name", string name)
        ∷ ("input", input)
        ∷ [])

  abbrev pub assistant_block : Value → Option (List Value) → Value
  unfolding tool_use_block
  assistant_block m none = text_block (str_or j "" m "content")
  assistant_block m (some []) = text_block (str_or j "" m "content")
  assistant_block m (some (tc ∷ calls)) = tool_use_block tc

  abbrev pub tool_result_block : Value → Value
  tool_result_block m =
      let id = str_or j "" m "tool_call_id" in
      let content = str_or j "" m "content" in
      object (
        ("type", string "tool_result")
        ∷ ("tool_use_id", string id)
        ∷ ("content", string content)
        ∷ [])

  abbrev pub first_system : Option String → Value → Option String
  first_system none m = get_str j m "content"
  first_system (some s) m = some s

  -- One message of the loop; the state is the system text and the messages so far.
  unfoldable pub translate_one : Option String × List Value → Value → Option String × List Value
  unfolding push_block
  translate_one (system, out) m =
      let role = str_or j "" m "role" in
      if role == "system"
      then (first_system system m, out)
      else if role == "assistant"
      then (system, push_block out "assistant" (assistant_block m (get_array j m "tool_calls")))
      else if role == "tool"
      then (system, push_block out "user" (tool_result_block m))
      else (system, push_block out "user" (text_block (str_or j "" m "content")))

  unfoldable pub translate_from :
      Option String × List Value → List Value → Option String × List Value
  unfolding translate_one
  translate_from state [] = state
  translate_from state (m ∷ messages) = translate_from (translate_one state m) messages

  unfoldable pub translate : List Value → Option String × List Value
  unfolding translate_from
  translate messages = translate_from (none, []) messages

  abbrev pub with_system : Option String → Value → Value
  with_system none body = body
  with_system (some s) body = set body "system" (string s)

  abbrev pub tool_value : ToolSpec Value → Value
  tool_value t = object (
      ("name", string t.name)
      ∷ ("description", string t.description)
      ∷ ("input_schema", t.parameters)
      ∷ [])

  abbrev pub with_tools : List (ToolSpec Value) → Value → Value
  with_tools [] body = body
  with_tools (t ∷ tools) body = set body "tools" (array (map tool_value (t ∷ tools)))

  unfoldable pub build_body : Anthropic → List Value → List (ToolSpec Value) → Value
  unfolding translate
  build_body a messages tools =
      let (system, msgs) = translate messages in
      with_tools tools (
        with_system system (
          object (
            ("model", string a.model)
            ∷ ("max_tokens", number max_tokens_per_call)
            ∷ ("messages", array msgs)
            ∷ [])))

  -- The first block of the type `tool_use`.
  abbrev pub first_tool_use : List Value → Option (ProviderAction Value)
  first_tool_use [] = none
  first_tool_use (b ∷ blocks) =
      if is_str (get_str j b "type") "tool_use"
      then some (
          tool_call (str_or j "toolu_0" b "id") (str_or j "" b "name")
            (unwrap_or (get b "input") empty_object))
      else first_tool_use blocks

  abbrev pub push_text : Option String → List String → List String
  push_text none texts = texts
  push_text (some t) texts = t ∷ texts

  abbrev pub texts_of : List Value → List String
  texts_of [] = []
  texts_of (b ∷ blocks) =
      let rest = texts_of blocks in
      if is_str (get_str j b "type") "text" then push_text (get_str j b "text") rest else rest

  abbrev pub action_or_text : Option (ProviderAction Value) → List Value → ProviderAction Value
  action_or_text none blocks = text (join "" (texts_of blocks))
  action_or_text (some action) blocks = action

  abbrev pub action_of_blocks : Option (List Value) → ProviderAction Value
  action_of_blocks none = text ""
  action_of_blocks (some blocks) = action_or_text (first_tool_use blocks) blocks

  unfoldable pub parse_action : Value → ProviderAction Value
  unfolding join
  parse_action v = action_of_blocks (get_array j v "content")

  abbrev pub text_or_none : ProviderAction Value → String
  text_or_none (text t) = t
  text_or_none (tool_call id name args) = ""

  -- `post` is the answer of the server to the body.
  unfoldable pub chat :
      Anthropic → List ChatMsg → (Value → Outcome Value) → Outcome (List (Outcome String))
  unfolding build_body parse_action
  chat a messages post =
      post (
        build_body a
          (map
            (λ (m : ChatMsg). object (("role", string m.role) ∷ ("content", string m.content) ∷ []))
            messages)
          [])
      >>= λ v. ok (ok (text_or_none (parse_action v)) ∷ [])

  unfoldable pub act :
      Anthropic
      → List Value
      → List (ToolSpec Value)
      → (Value → Outcome Value)
      → Outcome (ProviderAction Value)
  unfolding build_body parse_action
  act a messages tools post = post (build_body a messages tools) >>= λ v. ok (parse_action v)
