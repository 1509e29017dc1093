-- ===== src/Tools/Mcp.antt =====
-- crates/sa-tools/src/mcp.rs: the client of MCP servers. What a server writes is a list of what the
-- reader finds in turn; a write may fail, and a request may run out of its time at any read.
pub mod Connected
pub mod Loaded
pub mod Names
mod Tests
pub mod Answers
use secretagent_rust_agent.Base.{
  ℕ, zero, suc, ◌+◌, ◌*◌, ◌%◌, ◌^◌, String, Bool, true, false, List, [], ◌∷◌, ◌++◌, map, filter,
  Option, none, some, Outcome, ok, err, ok_or, unwrap_or, contains, ltb, nat_eq, if◌then◌else◌,
  format,
}
use secretagent_rust_agent.Text.Segments.{namespaced}
use secretagent_rust_agent.Text.Words.{decimal, is_empty, join, trim}
use secretagent_rust_agent.Json.{Json, get_str, get_bool, get_array, str_or, then_u64}
use secretagent_rust_agent.Config.{McpServerConfig}

abbrev pub protocol_version : String
protocol_version = "2025-06-18"

abbrev pub max_line_bytes : ℕ
max_line_bytes = 8 * (1024 * 1024)

abbrev pub max_messages_per_request : ℕ
max_messages_per_request = 10000

pub record McpToolDef (Value : Type 0) : Type 0 where
  pub name : String
  pub description : String
  pub input_schema : Value

-- What a read finds: a line of so many bytes with its text, if that is UTF-8, an error of the pipe,
-- or that the time of the request is over.
pub data Incoming : Type 0 where
  line : ℕ → Outcome String → Incoming
  broken : String → Incoming
  expired : Incoming

module _ (j : Json) where
  open j use {Value, null, string, number, object, get, as_str, as_array, as_u64, from_str}

  -- The two pipes of the server's process, and what was written to it.
  pub record McpClient : Type 0 where
    pub reader : List Incoming
    pub write_faults : List (Option String)
    pub written : List Value
    pub next_id : ℕ

  abbrev pub default_schema : Option Value → Value
  default_schema none = object (("type", string "object") ∷ [])
  default_schema (some v) = v

  abbrev pub with_def : Value → Option String → List (McpToolDef Value) → List (McpToolDef Value)
  with_def t none defs = defs
  with_def t (some name) defs =
      (record {
        name = name;
        description = str_or j "" t "description";
        input_schema = default_schema (get t "inputSchema");
      })
      ∷ defs

  abbrev pub tool_defs : List Value → List (McpToolDef Value)
  tool_defs [] = []
  tool_defs (t ∷ ts) = with_def t (get_str j t "name") (tool_defs ts)

  unfoldable pub parse_tools_list : Value → List (McpToolDef Value)
  parse_tools_list result = tool_defs (unwrap_or (get_array j result "tools") [])

  abbrev pub push_text : Option String → List String → List String
  push_text none texts = texts
  push_text (some t) texts = t ∷ texts

  abbrev pub texts : List Value → List String
  texts [] = []
  texts (b ∷ blocks) = push_text (get_str j b "text") (texts blocks)

  abbrev pub called : Value → Option Value → Outcome String
  called response (some e) = err (format ("mcp error: " ∷ str_or j "unknown" e "message" ∷ []))
  called response none =
      let text = join "" (texts (unwrap_or (get_array j response "content") [])) in
      if unwrap_or (get_bool j response "isError") false
      then err (format ("mcp tool error: " ∷ text ∷ []))
      else ok text

  unfoldable pub parse_call_result : Value → Outcome String
  unfolding join
  parse_call_result response = called response (get response "error")

  unfoldable pub req : ℕ → String → Value → Value
  req id method params = object (
      ("jsonrpc", string "2.0")
      ∷ ("id", number id)
      ∷ ("method", string method)
      ∷ ("params", params)
      ∷ [])

  unfoldable pub initialized_notification : Value
  initialized_notification =
      object (("jsonrpc", string "2.0") ∷ ("method", string "notifications/initialized") ∷ [])

  abbrev pub written_with :
      McpClient → Value → List (Option String) → Outcome (Unit {0}) × McpClient
  written_with c msg [] = (ok tt, record c { written = c.written ++ (msg ∷ []) })
  written_with c msg (none ∷ faults) =
      (ok tt, record c { written = c.written ++ (msg ∷ []); write_faults = faults })
  written_with c msg (some e ∷ faults) = (err e, record c { write_faults = faults })

  unfoldable pub write_message : McpClient → Value → Outcome (Unit {0}) × McpClient
  write_message c msg = written_with c msg c.write_faults

  abbrev pub found : Outcome Value → Outcome (Option Value)
  found (ok v) = ok (some v)
  found (err e) = err e

  abbrev pub parsed : Outcome String → Outcome (Option Value)
  parsed (err e) = err (format ("mcp: invalid UTF-8 in server response: " ∷ e ∷ []))
  parsed (ok text) =
      let trimmed = trim text in
      if is_empty trimmed then ok (some null) else found (from_str trimmed)

  -- A read of one message; `ok none` is the end of the stream.
  unfoldable pub read_one : String → Incoming → Outcome (Option Value)
  unfolding trim
  read_one method (line size text) =
      if nat_eq size 0
      then ok none
      else if ltb max_line_bytes size
      then err
          (format ("mcp: server response line exceeds " ∷ decimal max_line_bytes ∷ " bytes" ∷ []))
      else parsed text
  read_one method (broken e) = err e
  read_one method expired = err (format ("mcp: " ∷ method ∷ " timed out after 30s" ∷ []))

  abbrev pub closed : String → Outcome Value
  closed method = err (format ("mcp: server closed the connection during " ∷ method ∷ []))

  -- The answer with the id of the request.
  abbrev pub result_of : String → Value → Option Value → Outcome Value
  result_of method v (some e) =
      err (format ("mcp error in " ∷ method ∷ ": " ∷ str_or j "unknown" e "message" ∷ []))
  result_of method v none = ok (unwrap_or (get v "result") null)

  abbrev pub is_id : Option ℕ → ℕ → Bool
  is_id none id = false
  is_id (some n) id = nat_eq n id

  -- A message is the answer, or is passed over; the rest of the loop is `later`.
  abbrev pub take_message :
      String
      → ℕ
      → List Incoming
      → Outcome (Option Value)
      → Outcome Value × List Incoming
      → Outcome Value × List Incoming
  take_message method id rest (err e) later = (err e, rest)
  take_message method id rest (ok none) later = (closed method, rest)
  take_message method id rest (ok (some v)) later =
      if is_id (then_u64 j (get v "id")) id
      then (result_of method v (get v "error"), rest)
      else later

  unfoldable pub await_answer : String → ℕ → ℕ → List Incoming → Outcome Value × List Incoming
  unfolding read_one
  await_answer method id zero incoming = (
    err (format ("mcp: too many unrelated messages from server during " ∷ method ∷ [])),
    incoming,
  )
  await_answer method id (suc left) [] = (closed method, [])
  await_answer method id (suc left) (i ∷ incoming) =
      take_message method id incoming (read_one method i) (await_answer method id left incoming)

  abbrev pub answered : McpClient → Outcome Value × List Incoming → Outcome Value × McpClient
  answered c (r, rest) = (r, record c { reader = rest })

  abbrev pub asked : String → ℕ → Outcome (Unit {0}) × McpClient → Outcome Value × McpClient
  unfolding await_answer
  asked method id (err e, c) = (err e, c)
  asked method id (ok u, c) = answered c (await_answer method id max_messages_per_request c.reader)

  unfoldable pub request : McpClient → String → Value → Outcome Value × McpClient
  unfolding asked req write_message
  request c method params =
      let id = c.next_id in
      asked method id
        (write_message (record c { next_id = (id + 1) % 2 ^ 64 }) (req id method params))

  abbrev pub notify : Outcome Value × McpClient → Outcome (Unit {0}) × McpClient
  unfolding write_message initialized_notification
  notify (err e, c) = (err e, c)
  notify (ok v, c) = write_message c initialized_notification

  unfoldable pub initialize : McpClient → String → Outcome (Unit {0}) × McpClient
  unfolding request notify
  initialize c version = notify (
      request c "initialize" (
        object (
          ("protocolVersion", string protocol_version)
          ∷ ("capabilities", object [])
          ∷ (
            "clientInfo",
            object (("name", string "secretagent") ∷ ("version", string version) ∷ []),
          )
          ∷ [])))

  abbrev pub listed : Outcome Value × McpClient → Outcome (List (McpToolDef Value)) × McpClient
  unfolding parse_tools_list
  listed (err e, c) = (err e, c)
  listed (ok result, c) = (ok (parse_tools_list result), c)

  unfoldable pub list_tools : McpClient → Outcome (List (McpToolDef Value)) × McpClient
  unfolding request listed
  list_tools c = listed (request c "tools/list" (object []))

  abbrev pub result_text : Outcome Value × McpClient → Outcome String × McpClient
  unfolding parse_call_result
  result_text (err e, c) = (err e, c)
  result_text (ok result, c) = (parse_call_result result, c)

  unfoldable pub call_tool : McpClient → String → Value → Outcome String × McpClient
  unfolding request result_text
  call_tool c name arguments =
      result_text
        (request c "tools/call" (object (("name", string name) ∷ ("arguments", arguments) ∷ [])))
