-- ===== src/Tools/Mcp/Tests.antt =====
-- crates/sa-tools/src/mcp.rs: a server whose answer comes behind a notification, and one that offers
-- a tool that is not on its list.
use secretagent_rust_agent.Base.{
  ℕ, String, ◌≡◌, refl, true, List, [], ◌∷◌, none, ok, All, Any, arith, map,
}
use secretagent_rust_agent.Text.Words.{trim}
use secretagent_rust_agent.Json.{Json}
use secretagent_rust_agent.Json.Sample.{
  Value, object, string, number, array, null, json_with, from_fields, from_list,
}
use secretagent_rust_agent.Config.{McpServerConfig}
use secretagent_rust_agent.Tools.Mcp.{Incoming, line, McpClient, request, read_one, result_of}
use secretagent_rust_agent.Tools.Mcp.Connected.{McpTool, load_mcp_tools, connect, allowed}
use secretagent_rust_agent.Tools.Mcp.Loaded.{IsOf, load_mcp_tools-IsOf}
use secretagent_rust_agent.Tools.Mcp.Answers.{IsUnrelated, request-await_answer}

abbrev obj : List (String × Value) → Value
obj fields = object (from_fields fields)

abbrev offered : Value
offered = obj (
    (
      "tools",
      array (
          from_list
            (obj (("name", string "search") ∷ []) ∷ obj (("name", string "wipe") ∷ []) ∷ [])),
    )
    ∷ [])

abbrev answer : ℕ → Value → Value
answer id result = obj (("id", number id) ∷ ("result", result) ∷ [])

abbrev wire : Json
wire = json_with (
    ("N", obj (("method", string "progress") ∷ []))
    ∷ ("I", answer 1 null)
    ∷ ("T", answer 2 offered)
    ∷ [])

abbrev text_line : String → Incoming
text_line s = line 2 (ok s)

abbrev client : McpClient wire
client = record {
  reader = text_line "N" ∷ text_line "I" ∷ text_line "T" ∷ [];
  write_faults = [];
  written = [];
  next_id = 1;
}

abbrev server : McpServerConfig
server = record { name = "srv"; command = "srv-bin"; args = []; allow_tools = "search" ∷ [] }

abbrev inner : McpTool wire → String
inner t = t.inner_name

abbrev loaded : List (McpTool wire)
unfolding load_mcp_tools
loaded = load_mcp_tools wire "1.0" (λ cfg. ok client) (λ cfg. true) (server ∷ [])

one_tool : map inner loaded ≡ "search" ∷ []
unfolding loaded load_mcp_tools connect trim allowed
one_tool = refl

load_mcp_tools-IsOf_example :
    All
      (λ t. Any (IsOf wire t) (server ∷ []))
      (load_mcp_tools wire "1.0" (λ cfg. ok client) (λ cfg. true) (server ∷ []))
load_mcp_tools-IsOf_example =
    load_mcp_tools-IsOf wire "1.0" (λ cfg. ok client) (λ cfg. true) (server ∷ [])

notice : IsUnrelated wire "initialize" 1 (text_line "N")
unfolding read_one trim
notice = record {
  value = obj (("method", string "progress") ∷ []);
  is_read = refl;
  other_id = refl;
}

request-await_answer_example :
    ((request wire client "initialize" null).0 ≡ result_of wire "initialize" (answer 1 null) none)
    × ((request wire client "initialize" null).1.reader ≡ text_line "T" ∷ [])
unfolding read_one trim
request-await_answer_example =
    request-await_answer wire client "initialize" null (text_line "N" ∷ []) (text_line "T" ∷ [])
      (text_line "I") (answer 1 null) refl refl (omega arith) (notice, tt) refl refl
