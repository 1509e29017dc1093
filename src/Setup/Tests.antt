-- ===== src/Setup/Tests.antt =====
-- secretagent/src/setup.rs: a registry with a remote server and a command that takes a taken name.
use secretagent_rust_agent.Base.{
  String, ◌≡◌, refl, true, false, [], ◌∷◌, Option, none, some, Outcome, ok, err,
}
use secretagent_rust_agent.Types.{Tainted}
use secretagent_rust_agent.Text.{after_last}
use secretagent_rust_agent.Json.{Json}
use secretagent_rust_agent.Json.Sample.{null, json_with}
use secretagent_rust_agent.Policy.{Policy}
use secretagent_rust_agent.Config.{exec_config_default, ToolsConfig, OpToolConfig, McpServerConfig}
use secretagent_rust_agent.Exec.{System, Logged, Io, refuse_sandbox, local}
use secretagent_rust_agent.Egress.{EgressRequest}
use secretagent_rust_agent.Tools.{Registry, get, Tool, register, insert, lookup}
use secretagent_rust_agent.Tools.Builtin.{default_tools}
use secretagent_rust_agent.Tools.Mcp.{McpClient}
use secretagent_rust_agent.Tools.Mcp.Connected.{McpTool, load_mcp_tools}
use secretagent_rust_agent.Setup.{
  own_tools, shell, build_registry, http_request, web_extract, add_op_tools, add_remote,
}
use secretagent_rust_agent.Setup.Kept.{build_registry-keeps}

abbrev plain_json : Json
plain_json = json_with []

abbrev still : System (Unit {0})
still = record {
  perform = λ op policy w. (ok "done", w);
  disk = λ w path. none;
  to_path = λ s. [];
  to_str = λ path. none;
}

abbrev closed :
    Policy → EgressRequest → Logged (Unit {0}) → Outcome (Tainted String) × Logged (Unit {0})
closed policy req w = (err "egress denied", w)

abbrev with_query : String → String → Outcome String
with_query endpoint query = ok endpoint

abbrev no_remote : McpTool plain_json → plain_json.Value → Policy → Io (Unit {0})
no_remote t args policy s = (err "no server", s)

abbrev takes_shell : OpToolConfig
takes_shell = record { name = "shell"; cmd = "sh" ∷ []; description = none }

abbrev tools : ToolsConfig
tools = record {
  search_url = none;
  search_key_ref = none;
  default_key_ref = none;
  op_tools = takes_shell ∷ [];
}

abbrev down : McpServerConfig → Outcome (McpClient plain_json)
down cfg = err "not found"

abbrev no_vault : String → Outcome (Option String)
no_vault key = ok none

abbrev schema : String → plain_json.Value
schema name = null

abbrev own_shell : Tool plain_json.Value (Logged (Unit {0}))
unfolding shell
own_shell = shell plain_json still closed with_query schema no_remote (local refuse_sandbox)

-- The search is not configured: the registry is that of the program's tools, the remote tools and the
-- commands.
abbrev finished : Registry plain_json.Value (Logged (Unit {0}))
unfolding add_op_tools add_remote own_tools load_mcp_tools
finished =
    add_op_tools plain_json still closed with_query schema no_remote
      (add_remote plain_json still closed with_query schema no_remote
        (own_tools plain_json still closed with_query schema no_remote (local refuse_sandbox)
          (local refuse_sandbox) false)
        (load_mcp_tools plain_json "1.0" down (λ cfg. true) []))
      tools.op_tools

build_registry-keeps_example : get finished "shell" ≡ some own_shell
unfolding finished own_shell build_registry own_tools default_tools register get insert lookup shell
    web_extract http_request after_last
build_registry-keeps_example =
    build_registry-keeps plain_json still closed with_query schema no_remote "1.0" down
      (λ cfg. true) [] "shell" own_shell refl no_vault refuse_sandbox exec_config_default tools
      false (local refuse_sandbox) finished "local" refl refl refl
