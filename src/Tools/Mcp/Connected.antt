-- ===== src/Tools/Mcp/Connected.antt =====
-- crates/sa-tools/src/mcp.rs: the connections to the servers of the configuration, and the tools that
-- they bring.
use secretagent_rust_agent.Base.{
  String, Bool, List, [], ◌∷◌, ◌++◌, map, filter, Outcome, ok, err, contains, if◌then◌else◌, format,
}
use secretagent_rust_agent.Text.Segments.{namespaced}
use secretagent_rust_agent.Json.{Json}
use secretagent_rust_agent.Config.{McpServerConfig}
use secretagent_rust_agent.Tools.Mcp.{McpToolDef, McpClient, initialize, list_tools, call_tool}

unfoldable pub filter_allowed :
    {Value : Type 0} → List (McpToolDef Value) → List String → List (McpToolDef Value)
filter_allowed {Value = Value} defs allow =
    filter (λ (d : McpToolDef Value). contains allow d.name) defs

module _ (j : Json) where
  open j use {Value}

  pub record McpConnection : Type 0 where
    pub server : String
    pub client : McpClient j

  pub record McpTool : Type 0 where
    pub conn : McpConnection
    pub inner_name : String
    pub full_name : String
    pub description : String
    pub schema : Value

  unfoldable pub allowed :
      McpServerConfig
      → Outcome (List (McpToolDef Value)) × McpClient j
      → Outcome (McpConnection × List (McpToolDef Value))
  unfolding filter_allowed
  allowed cfg (err e, c) = err e
  allowed cfg (ok advertised, c) =
      ok (record { server = cfg.name; client = c }, filter_allowed advertised cfg.allow_tools)

  unfoldable pub handshaken :
      McpServerConfig
      → Outcome (Unit {0}) × McpClient j
      → Outcome (McpConnection × List (McpToolDef Value))
  unfolding list_tools allowed
  handshaken cfg (err e, c) = err e
  handshaken cfg (ok u, c) = allowed cfg (list_tools j c)

  -- `spawned` is the process of the server with its pipes, or why there is none.
  unfoldable pub connect :
      String
      → McpServerConfig
      → Outcome (McpClient j)
      → Outcome (McpConnection × List (McpToolDef Value))
  unfolding initialize handshaken
  connect version cfg (err e) =
      err (format ("mcp '" ∷ cfg.name ∷ "': spawn '" ∷ cfg.command ∷ "' failed: " ∷ e ∷ []))
  connect version cfg (ok client) = handshaken cfg (initialize j client version)

  -- The tool's run, with the client of its connection.
  unfoldable pub run : McpTool → Value → Outcome String × McpClient j
  unfolding call_tool
  run t args = call_tool j t.conn.client t.inner_name args

  -- The tools of one server; a server that does not connect in time or at all has none.
  abbrev pub tools_of : Outcome (McpConnection × List (McpToolDef Value)) → List McpTool
  tools_of (err e) = []
  tools_of (ok (conn, defs)) =
      map
        (λ (d : McpToolDef Value). record {
          conn = conn;
          inner_name = d.name;
          full_name = namespaced conn.server d.name;
          description = d.description;
          schema = d.input_schema;
        })
        defs

  -- `spawn` starts the process of a server; `in_time` says whether it connects within its time.
  unfoldable pub load_mcp_tools :
      String
      → (McpServerConfig → Outcome (McpClient j))
      → (McpServerConfig → Bool)
      → List McpServerConfig
      → List McpTool
  unfolding connect
  load_mcp_tools version spawn in_time [] = []
  load_mcp_tools version spawn in_time (cfg ∷ cfgs) =
      let rest = load_mcp_tools version spawn in_time cfgs in
      if in_time cfg then tools_of (connect version cfg (spawn cfg)) ++ rest else rest
