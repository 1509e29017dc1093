-- ===== src/Setup/Kept.antt =====
-- secretagent/src/setup.rs: the tools of the program in the finished registry.
use mathlib.Core.Path.{subst}
use secretagent_rust_agent.Base.{
  String, ◌≡◌, ◌≢◌, refl, sym, ◌∙◌, Bool, List, [], ◌∷◌, Option, none, some, Outcome, ok, err,
  ◌>>=◌, Any, All, inl, inr, Bool-cases,
}
use secretagent_rust_agent.Types.{Tainted}
use secretagent_rust_agent.Text.Words.{is_empty}
use secretagent_rust_agent.Json.{Json}
use secretagent_rust_agent.Policy.{Policy}
use secretagent_rust_agent.Config.{OpToolConfig, ToolsConfig, ExecConfig, McpServerConfig}
use secretagent_rust_agent.Exec.{System, Logged, Io, Backend, Sandbox, label}
use secretagent_rust_agent.Egress.{EgressRequest}
use secretagent_rust_agent.Tools.{Tool, Registry, register, get, insert, lookup}
use secretagent_rust_agent.Tools.Builtin.{default_tools}
use secretagent_rust_agent.Tools.Lookup.{get-register_other}
use secretagent_rust_agent.Tools.OpTool.{OpTool, op_tool, with_cmd}
use secretagent_rust_agent.Tools.Mcp.{McpClient}
use secretagent_rust_agent.Tools.Mcp.Connected.{McpTool, load_mcp_tools}
use secretagent_rust_agent.Tools.Mcp.Loaded.{IsOf, load_mcp_tools-IsOf}
use secretagent_rust_agent.Tools.Mcp.Names.{IsFirstParty, namespaced-other}
use secretagent_rust_agent.Setup.{
  own_tools, with_search, add_remote, remote_tool, add_op_tools, add_op_tool, registered, external,
  build_registry, backend_from_config, resolve_secret, or_else, web_search, shell, http_request,
  web_extract,
}

with_cmd-cases :
    (Q : Outcome OpTool → Type 0) (name : String) (description : Option String)
    → ((e : String) → Q (err e))
    → ((t : OpTool) → t.name ≡ name → Q (ok t))
    → (cmd : List String) → Q (with_cmd name description cmd)
with_cmd-cases Q name description bad good [] = bad _
with_cmd-cases Q name description bad good (p ∷ flags) = good _ refl

-- A command that is accepted has the configured name.
op_tool-cases :
    (Q : Outcome OpTool → Type 0) (name : String) (cmd : List String) (description : Option String)
    → ((e : String) → Q (err e))
    → ((t : OpTool) → t.name ≡ name → Q (ok t))
    → Q (op_tool name cmd description)
unfolding op_tool
op_tool-cases Q name cmd description bad good = elim (Bool-cases (is_empty name)) [
  | inl e ↦ rw e (bad "op_tool: name is required")
  | inr e ↦ rw e (with_cmd-cases Q name description bad good cmd)
]

module _ (j : Json) {World : Type 0} (sys : System World)
    (guard : Policy → EgressRequest → Logged World → Outcome (Tainted String) × Logged World)
    (append_query : String → String → Outcome String) (schema : String → j.Value)
    (remote : McpTool j → j.Value → Policy → Io World) where
  abbrev Tools : Type 0
  Tools = Registry j.Value (Logged World)

  module _ (name : String) (t : Tool j.Value (Logged World)) where
    add_op_tool-keeps :
        (r : Tools) (ot : OpToolConfig) (o : Option (Tool j.Value (Logged World)))
        → get r ot.name ≡ o
        → get r name ≡ some t
        → get (add_op_tool j sys guard append_query schema remote r ot o) name ≡ some t
    unfolding add_op_tool registered external
    add_op_tool-keeps r ot (some taken) e h = h
    add_op_tool-keeps r ot none e h =
        op_tool-cases
          (λ o. get (registered j sys guard append_query schema remote r o) name ≡ some t) ot.name
          ot.cmd ot.description (λ m. h)
          (λ u same.
            get-register_other r (external j sys guard append_query schema remote u) name
              (λ clash. cc (e, h, same, clash))
            ∙ h)

    add_op_tools-keeps :
        (r : Tools) (ots : List OpToolConfig)
        → get r name ≡ some t
        → get (add_op_tools j sys guard append_query schema remote r ots) name ≡ some t
    unfolding add_op_tools
    add_op_tools-keeps r [] h = h
    add_op_tools-keeps r (ot ∷ ots) h =
        add_op_tools-keeps (add_op_tool j sys guard append_query schema remote r ot (get r ot.name))
          ots (add_op_tool-keeps r ot (get r ot.name) refl h)

    IsOf-other :
        (m : McpTool j) (cfgs : List McpServerConfig)
        → IsFirstParty name
        → Any (IsOf j m) cfgs
        → m.full_name ≢ name
    IsOf-other m [] plain h = absurd h
    IsOf-other m (cfg ∷ cfgs) plain (inl (is, listed)) =
        λ same. namespaced-other cfg.name m.inner_name name plain (sym is ∙ same)
    IsOf-other m (cfg ∷ cfgs) plain (inr h) = IsOf-other m cfgs plain h

    add_remote-keeps :
        (r : Tools) (ms : List (McpTool j)) (cfgs : List McpServerConfig)
        → IsFirstParty name
        → All (λ m. Any (IsOf j m) cfgs) ms
        → get r name ≡ some t
        → get (add_remote j sys guard append_query schema remote r ms) name ≡ some t
    unfolding add_remote
    add_remote-keeps r [] cfgs plain of h = h
    add_remote-keeps r (m ∷ ms) cfgs plain (one, of) h =
        add_remote-keeps (register r (remote_tool j sys guard append_query schema remote m)) ms cfgs
          plain of
          (get-register_other r (remote_tool j sys guard append_query schema remote m) name
              (IsOf-other m cfgs plain one)
            ∙ h)

  no_search :
      (b fresh : Backend) (allow : Bool)
      → get (own_tools j sys guard append_query schema remote b fresh allow) "web_search" ≡ none
  unfolding own_tools default_tools get register insert lookup shell http_request web_extract
  no_search b fresh allow = refl

  module _ (version : String) (spawn : McpServerConfig → Outcome (McpClient j))
      (in_time : McpServerConfig → Bool) (cfgs : List McpServerConfig) (name : String)
      (t : Tool j.Value (Logged World)) (plain : IsFirstParty name) where
    finished-keeps :
        (r : Tools) (ots : List OpToolConfig)
        → get r name ≡ some t
        → get
            (add_op_tools j sys guard append_query schema remote
              (add_remote j sys guard append_query schema remote r
                (load_mcp_tools j version spawn in_time cfgs))
              ots)
            name
          ≡ some t
    finished-keeps r ots h =
        add_op_tools-keeps name t
          (add_remote j sys guard append_query schema remote r
            (load_mcp_tools j version spawn in_time cfgs))
          ots
          (add_remote-keeps name t r (load_mcp_tools j version spawn in_time cfgs) cfgs plain
            (load_mcp_tools-IsOf j version spawn in_time cfgs) h)

    -- What the result of a registry holds, if there is one.
    abbrev Holds : Outcome (Tools × String) → Type 0
    Holds (err e) = Unit
    Holds (ok (r, l)) = get r name ≡ some t

    searched-keeps :
        (tools : ToolsConfig) (r : Tools) (l : String) (o : Outcome (Option String))
        (endpoint : String)
        → "web_search" ≢ name
        → get r name ≡ some t
        → Holds (
            (o >>= λ key. ok (
              register r (
                web_search j sys guard append_query schema remote
                  (record { endpoint = endpoint; api_key = key }))))
            >>= λ s. ok (
              add_op_tools j sys guard append_query schema remote
                  (add_remote j sys guard append_query schema remote s
                    (load_mcp_tools j version spawn in_time cfgs))
                  tools.op_tools,
              l,
            ))
    unfolding web_search
    searched-keeps tools r l (err e) endpoint other h = tt
    searched-keeps tools r l (ok key) endpoint other h =
        finished-keeps
          (register r (
            web_search j sys guard append_query schema remote
              (record { endpoint = endpoint; api_key = key })))
          tools.op_tools
          (get-register_other r
              (web_search j sys guard append_query schema remote
                (record { endpoint = endpoint; api_key = key }))
              name other
            ∙ h)

    with_search-keeps :
        (vault : String → Outcome (Option String)) (tools : ToolsConfig) (url : Option String)
        (r : Tools) (l : String)
        → "web_search" ≢ name
        → get r name ≡ some t
        → Holds (
            with_search j sys guard append_query schema remote vault tools url r >>= λ s. ok (
              add_op_tools j sys guard append_query schema remote
                  (add_remote j sys guard append_query schema remote s
                    (load_mcp_tools j version spawn in_time cfgs))
                  tools.op_tools,
              l,
            ))
    unfolding with_search
    with_search-keeps vault tools none r l other h = finished-keeps r tools.op_tools h
    with_search-keeps vault tools (some endpoint) r l other h =
        searched-keeps tools r l
          (resolve_secret vault (
            or_else j sys guard append_query schema remote tools.search_key_ref
              tools.default_key_ref))
          endpoint other h

    -- Each of the program's own tools is in the finished registry as the program made it, whatever
    -- the remote servers offer and whichever commands the operator configured: the backend's
    -- configuration is read, the name holds no `::`, and a registry is built.
    pub build_registry-keeps :
        (vault : String → Outcome (Option String)) (platform : Sandbox) (exec : ExecConfig)
        (tools : ToolsConfig) (allow : Bool) (b : Backend) (r : Tools) (l : String)
        → backend_from_config platform exec ≡ ok b
        → get (own_tools j sys guard append_query schema remote b b allow) name ≡ some t
        → build_registry j sys guard append_query schema remote vault platform exec tools
            (load_mcp_tools j version spawn in_time cfgs)
            allow
          ≡ ok (r, l)
        → get r name ≡ some t
    unfolding build_registry
    build_registry-keeps vault platform exec tools allow b r l backend own built =
        subst Holds built (
          rw backend (
            with_search-keeps vault tools tools.search_url
              (own_tools j sys guard append_query schema remote b b allow) (label b)
              (λ same. cc (same, own, no_search b b allow)) own))
