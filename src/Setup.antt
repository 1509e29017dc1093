-- ===== src/Setup.antt =====
-- secretagent/src/setup.rs and exec.rs: how the provider and the registry of tools are put together
-- from the configuration.

pub mod Kept
mod Tests
use secretagent_rust_agent.Base.{
  String, Bool, ◌||◌, ◌==◌, List, [], ◌∷◌, Option, none, some, Outcome, ok, err, ◌>>=◌, ok_or,
  format, if◌then◌else◌,
}
use secretagent_rust_agent.Types.{Tainted}
use secretagent_rust_agent.Json.{Json}
use secretagent_rust_agent.Policy.{Policy}
use secretagent_rust_agent.Config.{
  ProviderConfig, ExecConfig, OpToolConfig, ToolsConfig, McpServerConfig, model_for,
}
use secretagent_rust_agent.Providers.Anthropic.{Anthropic, anthropic}
use secretagent_rust_agent.Providers.OpenAi.{OpenAiCompat}
use secretagent_rust_agent.Exec.{System, Logged, Io, Backend, Sandbox, local, docker, ssh, label}
use secretagent_rust_agent.Egress.{EgressRequest}
use secretagent_rust_agent.Tools.{Tool, Registry, register, get}
use secretagent_rust_agent.Tools.Builtin.{default_tools, execute_code}
use secretagent_rust_agent.Tools.Network.{
  WebSearch, run_http_request, run_web_search, run_web_extract,
}
use secretagent_rust_agent.Tools.OpTool.{OpTool, op_tool, run, run_shell}
use secretagent_rust_agent.Tools.Mcp.Connected.{McpTool}

-- `vault` opens the vault and reads a secret.
unfoldable pub resolve_secret :
    (String → Outcome (Option String)) → Option String → Outcome (Option String)
resolve_secret vault none = ok none
resolve_secret vault (some key_id) = vault key_id

pub data Provider : Type 0 where
  messages_api : Anthropic → Provider
  compatible : OpenAiCompat → Provider

abbrev pub provider_of : ProviderConfig → String → Option String → Outcome Provider
provider_of cfg model api_key =
    if cfg.kind == "anthropic"
    then ok (messages_api (anthropic model api_key))
    else if cfg.kind == "openai" || cfg.kind == ""
    then ok (compatible (record { base_url = cfg.base_url; model = model; api_key = api_key }))
    else err (format ("unknown provider kind '" ∷ cfg.kind ∷ "' (want openai|anthropic)" ∷ []))

unfoldable pub build_provider :
    (String → Outcome (Option String)) → ProviderConfig → Outcome Provider
unfolding resolve_secret model_for anthropic
build_provider vault cfg = resolve_secret vault cfg.api_key_ref >>= λ api_key.
    provider_of cfg (model_for cfg "execute") api_key

abbrev docker_of : Outcome String → Outcome Backend
docker_of image = image >>= λ i. ok (docker i)

abbrev ssh_of : Outcome String → Outcome Backend
ssh_of host = host >>= λ h. ok (ssh h)

-- `Backend::local` is the sandbox of the platform.
unfoldable pub backend_from_config : Sandbox → ExecConfig → Outcome Backend
backend_from_config platform cfg =
    if cfg.backend == "local"
    then ok (local platform)
    else if cfg.backend == "docker"
    then docker_of (ok_or cfg.image "[exec] backend=\"docker\" needs an `image`")
    else if cfg.backend == "ssh"
    then ssh_of (ok_or cfg.host "[exec] backend=\"ssh\" needs a `host` (e.g. user@host)")
    else err (format ("[exec] unknown backend '" ∷ cfg.backend ∷ "' (want local|docker|ssh)" ∷ []))

-- `schema` is the parameters of a tool, `remote` the run of a remote tool.
module _ (j : Json) {World : Type 0} (sys : System World)
    (guard : Policy → EgressRequest → Logged World → Outcome (Tainted String) × Logged World)
    (append_query : String → String → Outcome String) (schema : String → j.Value)
    (remote : McpTool j → j.Value → Policy → Io World) where
  open j use {Value}

  abbrev pub Tools : Type 0
  Tools = Registry j.Value (Logged World)

  abbrev pub shell : Backend → Tool j.Value (Logged World)
  unfolding run_shell
  shell backend = record {
    name = "shell";
    description =
        "Run a shell command on the operator-configured sandboxed backend (landlock/docker/ssh; fail-closed). Same backend as execute_code; the backend is operator-set, never chosen here.";
    parameters = schema "shell";
    run = run_shell j sys backend;
  }

  abbrev pub web_extract : Tool j.Value (Logged World)
  unfolding run_web_extract
  web_extract = record {
    name = "web_extract";
    description =
        "Fetch an allow-listed URL and return its readable text (HTML stripped; untrusted).";
    parameters = schema "web_extract";
    run = run_web_extract j guard append_query;
  }

  abbrev pub http_request : Tool j.Value (Logged World)
  unfolding run_http_request
  http_request = record {
    name = "http_request";
    description =
        "HTTP request (GET/POST/PUT/PATCH/DELETE/HEAD) to an allow-listed URL; returns the body (untrusted). The host must be in the egress allow-list.";
    parameters = schema "http_request";
    run = run_http_request j guard append_query;
  }

  abbrev pub web_search : WebSearch → Tool j.Value (Logged World)
  unfolding run_web_search
  web_search t = record {
    name = "web_search";
    description =
        "Search the web via the operator-configured search endpoint; returns the raw results body (untrusted). You provide only the query.";
    parameters = schema "web_search";
    run = run_web_search j guard append_query t;
  }

  abbrev pub external : OpTool → Tool j.Value (Logged World)
  unfolding run
  external t = record {
    name = t.name;
    description = t.description;
    parameters = schema "op_tool";
    run = run j sys t;
  }

  abbrev pub remote_tool : McpTool j → Tool j.Value (Logged World)
  remote_tool t = record {
    name = t.full_name;
    description = t.description;
    parameters = t.schema;
    run = remote t;
  }

  -- The tools of the program, without the search.
  unfoldable pub own_tools : Backend → Backend → Bool → Tools
  unfolding default_tools register
  own_tools backend fresh allow_unsandboxed =
      register
        (register
          (register
            (register (default_tools sys j.get j.as_str schema)
              (execute_code sys j.get j.as_str schema backend allow_unsandboxed))
            (shell fresh))
          web_extract)
        http_request

  abbrev pub or_else : Option String → Option String → Option String
  or_else none key = key
  or_else (some key) _ = some key

  abbrev pub with_search :
      (String → Outcome (Option String)) → ToolsConfig → Option String → Tools → Outcome Tools
  unfolding resolve_secret register
  with_search vault cfg none r = ok r
  with_search vault cfg (some endpoint) r =
      resolve_secret vault (or_else cfg.search_key_ref cfg.default_key_ref) >>= λ api_key.
      ok (register r (web_search (record { endpoint = endpoint; api_key = api_key })))

  unfoldable pub add_remote : Tools → List (McpTool j) → Tools
  unfolding register
  add_remote r [] = r
  add_remote r (t ∷ tools) = add_remote (register r (remote_tool t)) tools

  abbrev pub registered : Tools → Outcome OpTool → Tools
  unfolding register
  registered r (err e) = r
  registered r (ok t) = register r (external t)

  -- A command whose name is taken is passed over.
  abbrev pub add_op_tool : Tools → OpToolConfig → Option (Tool j.Value (Logged World)) → Tools
  unfolding registered op_tool
  add_op_tool r ot (some taken) = r
  add_op_tool r ot none = registered r (op_tool ot.name ot.cmd ot.description)

  unfoldable pub add_op_tools : Tools → List OpToolConfig → Tools
  unfolding add_op_tool get
  add_op_tools r [] = r
  add_op_tools r (ot ∷ ots) = add_op_tools (add_op_tool r ot (get r ot.name)) ots

  -- `mcp_tools` are those that load_mcp_tools returns.
  unfoldable pub build_registry :
      (String → Outcome (Option String))
      → Sandbox
      → ExecConfig
      → ToolsConfig
      → List (McpTool j)
      → Bool
      → Outcome (Tools × String)
  unfolding backend_from_config own_tools with_search add_remote add_op_tools label
  build_registry vault platform exec tools mcp_tools allow_unsandboxed =
      backend_from_config platform exec >>= λ backend.
      with_search vault tools tools.search_url (own_tools backend backend allow_unsandboxed)
      >>= λ r. ok (add_op_tools (add_remote r mcp_tools) tools.op_tools, label backend)
