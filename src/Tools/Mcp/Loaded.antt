-- ===== src/Tools/Mcp/Loaded.antt =====
-- crates/sa-tools/src/mcp.rs: which remote tools are loaded, and under which names.
use secretagent_rust_agent.Base.{
  String, ◌≡◌, refl, ap, Bool, true, List, [], ◌∷◌, Outcome, ok, err, contains, Any, All,
  All-append, inl, inr, Bool-cases,
}
use secretagent_rust_agent.Text.Segments.{namespaced}
use secretagent_rust_agent.Json.{Json}
use secretagent_rust_agent.Config.{McpServerConfig}
use secretagent_rust_agent.Tools.Mcp.{McpToolDef, McpClient, list_tools, initialize}
use secretagent_rust_agent.Tools.Mcp.Connected.{
  filter_allowed, McpConnection, McpTool, tools_of, allowed, handshaken, connect, load_mcp_tools,
}

filter_allowed-All :
    {Value : Type 0} (defs : List (McpToolDef Value)) (allow : List String)
    → All (λ (d : McpToolDef Value). contains allow d.name ≡ true) (filter_allowed defs allow)
unfolding filter_allowed
filter_allowed-All [] allow = tt
filter_allowed-All (d ∷ defs) allow = elim (Bool-cases (contains allow d.name)) [
  | inl e ↦ rw e (e, filter_allowed-All defs allow)
  | inr e ↦ rw e (filter_allowed-All defs allow)
]

All-weaken :
    {A : Type 0} {P Q : A → Type 0} (xs : List A) → ((x : A) → P x → Q x) → All P xs → All Q xs
All-weaken [] f h = tt
All-weaken (x ∷ xs) f (p, h) = (f x p, All-weaken xs f h)

module _ (j : Json) where
  open j use {Value}

  -- The tool is of this server, under a name of its own, and on its list.
  abbrev pub IsOf : McpTool j → McpServerConfig → Type 0
  IsOf t cfg =
      (t.full_name ≡ namespaced cfg.name t.inner_name)
      × (contains cfg.allow_tools t.inner_name ≡ true)

  abbrev Fine : McpServerConfig → Outcome (McpConnection j × List (McpToolDef Value)) → Type 0
  Fine cfg (err e) = Unit
  Fine cfg (ok (conn, defs)) =
      (conn.server ≡ cfg.name)
      × All (λ (d : McpToolDef Value). contains cfg.allow_tools d.name ≡ true) defs

  allowed-Fine :
      (cfg : McpServerConfig) (o : Outcome (List (McpToolDef Value)) × McpClient j)
      → Fine cfg (allowed j cfg o)
  unfolding allowed
  allowed-Fine cfg (err e, c) = tt
  allowed-Fine cfg (ok defs, c) = (refl, filter_allowed-All defs cfg.allow_tools)

  handshaken-Fine :
      (cfg : McpServerConfig) (o : Outcome (Unit {0}) × McpClient j) → Fine cfg (handshaken j cfg o)
  unfolding handshaken
  handshaken-Fine cfg (err e, c) = tt
  handshaken-Fine cfg (ok u, c) = allowed-Fine cfg (list_tools j c)

  connect-Fine :
      (version : String) (cfg : McpServerConfig) (o : Outcome (McpClient j))
      → Fine cfg (connect j version cfg o)
  unfolding connect
  connect-Fine version cfg (err e) = tt
  connect-Fine version cfg (ok c) = handshaken-Fine cfg (initialize j c version)

  tools_of-IsOf :
      (cfg : McpServerConfig) (o : Outcome (McpConnection j × List (McpToolDef Value)))
      → Fine cfg o
      → All (λ t. IsOf t cfg) (tools_of j o)
  tools_of-IsOf cfg (err e) h = tt
  tools_of-IsOf cfg (ok (conn, [])) h = tt
  tools_of-IsOf cfg (ok (conn, d ∷ defs)) (same, (listed, h)) =
      ((ap (λ s. namespaced s d.name) same, listed), tools_of-IsOf cfg (ok (conn, defs)) (same, h))

  module _ (version : String) (spawn : McpServerConfig → Outcome (McpClient j))
      (in_time : McpServerConfig → Bool) where
    -- Every remote tool that is loaded is on the allow-list of a configured server, by its exact
    -- name, and stands under that server's prefix, whatever the servers answer.
    pub load_mcp_tools-IsOf :
        (cfgs : List McpServerConfig)
        → All (λ t. Any (IsOf t) cfgs) (load_mcp_tools j version spawn in_time cfgs)
    unfolding load_mcp_tools
    load_mcp_tools-IsOf [] = tt
    load_mcp_tools-IsOf (cfg ∷ cfgs) =
        let rest =
          All-weaken (load_mcp_tools j version spawn in_time cfgs) (λ t h. inr h)
            (load_mcp_tools-IsOf cfgs) in
        elim (Bool-cases (in_time cfg)) [
          | inl e ↦ rw e (
              All-append (λ t. Any (IsOf t) (cfg ∷ cfgs))
                (tools_of j (connect j version cfg (spawn cfg)))
                (load_mcp_tools j version spawn in_time cfgs)
                (All-weaken (tools_of j (connect j version cfg (spawn cfg))) (λ t h. inl h)
                  (tools_of-IsOf cfg (connect j version cfg (spawn cfg))
                    (connect-Fine version cfg (spawn cfg))))
                rest)
          | inr e ↦ rw e rest
        ]
