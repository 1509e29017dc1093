-- ===== src/Principal.antt =====
-- crates/sa-core-types/src/principal.rs: who drives a run, and what it may do.
pub mod Authority
pub mod Tests
use secretagent_rust_agent.Base.{ℕ, ◌-◌, String, Bool, true, false, List, [], ◌∷◌, contains, format}
use secretagent_rust_agent.Types.{Provenance, trusted, untrusted}
use secretagent_rust_agent.Text.{bare_name}

abbrev pub max_subagent_depth : ℕ
max_subagent_depth = 2

-- A context holds its principal, the frozen grant and the nesting budget; a subagent's principal
-- holds its parent's context, so the two types are one block.
mutual
  pub data Principal : Type 0 where
    operator : Bool → Principal
    remote : String → String → Principal
    subagent : RunContext → Principal

  pub data RunContext : Type 0 where
    run_context : Principal → List String → ℕ → RunContext

abbrev pub principal : RunContext → Principal
principal (run_context p grant d) = p

abbrev pub allow_list : RunContext → List String
allow_list (run_context p grant d) = grant

abbrev pub depth : RunContext → ℕ
depth (run_context p grant d) = d

-- `RunContext::operator`
abbrev pub operator_run : Bool → RunContext
operator_run auto_approve = run_context (operator auto_approve) [] max_subagent_depth

-- `RunContext::remote`: no budget for subagents
abbrev pub remote_run : String → String → List String → RunContext
remote_run connector sender grant = run_context (remote connector sender) grant 0

-- `saturating_sub` is the subtraction of ℕ.
abbrev pub subagent_of : RunContext → RunContext
subagent_of ctx = run_context (subagent ctx) [] (depth ctx - 1)

unfoldable pub is_operator : RunContext → Bool
is_operator (run_context (operator auto_approve) grant d) = true
is_operator (run_context (remote connector sender) grant d) = false
is_operator (run_context (subagent parent) grant d) = false

unfoldable pub may_run_side_effect : RunContext → String → Bool
may_run_side_effect (run_context (operator auto_approve) grant d) tool = auto_approve
may_run_side_effect (run_context (remote connector sender) grant d) tool =
    contains grant (bare_name tool)
may_run_side_effect (run_context (subagent parent) grant d) tool =
    may_run_side_effect parent (bare_name tool)

unfoldable pub may_auto_activate_skill : RunContext → Bool
may_auto_activate_skill (run_context (operator auto_approve) grant d) = auto_approve
may_auto_activate_skill (run_context (remote connector sender) grant d) = false
may_auto_activate_skill (run_context (subagent parent) grant d) = false

unfoldable pub may_persist : RunContext → Bool
unfolding is_operator
may_persist ctx = is_operator ctx

unfoldable pub audit_label : RunContext → String
audit_label (run_context (operator auto_approve) grant d) = "operator"
audit_label (run_context (remote connector sender) grant d) =
    format ("remote:" ∷ connector ∷ ":" ∷ sender ∷ [])
audit_label (run_context (subagent parent) grant d) = format ("subagent:" ∷ audit_label parent ∷ [])

unfoldable pub provenance : RunContext → Provenance
unfolding audit_label
provenance (run_context (operator auto_approve) grant d) = trusted
provenance (run_context (remote connector sender) grant d) =
    untrusted (format (connector ∷ ":" ∷ sender ∷ []))
provenance (run_context (subagent parent) grant d) =
    untrusted (format ("subagent:" ∷ audit_label parent ∷ []))
