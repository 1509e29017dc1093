-- ===== src/Policy/Approval.antt =====
-- Approval and grants read through a server's namespace.
use secretagent_rust_agent.Base.{String, ◌≡◌, none, sym, ap, ◌∙◌}
use secretagent_rust_agent.Text.{after_colon}
use secretagent_rust_agent.Text.Segments.{namespaced, bare_name-namespaced}
use secretagent_rust_agent.Principal.{RunContext, may_run_side_effect}
use secretagent_rust_agent.Principal.Authority.{may_run_side_effect-bare_name}
use secretagent_rust_agent.Policy.{approval_required}

-- A tool behind a server's namespace needs approval exactly when the tool itself does, and a run may
-- use it exactly when it may use the tool itself, for every name that does not start with a colon.
pub namespace_is_transparent :
    (ctx : RunContext) (server tool : String)
    → after_colon tool ≡ none
    → (approval_required (namespaced server tool) ≡ approval_required tool)
      × (may_run_side_effect ctx (namespaced server tool) ≡ may_run_side_effect ctx tool)
unfolding approval_required
namespace_is_transparent ctx server tool h = (
  rw (bare_name-namespaced server tool h),
  sym (may_run_side_effect-bare_name ctx (namespaced server tool))
      ∙ ap (may_run_side_effect ctx) (bare_name-namespaced server tool h)
      ∙ may_run_side_effect-bare_name ctx tool,
)
