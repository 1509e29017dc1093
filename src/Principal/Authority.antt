-- ===== src/Principal/Authority.antt =====
-- What a context may do against what it came from.
use secretagent_rust_agent.Base.{
  ◌≤◌, String, ◌≡◌, refl, ◌↔◌, true, false, List, Any, contains_sound, contains_complete, arith,
  ◌∙◌, ◌≢◌,
}
use secretagent_rust_agent.Types.{trusted}
use secretagent_rust_agent.Text.{bare_name}
use secretagent_rust_agent.Text.Segments.{bare_name_idem}
use secretagent_rust_agent.Principal.{
  operator, remote, remote_run, subagent, RunContext, run_context, subagent_of, depth,
  may_run_side_effect, may_auto_activate_skill, may_persist, provenance,
}

-- Only the bare name of a tool counts.
pub may_run_side_effect-bare_name :
    (ctx : RunContext) (tool : String)
    → may_run_side_effect ctx (bare_name tool) ≡ may_run_side_effect ctx tool
unfolding may_run_side_effect
may_run_side_effect-bare_name (run_context (operator a) g d) tool = refl
may_run_side_effect-bare_name (run_context (remote c s) g d) tool = rw bare_name_idem
may_run_side_effect-bare_name (run_context (subagent p) g d) tool = rw bare_name_idem

subagent-may_run_side_effect :
    (ctx : RunContext) (tool : String)
    → may_run_side_effect (subagent_of ctx) tool ≡ may_run_side_effect ctx tool
unfolding may_run_side_effect
subagent-may_run_side_effect ctx tool = may_run_side_effect-bare_name ctx tool

-- The contexts that `subagent_of` makes from one at the root.
pub data Descends (root : RunContext) : RunContext → Type 0 where
  self : Descends root root
  child : {ctx : RunContext} → Descends root ctx → Descends root (subagent_of ctx)

-- A subagent, however deep, has the side-effect authority of its root: for every tool the
-- answers are equal.
pub Descends-may_run_side_effect :
    (root ctx : RunContext) (tool : String)
    → Descends root ctx
    → may_run_side_effect ctx tool ≡ may_run_side_effect root tool
Descends-may_run_side_effect root ctx tool self = refl
Descends-may_run_side_effect root ctx tool (child {ctx = c} h) =
    subagent-may_run_side_effect c tool ∙ Descends-may_run_side_effect root c tool h

depth_bound : {root ctx : RunContext} → Descends root ctx → depth (subagent_of ctx) ≤ depth root
depth_bound self = omega arith
depth_bound (child h) = omega (arith, depth_bound h)

-- A descendant that is not the root itself is no operator: it neither persists nor activates skills,
-- and its input is untrusted, whatever the root is.
pub subagent_is_stripped :
    (root ctx : RunContext)
    → Descends root ctx
    → (may_persist (subagent_of ctx) ≡ false)
      × (may_auto_activate_skill (subagent_of ctx) ≡ false)
      × (provenance (subagent_of ctx) ≢ trusted)
      × (depth (subagent_of ctx) ≤ depth root)
unfolding may_persist may_auto_activate_skill provenance
subagent_is_stripped root ctx h = (refl, refl, ground arith, depth_bound h)

-- A remote run may use a side-effectful tool exactly when the bare name of the tool is in the
-- frozen grant.
pub remote_grant_iff :
    (connector sender : String) (grant : List String) (tool : String)
    → (may_run_side_effect (remote_run connector sender grant) tool ≡ true)
      ↔ Any (λ t. t ≡ bare_name tool) grant
unfolding may_run_side_effect
remote_grant_iff connector sender grant tool =
    (contains_sound grant (bare_name tool), contains_complete grant (bare_name tool))

-- Input is trusted exactly for the runs that may write durable memory, and a run that may activate
-- a skill by itself is such a run and may use every side-effectful tool.
pub trust_profile :
    (ctx : RunContext)
    → ((provenance ctx ≡ trusted) ↔ (may_persist ctx ≡ true))
      × (may_auto_activate_skill ctx ≡ true
          → (may_persist ctx ≡ true) × ((tool : String) → may_run_side_effect ctx tool ≡ true))
unfolding provenance may_persist may_auto_activate_skill may_run_side_effect
trust_profile (run_context (operator a) g d) = (((λ _. refl), (λ _. refl)), λ h. (refl, λ tool. h))
trust_profile (run_context (remote c s) g d) = (((λ h. cc), (λ h. cc)), λ h. cc)
trust_profile (run_context (subagent p) g d) = (((λ h. cc), (λ h. cc)), λ h. cc)
