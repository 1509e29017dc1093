-- ===== src/Agent/Run/Closed.antt =====
-- crates/sa-core/src/lib.rs, `Agent::run_task`: the primitive effects of a run, each with the guards that
-- the code has for it, and what they must keep of a relation between the store and the trace.
use secretagent_rust_agent.Base.{
  ℕ, String, ◌≡◌, true, false, ◌&&◌, not, List, [], ◌∷◌, ◌++◌, format,
}
use secretagent_rust_agent.Types.{trusted}
use secretagent_rust_agent.Principal.{
  RunContext, may_run_side_effect, may_auto_activate_skill, may_persist,
}
use secretagent_rust_agent.Principal.Authority.{Descends}
use secretagent_rust_agent.Policy.{approval_required}
use secretagent_rust_agent.Memory.{Store}
use secretagent_rust_agent.Memory.Preferences.{preferences}
use secretagent_rust_agent.Memory.Messages.{add_message}
use secretagent_rust_agent.Memory.Skills.{active_matching_skills, activate_skill, record_skill_use}
use secretagent_rust_agent.Agent.{ChatMessage, assistant_call, tool, Host}
use secretagent_rust_agent.Agent.Eval.{EvalResult, SkillDraft, slug}
use secretagent_rust_agent.Agent.Effects.{Effect, audited, asked, dispatched}
use secretagent_rust_agent.Agent.Effects.Keeps.{Post}
use secretagent_rust_agent.Agent.Learn.{create_draft, created_event}
use secretagent_rust_agent.Agent.Run.{event}
use secretagent_rust_agent.Agent.Run.Prelude.{opening}

module _ {Value World : Type 0} (h : Host Value World) (root : RunContext) where
  -- What the effects of a run from `root` must keep: `J` of the store and the trace, and `P` of the
  -- messages that are sent to the model.
  pub record Closed (J : Store → List (Effect Value) → Type 0) (P : List ChatMessage → Type 0)
      : Type 1 where
    pub message_closed :
        (session role content prov : String) (st : Store) (tr : List (Effect Value))
        → J st tr
        → J (add_message session role content prov st).0 tr
    pub activate_closed :
        (ctx : RunContext) (input : String) (st : Store) (tr : List (Effect Value))
        → Descends root ctx
        → may_auto_activate_skill ctx ≡ true
        → J st tr
        → J (activate_skill (slug h.to_lowercase input) (h.provenance_json trusted) st).0 tr
    pub create_closed :
        (ctx : RunContext) (session : String) (draft : SkillDraft) (result : EvalResult)
        (st : Store) (tr : List (Effect Value))
        → Descends root ctx
        → may_persist ctx ≡ true
        → J st tr
        → Post (λ st'. J st' tr) (create_draft h session draft result st)
    pub use_closed :
        (ctx : RunContext) (name body : String) (score : ℕ) (st : Store) (tr : List (Effect Value))
        → Descends root ctx
        → may_persist ctx ≡ true
        → J st tr
        → Post (λ st'. J st' tr) (record_skill_use name body score st)
    pub created_closed :
        (ctx : RunContext) (draft : SkillDraft) (st : Store) (tr : List (Effect Value))
        → Descends root ctx
        → may_persist ctx ≡ true
        → J st tr
        → J st (audited (created_event h draft) ∷ tr)
    pub event_closed :
        (ctx : RunContext) (action key : String) (st : Store) (tr : List (Effect Value))
        → Descends root ctx
        → J st tr
        → J st (audited (event ctx action key) ∷ tr)
    pub ask_closed :
        (messages : List ChatMessage) (st : Store) (tr : List (Effect Value))
        → P messages
        → J st tr
        → J st (asked messages ∷ tr)
    pub dispatch_closed :
        (ctx : RunContext) (name : String) (args : Value) (st : Store) (tr : List (Effect Value))
        → Descends root ctx
        → (approval_required name && not (may_run_side_effect ctx name)) ≡ false
        → J st (audited (event ctx (format ("tool." ∷ name ∷ [])) name) ∷ tr)
        → J st (dispatched name args ∷ audited (event ctx (format ("tool." ∷ name ∷ [])) name) ∷ tr)
    pub opening_closed :
        (input : String) (told used : Store) (tr tr' : List (Effect Value))
        → J told tr
        → J used tr'
        → P (
            opening h input
              (preferences told)
              (active_matching_skills h.is_alphanumeric h.match_skills input 1 used))
    pub result_closed :
        (messages : List ChatMessage) (id name echo content : String)
        → P messages
        → P (messages ++ assistant_call id name echo ∷ tool id content ∷ [])
