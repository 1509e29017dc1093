-- ===== src/Agent/Safety.antt =====
-- crates/sa-core/src/lib.rs, `Agent::run_task`: what a run may do to the outside, seen in its trace.
pub mod Tools
pub mod Memory
pub mod Conversation
use secretagent_rust_agent.Base.{
  String, ◌≡◌, ◌≢◌, refl, Bool, true, false, ◌&&◌, not, List, [], ◌∷◌, ◌++◌, Option, none, some,
  Outcome, ok, err, format, arith, ◌⊎◌, inl, inr, All, All-append,
}
use secretagent_rust_agent.Principal.{
  RunContext, may_run_side_effect, may_auto_activate_skill, may_persist, audit_label,
}
use secretagent_rust_agent.Principal.Authority.{Descends, self, child}
use secretagent_rust_agent.Policy.{approval_required}
use secretagent_rust_agent.Memory.{Store, Preference}
use secretagent_rust_agent.Memory.Skills.{ActiveSkill}
use secretagent_rust_agent.Audit.{AuditEvent}
use secretagent_rust_agent.Agent.{ChatMessage, system, user, assistant_call, tool, Host}
use secretagent_rust_agent.Agent.Eval.{SkillDraft}
use secretagent_rust_agent.Agent.Effects.{Effect, audited, asked, dispatched}
use secretagent_rust_agent.Agent.Effects.Keeps.{Post}
use secretagent_rust_agent.Agent.Learn.{created_event}
use secretagent_rust_agent.Agent.Run.{event}
use secretagent_rust_agent.Agent.Run.Prelude.{opening}
use secretagent_rust_agent.Agent.Run.Closed.{Closed}

pub Post-const : {A : Type 0} {B : Type 0} (b : B) (r : Outcome A) → Post (λ _. B) r
Post-const b (ok a) = b
Post-const b (err e) = tt

module _ {Value World : Type 0} (h : Host Value World) (root : RunContext) where
  -- What the effects of a run must keep of a predicate of its trace alone.
  pub record Traced (T : List (Effect Value) → Type 0) (P : List ChatMessage → Type 0)
      : Type 1 where
    pub created :
        (ctx : RunContext) (draft : SkillDraft) (tr : List (Effect Value))
        → Descends root ctx
        → may_persist ctx ≡ true
        → T tr
        → T (audited (created_event h draft) ∷ tr)
    pub recorded :
        (ctx : RunContext) (action key : String) (tr : List (Effect Value))
        → Descends root ctx
        → T tr
        → T (audited (event ctx action key) ∷ tr)
    pub sent :
        (messages : List ChatMessage) (tr : List (Effect Value))
        → P messages
        → T tr
        → T (asked messages ∷ tr)
    pub run :
        (ctx : RunContext) (name : String) (args : Value) (tr : List (Effect Value))
        → Descends root ctx
        → (approval_required name && not (may_run_side_effect ctx name)) ≡ false
        → T (audited (event ctx (format ("tool." ∷ name ∷ [])) name) ∷ tr)
        → T (dispatched name args ∷ audited (event ctx (format ("tool." ∷ name ∷ [])) name) ∷ tr)
    pub opened :
        (input : String) (prefs : List Preference) (active : List ActiveSkill)
        → P (opening h input prefs active)
    pub answered :
        (messages : List ChatMessage) (id name echo content : String)
        → P messages
        → P (messages ++ assistant_call id name echo ∷ tool id content ∷ [])

  pub Traced-Closed :
      {T : List (Effect Value) → Type 0} {P : List ChatMessage → Type 0}
      → Traced T P
      → Closed h root (λ _ tr. T tr) P
  Traced-Closed t = record {
    message_closed = λ session role content prov st tr j. j;
    activate_closed = λ ctx input st tr d m j. j;
    create_closed = λ ctx session draft result st tr d m j. Post-const j _;
    use_closed = λ ctx name body score st tr d m j. Post-const j _;
    created_closed = λ ctx draft st tr d m j. t.created ctx draft tr d m j;
    event_closed = λ ctx action key st tr d j. t.recorded ctx action key tr d j;
    ask_closed = λ messages st tr p j. t.sent messages tr p j;
    dispatch_closed = λ ctx name args st tr d e j. t.run ctx name args tr d e j;
    opening_closed = λ input told used tr tr' j j'. t.opened input _ _;
    result_closed = t.answered;
  }
