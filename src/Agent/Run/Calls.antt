-- ===== src/Agent/Run/Calls.antt =====
-- crates/sa-core/src/lib.rs, `Agent::run_task`: its tool calls and its loop.
use secretagent_rust_agent.Base.{
  ℕ, zero, suc, String, ◌≡◌, refl, Bool, true, false, ◌&&◌, not, List, [], ◌∷◌, Option, none, some,
  Outcome, ok, err, format,
}
use secretagent_rust_agent.Principal.{RunContext, subagent_of, may_run_side_effect}
use secretagent_rust_agent.Principal.Authority.{Descends, child}
use secretagent_rust_agent.Policy.{approval_required}
use secretagent_rust_agent.Memory.{Store}
use secretagent_rust_agent.Audit.{AuditEvent}
use secretagent_rust_agent.Tools.{Tool, get}
use secretagent_rust_agent.Agent.{
  ChatMessage, ToolSpec, ProviderAction, text, tool_call, Fault, fine, lost, unsynced, Host,
}
use secretagent_rust_agent.Agent.Eval.{Trajectory}
use secretagent_rust_agent.Agent.Effects.{
  Effect, audited, State, M, pure, attempt, appended, tick, push, continue, append_synced, run_tool,
}
use secretagent_rust_agent.Agent.Effects.Keeps.{
  Anything, Holds, Keeps, Keeps-bind, Keeps-then, Keeps-attempt, Keeps-pure,
}
use secretagent_rust_agent.Agent.Run.{
  event, Progress, answer, more, Spawn, subagent_result, subagent_call, shown, counted, output_of,
  dispatch, guarded, call_by, call_tool, react, step, proceed, loop,
}
use secretagent_rust_agent.Agent.Run.Prelude.{task}
use secretagent_rust_agent.Agent.Run.Closed.{Closed}
use secretagent_rust_agent.Agent.Run.Keeping.{Inv, Ready, ask-Keeps, event-Keeps, finish-Keeps}

module _ {Value World : Type 0} (h : Host Value World) (root : RunContext)
    {J : Store → List (Effect Value) → Type 0} {P : List ChatMessage → Type 0}
    (c : Closed h root J P) where
  abbrev pub I : State Value World → Type 0
  I = Inv h root c

  -- The subagents of the run keep it.
  abbrev pub Kept : Spawn h → Type 0
  Kept spawn =
      (session input : String) (ctx : RunContext)
      → Descends root ctx
      → Keeps I Anything (spawn session input ctx)

  subagent_result-Keeps :
      (denied : Bool) (spawn : Spawn h) (ctx : RunContext) (session : String) (traj : Trajectory)
      (task : String)
      → Kept spawn
      → Descends root ctx
      → Keeps I Anything (subagent_result h denied spawn ctx session traj task)
  subagent_result-Keeps true spawn ctx session traj task k d =
      Keeps-then I _ (event-Keeps h root c ctx _ _ d) (λ _. Keeps-pure I _ tt)
  subagent_result-Keeps false spawn ctx session traj task k d =
      Keeps-then I (λ r. pure (shown h r))
        (Keeps-then I (λ _. attempt (spawn _ task (subagent_of ctx)))
          (event-Keeps h root c ctx _ _ d)
          (λ _. Keeps-attempt I (k _ task (subagent_of ctx) (child d))))
        (λ r. Keeps-pure I (shown h r) tt)

  counted-Keeps : (traj : Trajectory) (r : Outcome String) → Keeps I Anything (counted h traj r)
  counted-Keeps traj (ok o) = Keeps-pure I _ tt
  counted-Keeps traj (err e) = Keeps-pure I _ tt

  abbrev record_of : RunContext → String → AuditEvent
  record_of ctx name = event ctx (format ("tool." ∷ name ∷ [])) name

  -- After the record of a call the tool may run.
  output-Holds :
      (t : Option (Tool Value World)) (ctx : RunContext) (traj : Trajectory) (name : String)
      (args : Value) (s : State Value World)
      → Descends root ctx
      → (approval_required name && not (may_run_side_effect ctx name)) ≡ false
      → J s.store (audited (record_of ctx name) ∷ s.trace)
      → Holds I Anything
          (output_of h t traj name args (tick (push (audited (record_of ctx name)) s)))
  unfolding run_tool
  output-Holds none ctx traj name args s d e j = (j, tt)
  output-Holds (some t) ctx traj name args s d e j =
      (counted-Keeps traj (t.run args h.policy s.world).0).at _
        (c.dispatch_closed ctx name args s.store s.trace d e j)

  dispatched-Holds :
      (x : Fault) (ctx : RunContext) (traj : Trajectory) (name : String) (args : Value)
      (s : State Value World)
      → Descends root ctx
      → (approval_required name && not (may_run_side_effect ctx name)) ≡ false
      → I s
      → Holds I Anything (
          continue
            (λ _. output_of h (get h.registry name) traj name args)
            (appended x (record_of ctx name) s))
  dispatched-Holds fine ctx traj name args s d e i =
      output-Holds (get h.registry name) ctx traj name args s d e
        (c.event_closed ctx _ name s.store s.trace d i)
  dispatched-Holds lost ctx traj name args s d e i = (i, tt)
  dispatched-Holds unsynced ctx traj name args s d e i =
      (c.event_closed ctx _ name s.store s.trace d i, tt)

  dispatch-Keeps :
      (ctx : RunContext) (traj : Trajectory) (name : String) (args : Value)
      → Descends root ctx
      → (approval_required name && not (may_run_side_effect ctx name)) ≡ false
      → Keeps I Anything (dispatch h ctx traj name args)
  unfolding dispatch append_synced
  dispatch-Keeps ctx traj name args d e = record {
    at = λ s i. dispatched-Holds (h.fault s.calls) ctx traj name args s d e i;
  }

  guarded-Keeps :
      (denied : Bool) (ctx : RunContext) (messages : List ChatMessage) (traj : Trajectory)
      (id name : String) (args : Value)
      → Descends root ctx
      → (denied ≡ false → (approval_required name && not (may_run_side_effect ctx name)) ≡ false)
      → P messages
      → Keeps I (Ready h root c) (guarded h denied ctx messages traj id name args)
  guarded-Keeps true ctx messages traj id name args d e p =
      Keeps-then I _ (event-Keeps h root c ctx _ name d)
        (λ _. Keeps-pure I _ (c.result_closed messages id name _ _ p))
  guarded-Keeps false ctx messages traj id name args d e p =
      Keeps-then I _ (dispatch-Keeps ctx traj name args d (e refl))
        (λ o. Keeps-pure I _ (c.result_closed messages id name _ _ p))

  call_by-Keeps :
      (sub : Bool) (spawn : Spawn h) (ctx : RunContext) (session : String)
      (messages : List ChatMessage) (traj : Trajectory) (id name : String) (args : Value)
      → Kept spawn
      → Descends root ctx
      → P messages
      → Keeps I (Ready h root c) (call_by h sub spawn ctx session messages traj id name args)
  unfolding subagent_call
  call_by-Keeps true spawn ctx session messages traj id name args k d p =
      Keeps-then I _ (subagent_result-Keeps _ spawn ctx session traj _ k d)
        (λ r. Keeps-pure I _ (c.result_closed messages id name _ _ p))
  call_by-Keeps false spawn ctx session messages traj id name args k d p =
      guarded-Keeps _ ctx messages traj id name args d (λ e. e) p

  react-Keeps :
      (spawn : Spawn h) (ctx : RunContext) (session : String) (messages : List ChatMessage)
      (traj : Trajectory) (action : ProviderAction Value)
      → Kept spawn
      → Descends root ctx
      → P messages
      → Keeps I (Ready h root c) (react h spawn ctx session messages traj action)
  unfolding call_tool
  react-Keeps spawn ctx session messages traj (text reply) k d p =
      finish-Keeps h root c ctx session traj reply d
  react-Keeps spawn ctx session messages traj (tool_call id name args) k d p =
      call_by-Keeps _ spawn ctx session messages _ id name args k d p

  proceed-Keeps :
      (rest : List ChatMessage → Trajectory → M Value World String) (p : Progress)
      → ((messages : List ChatMessage) (traj : Trajectory)
          → P messages
          → Keeps I Anything (rest messages traj))
      → Ready h root c p
      → Keeps I Anything (proceed h rest p)
  proceed-Keeps rest (answer reply) k p = Keeps-pure I reply tt
  proceed-Keeps rest (more messages traj) k p = k messages traj p

  pub loop-Keeps :
      (spawn : Spawn h) (ctx : RunContext) (session : String) (specs : List (ToolSpec Value))
      (left : ℕ) (messages : List ChatMessage) (traj : Trajectory)
      → Kept spawn
      → Descends root ctx
      → P messages
      → Keeps I Anything (loop h spawn ctx session specs left messages traj)
  unfolding loop step
  loop-Keeps spawn ctx session specs zero messages traj k d p = Keeps-pure I _ tt
  loop-Keeps spawn ctx session specs (suc left) messages traj k d p =
      Keeps-bind I (proceed h (loop h spawn ctx session specs left))
        (Keeps-then I _ (ask-Keeps h root c messages specs p)
          (λ action. react-Keeps spawn ctx session messages _ action k d p))
        (λ p' q.
          proceed-Keeps _ p' (λ ms t pm. loop-Keeps spawn ctx session specs left ms t k d pm) q)
