-- ===== src/Agent/Run/Recursion.antt =====
-- crates/sa-core/src/lib.rs, `Agent::run_task`: the run on fuel and the recursion of the source.
use secretagent_rust_agent.Base.{
  ℕ, zero, suc, String, ◌≡◌, ◌≢◌, refl, ap, ◌∙◌, Bool, true, false, ◌||◌, List, Outcome, ok, err,
  nat_eq, arith,
}
use secretagent_rust_agent.Principal.{RunContext, depth, subagent_of, provenance}
use secretagent_rust_agent.Memory.Preferences.{preferences}
use secretagent_rust_agent.Agent.{
  max_tool_steps, ChatMessage, ToolSpec, ProviderAction, text, tool_call, Host,
}
use secretagent_rust_agent.Agent.Eval.{Trajectory, slug}
use secretagent_rust_agent.Agent.Effects.{
  State, M, continue, ◌>>=◌, ◌>>◌, pure, attempt, query, update, append_synced, ask,
}
use secretagent_rust_agent.Agent.Run.{
  Progress, answer, more, Spawn, shown, subagent_result, subagent_call, call_by, call_tool, react,
  step, proceed, loop,
}
use secretagent_rust_agent.Agent.Run.Prelude.{
  task, consider_own, recall_active, tool_specs, opening, fresh, first_name,
}
use secretagent_rust_agent.Agent.Learn.{new_message}
use secretagent_rust_agent.Agent.Run.Tasks.{no_spawn, run_at, run_task}

module _ {Value World : Type 0} where
  -- Two actions with the same result and effects from every state.
  record Same {A : Type 0} (m n : M Value World A) : Type 0 where
    at : (s : State Value World) → m s ≡ n s

  continue-Same :
      {A B : Type 0} (f g : A → M Value World B) (r : Outcome A × State Value World)
      → ((a : A) → Same (f a) (g a))
      → continue f r ≡ continue g r
  continue-Same f g (ok a, s) k = (k a).at s
  continue-Same f g (err e, s) k = refl

  >>=-Same :
      {A B : Type 0} {m n : M Value World A} (f g : A → M Value World B)
      → Same m n
      → ((a : A) → Same (f a) (g a))
      → Same (m >>= f) (n >>= g)
  >>=-Same {n = n} f g e k = record {
    at = λ s. ap (continue f) (e.at s) ∙ continue-Same f g (n s) k;
  }

  same : {A : Type 0} (m : M Value World A) → Same m m
  same m = record { at = λ s. refl }

  attempt-Same : {A : Type 0} {m n : M Value World A} → Same m n → Same (attempt m) (attempt n)
  attempt-Same e = record { at = λ s. ap (λ r. (ok r.0, r.1)) (e.at s) }

module _ {Value World : Type 0} (h : Host Value World) where
  -- The subagents that a context with budget can start run alike.
  abbrev Agree : RunContext → Spawn h → Spawn h → Type 0
  Agree ctx spawn other =
      depth ctx ≢ 0
      → (session input : String)
      → Same (spawn session input (subagent_of ctx)) (other session input (subagent_of ctx))

  subagent_result-Same :
      (denied : Bool) (spawn other : Spawn h) (ctx : RunContext) (session : String)
      (traj : Trajectory) (input : String)
      → (denied ≡ false → depth ctx ≢ 0)
      → Agree ctx spawn other
      → Same
          (subagent_result h denied spawn ctx session traj input)
          (subagent_result h denied other ctx session traj input)
  subagent_result-Same true spawn other ctx session traj input d a = same _
  subagent_result-Same false spawn other ctx session traj input d a =
      >>=-Same (λ r. pure (shown h r)) (λ r. pure (shown h r))
        (>>=-Same (λ _. attempt (spawn _ input (subagent_of ctx)))
          (λ _. attempt (other _ input (subagent_of ctx))) (same (append_synced h _))
          (λ _. attempt-Same (a (d refl) _ input)))
        (λ r. same (pure (shown h r)))

  budget_lem : (d : ℕ) (b : Bool) → (nat_eq d 0 || b) ≡ false → d ≢ 0
  budget_lem d b e = ground arith

  call_by-Same :
      (sub : Bool) (spawn other : Spawn h) (ctx : RunContext) (session : String)
      (messages : List ChatMessage) (traj : Trajectory) (id name : String) (args : Value)
      → Agree ctx spawn other
      → Same
          (call_by h sub spawn ctx session messages traj id name args)
          (call_by h sub other ctx session messages traj id name args)
  unfolding subagent_call
  call_by-Same true spawn other ctx session messages traj id name args a =
      >>=-Same _ _
        (subagent_result-Same _ spawn other ctx session traj _ (budget_lem (depth ctx) _) a)
        (λ r. same _)
  call_by-Same false spawn other ctx session messages traj id name args a = same _

  react-Same :
      (spawn other : Spawn h) (ctx : RunContext) (session : String) (messages : List ChatMessage)
      (traj : Trajectory) (action : ProviderAction Value)
      → Agree ctx spawn other
      → Same
          (react h spawn ctx session messages traj action)
          (react h other ctx session messages traj action)
  unfolding call_tool
  react-Same spawn other ctx session messages traj (text reply) a = same _
  react-Same spawn other ctx session messages traj (tool_call id name args) a =
      call_by-Same _ spawn other ctx session messages _ id name args a

  proceed-Same :
      (rest other : List ChatMessage → Trajectory → M Value World String) (p : Progress)
      → ((messages : List ChatMessage) (traj : Trajectory)
          → Same (rest messages traj) (other messages traj))
      → Same (proceed h rest p) (proceed h other p)
  proceed-Same rest other (answer reply) k = same _
  proceed-Same rest other (more messages traj) k = k messages traj

  loop-Same :
      (spawn other : Spawn h) (ctx : RunContext) (session : String) (specs : List (ToolSpec Value))
      (left : ℕ) (messages : List ChatMessage) (traj : Trajectory)
      → Agree ctx spawn other
      → Same
          (loop h spawn ctx session specs left messages traj)
          (loop h other ctx session specs left messages traj)
  unfolding loop step
  loop-Same spawn other ctx session specs zero messages traj a = same _
  loop-Same spawn other ctx session specs (suc left) messages traj a =
      >>=-Same (proceed h (loop h spawn ctx session specs left))
        (proceed h (loop h other ctx session specs left))
        (>>=-Same _ _ (same (ask h messages specs))
          (λ action. react-Same spawn other ctx session messages _ action a))
        (λ p. proceed-Same _ _ p (λ ms t. loop-Same spawn other ctx session specs left ms t a))

  task-Same :
      (spawn other : Spawn h) (session input : String) (ctx : RunContext)
      → Agree ctx spawn other
      → Same (task h spawn session input ctx) (task h other session input ctx)
  unfolding task
  task-Same spawn other session input ctx a =
      >>=-Same _ _
        (same (
          update h (new_message session "user" input (h.provenance_json (provenance ctx)))
          >> query h preferences))
        (λ prefs.
          >>=-Same _ _
            (same (consider_own h ctx (slug h.to_lowercase input) >> recall_active h ctx input))
            (λ active.
              loop-Same spawn other ctx session (tool_specs h ctx) max_tool_steps
                (opening h input prefs active) (fresh input (first_name active)) a))

  run_at-budget :
      (fuel : ℕ) (session input : String) (ctx : RunContext)
      → depth ctx ≡ fuel
      → Same (run_at h fuel session input ctx) (task h (run_task h) session input ctx)
  unfolding run_at run_task
  run_at-budget zero session input ctx e =
      task-Same (no_spawn h) (run_task h) session input ctx (λ n. absurd (n e))
  run_at-budget (suc fuel) session input ctx e =
      task-Same (run_at h fuel) (run_task h) session input ctx
        (λ n s t. record { at = λ st. ap (λ d. run_at h d s t (subagent_of ctx) st) (omega arith) })

  -- A run is the task whose subagents are runs themselves, as in the source: the fuel of the nesting
  -- budget is enough for every context, and no subagent is ever cut off by it.
  pub run_task_recursion :
      (session input : String) (ctx : RunContext) (s : State Value World)
      → run_task h session input ctx s ≡ task h (run_task h) session input ctx s
  unfolding run_task
  run_task_recursion session input ctx s = (run_at-budget (depth ctx) session input ctx refl).at s
