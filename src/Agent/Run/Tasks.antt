-- ===== src/Agent/Run/Tasks.antt =====
-- crates/sa-core/src/lib.rs, `Agent::run_task` with its recursion: a subagent runs as a task of its
-- own. The fuel is the nesting budget.
use secretagent_rust_agent.Base.{ℕ, zero, suc}
use secretagent_rust_agent.Principal.{depth}
use secretagent_rust_agent.Agent.{Host}
use secretagent_rust_agent.Agent.Effects.{fail}
use secretagent_rust_agent.Agent.Run.{Spawn}
use secretagent_rust_agent.Agent.Run.Prelude.{task}

module _ {Value World : Type 0} (h : Host Value World) where
  -- Where the budget is 0 no subagent runs.
  abbrev pub no_spawn : Spawn h
  no_spawn session input ctx = fail "no nesting budget"

  unfoldable pub run_at : ℕ → Spawn h
  run_at zero session input ctx = task h no_spawn session input ctx
  run_at (suc d) session input ctx = task h (run_at d) session input ctx

  unfoldable pub run_task : Spawn h
  run_task session input ctx = run_at (depth ctx) session input ctx
