-- ===== src/Agent/Run.antt =====
-- crates/sa-core/src/lib.rs, `Agent::run_task`: the loop of a task and
-- its subagents. A subagent re-enters the loop; the nesting budget of the context bounds how deep.
pub mod Tasks
pub mod Prelude
pub mod Closed
pub mod Keeping
pub mod Calls
pub mod Whole
pub mod Recursion
use secretagent_rust_agent.Base.{
  ℕ, zero, suc, ◌+◌, String, Bool, true, false, ◌&&◌, ◌||◌, not, List, [], ◌∷◌, ◌++◌, Option, none,
  some, Outcome, ok, err, ◌==◌, nat_eq, leb, any, if◌then◌else◌, format, unwrap_or,
}
use secretagent_rust_agent.Types.{Provenance, trusted, untrusted, Tainted, taint, as_data}
use secretagent_rust_agent.Principal.{
  RunContext, depth, subagent_of, may_run_side_effect, may_auto_activate_skill, may_persist,
  provenance, audit_label,
}
use secretagent_rust_agent.Policy.{approval_required}
use secretagent_rust_agent.Memory.{Store, Skill}
use secretagent_rust_agent.Memory.Messages.{add_message}
use secretagent_rust_agent.Memory.Skills.{get_skill_by_name, create_skill, record_skill_use}
use secretagent_rust_agent.Text.Words.{
  is_empty, trim, split_whitespace, filter_chars, char_count, decimal,
}
use secretagent_rust_agent.Audit.{AuditEvent}
use secretagent_rust_agent.Tools.{Tool, get}
use secretagent_rust_agent.Agent.{
  max_tool_steps, ChatMessage, assistant_call, tool, ToolSpec, ProviderAction, text, tool_call,
  Host,
}
use secretagent_rust_agent.Agent.Eval.{
  Trajectory, EvalResult, SkillDraft, evaluate, build_skill_draft,
}
use secretagent_rust_agent.Agent.Effects.{
  State, M, ◌>>=◌, ◌>>◌, pure, skip, fail, attempt, query, update, append_synced, ask, run_tool,
}
use secretagent_rust_agent.Agent.Learn.{new_message, learn_if}

abbrev pub event : RunContext → String → String → AuditEvent
event ctx action key = record { action = action; key_id = key; principal = some (audit_label ctx) }

-- How one step of the loop ends.
pub data Progress : Type 0 where
  answer : String → Progress
  more : List ChatMessage → Trajectory → Progress

module _ {Value World : Type 0} (h : Host Value World) where
  -- The model's answer: it is stored, and an operator's run learns from the task.
  unfoldable pub finish : RunContext → String → Trajectory → String → M Value World Progress
  finish ctx session traj reply =
      let done = record traj {
        answered = true;
        assistant_spans = traj.assistant_spans ++ reply ∷ [];
      } in
      update h (new_message session "assistant" reply "{}")
      >> learn_if h (may_persist ctx) session done
      >> pure (answer reply)

  -- The call and its result as the model will see them: the result is tainted, and is shown as data.
  abbrev pub with_result :
      List ChatMessage → String → String → Value → Tainted String → List ChatMessage
  with_result messages id name args result =
      messages ++ assistant_call id name (h.dump args) ∷ tool id (as_data result) ∷ []

  abbrev pub task_of : Value → String
  task_of args = elim (h.get args "task") [ none ↦ "" | some v ↦ trim (unwrap_or (h.as_str v) "") ]

  abbrev pub shown : Outcome String → String
  shown (ok a) = a
  shown (err e) = format ("[subagent error: " ∷ e ∷ "]" ∷ [])

  -- A run of a subagent: session, task, context.
  abbrev pub Spawn : Type 0
  Spawn = String → String → RunContext → M Value World String

  -- A call of the subagent that is allowed or denied.
  abbrev pub subagent_result :
      Bool → Spawn → RunContext → String → Trajectory → String → M Value World String
  subagent_result true spawn ctx session traj task =
      append_synced h (event ctx "subagent.denied" "subagent")
      >> pure "[subagent denied: depth limit reached or empty task]"
  subagent_result false spawn ctx session traj task =
      append_synced h (event ctx "subagent.spawn" (audit_label (subagent_of ctx)))
      >> attempt
          (spawn (format (session ∷ "::sub." ∷ decimal traj.steps ∷ [])) task (subagent_of ctx))
      >>= λ r. pure (shown r)

  unfoldable pub subagent_call :
      Spawn → RunContext → String → Trajectory → Value → M Value World String
  subagent_call spawn ctx session traj args =
      let task = task_of args in
      subagent_result (nat_eq (depth ctx) 0 || is_empty task) spawn ctx session traj task

  -- The output of a tool, whose errors are counted where they occur.
  abbrev pub counted : Trajectory → Outcome String → M Value World (String × Trajectory)
  counted traj (ok o) = pure (o, traj)
  counted traj (err e) =
      pure (
        format ("[tool error: " ∷ e ∷ "]" ∷ []),
        record traj { tool_errors = traj.tool_errors + 1 },
      )

  abbrev pub output_of :
      Option (Tool Value World) → Trajectory → String → Value → M Value World (String × Trajectory)
  output_of none traj name args = pure (
    format ("[unknown tool: " ∷ name ∷ "]" ∷ []),
    record traj { tool_errors = traj.tool_errors + 1 },
  )
  output_of (some t) traj name args = attempt (run_tool h t name args) >>= counted traj

  -- The record of the call is synced before the tool runs.
  unfoldable pub dispatch :
      RunContext → Trajectory → String → Value → M Value World (String × Trajectory)
  dispatch ctx traj name args =
      append_synced h (event ctx (format ("tool." ∷ name ∷ [])) name)
      >> output_of (get h.registry name) traj name args

  -- A call that is denied, or goes through.
  abbrev pub guarded :
      Bool
      → RunContext
      → List ChatMessage
      → Trajectory
      → String
      → String
      → Value
      → M Value World Progress
  guarded true ctx messages traj id name args =
      append_synced h (event ctx "tool.denied" name)
      >> pure (
          more
            (messages
              ++ assistant_call id name (h.dump args)
                ∷ tool id
                    (format ("[denied: " ∷ name ∷ " requires approval; re-run with --yes]" ∷ []))
                ∷ [])
            (record traj { denied = true }))
  guarded false ctx messages traj id name args = dispatch ctx traj name args >>= λ o.
      pure (more (with_result messages id name args (taint o.0 name)) o.1)

  -- A call of a tool by the model: of the subagent, or of any other tool.
  abbrev pub call_by :
      Bool
      → Spawn
      → RunContext
      → String
      → List ChatMessage
      → Trajectory
      → String
      → String
      → Value
      → M Value World Progress
  call_by true spawn ctx session messages traj id name args =
      subagent_call spawn ctx session traj args >>= λ r.
      pure (more (with_result messages id name args (taint r "subagent")) traj)
  call_by false spawn ctx session messages traj id name args =
      guarded (approval_required name && not (may_run_side_effect ctx name)) ctx messages traj id
        name args

  unfoldable pub call_tool :
      Spawn
      → RunContext
      → String
      → List ChatMessage
      → Trajectory
      → String
      → String
      → Value
      → M Value World Progress
  call_tool spawn ctx session messages traj id name args =
      call_by (name == "subagent") spawn ctx session messages
        (record traj { tool_names = traj.tool_names ++ name ∷ [] }) id name args

  -- What the loop does with the model's action.
  abbrev pub react :
      Spawn
      → RunContext
      → String
      → List ChatMessage
      → Trajectory
      → ProviderAction Value
      → M Value World Progress
  react spawn ctx session messages traj (text reply) = finish ctx session traj reply
  react spawn ctx session messages traj (tool_call id name args) =
      call_tool spawn ctx session messages traj id name args

  unfoldable pub step :
      Spawn
      → RunContext
      → String
      → List (ToolSpec Value)
      → List ChatMessage
      → Trajectory
      → M Value World Progress
  step spawn ctx session specs messages traj =
      ask h messages specs
      >>= react spawn ctx session messages (record traj { steps = traj.steps + 1 })

  -- A step ends the task, or the loop goes on.
  abbrev pub proceed :
      (List ChatMessage → Trajectory → M Value World String) → Progress → M Value World String
  proceed rest (answer reply) = pure reply
  proceed rest (more messages traj) = rest messages traj

  -- The loop, with the steps that are left.
  unfoldable pub loop :
      Spawn
      → RunContext
      → String
      → List (ToolSpec Value)
      → ℕ
      → List ChatMessage
      → Trajectory
      → M Value World String
  loop spawn ctx session specs zero messages traj = pure "[tool-step limit reached]"
  loop spawn ctx session specs (suc left) messages traj =
      step spawn ctx session specs messages traj >>= proceed (loop spawn ctx session specs left)
