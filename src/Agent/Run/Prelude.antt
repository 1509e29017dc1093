-- ===== src/Agent/Run/Prelude.antt =====
-- crates/sa-core/src/lib.rs, the part of `Agent::run_task` before its loop: the tools that are
-- offered, the activation of the task's own skill, and the system message.
use secretagent_rust_agent.Base.{
  ℕ, zero, suc, ◌==◌, String, Bool, true, false, ◌&&◌, not, List, [], ◌∷◌, ◌++◌, Option, none, some,
}
use secretagent_rust_agent.Types.{Provenance, trusted, untrusted}
use secretagent_rust_agent.Principal.{RunContext, depth, may_auto_activate_skill, provenance}
use secretagent_rust_agent.Policy.{approval_required}
use secretagent_rust_agent.Memory.{Store, Skill, Preference}
use secretagent_rust_agent.Memory.Preferences.{preferences}
use secretagent_rust_agent.Memory.Skills.{
  ActiveSkill, get_skill_by_name, activate_skill, active_matching_skills,
}
use secretagent_rust_agent.Base.{ok, Outcome}
use secretagent_rust_agent.Tools.{Tool, get, names}
use secretagent_rust_agent.Agent.{max_tool_steps, ChatMessage, system, user, ToolSpec, Host}
use secretagent_rust_agent.Agent.Eval.{Trajectory, slug}
use secretagent_rust_agent.Agent.Context.{run_system, compose_system}
use secretagent_rust_agent.Agent.Effects.{M, ◌>>=◌, ◌>>◌, pure, skip, query, update, append_synced}
use secretagent_rust_agent.Agent.Learn.{new_message}
use secretagent_rust_agent.Agent.Run.{Spawn, event, loop}

abbrev pub subagent_description : String
subagent_description =
    "Delegate a self-contained sub-task to a fresh subagent that runs with authority no greater than yours (it cannot persist memory, cannot auto-approve, and inherits your tool permissions). Returns the subagent's final answer as data. Use it to break independent sub-tasks out of your own context."

abbrev pub is_trusted : Option Provenance → Bool
is_trusted none = false
is_trusted (some trusted) = true
is_trusted (some (untrusted source)) = false

-- `active.first().map(|s| s.name.clone())`
abbrev pub first_name : List ActiveSkill → Option String
first_name [] = none
first_name (s ∷ rest) = some s.name

-- The trajectory at the start of a task.
abbrev pub fresh : String → Option String → Trajectory
fresh task reused = record {
  task = task;
  tool_names = [];
  steps = 0;
  tool_errors = 0;
  denied = false;
  assistant_spans = [];
  answered = false;
  reused_skill = reused;
}

module _ {Value World : Type 0} (h : Host Value World) where
  abbrev pub spec_of : Tool Value World → ToolSpec Value
  spec_of t = record { name = t.name; description = t.description; parameters = t.parameters }

  -- The tools of the registry under the names it lists.
  abbrev pub specs_for : List String → List (ToolSpec Value)
  specs_for [] = []
  specs_for (n ∷ rest) = elim (get h.registry n) [
    | none ↦ specs_for rest
    | some t ↦ spec_of t ∷ specs_for rest
  ]

  -- The subagent is offered only while nesting budget remains.
  abbrev pub offered : ℕ → List (ToolSpec Value)
  offered zero = []
  offered (suc d) =
      record {
        name = "subagent";
        description = subagent_description;
        parameters = h.subagent_schema;
      }
      ∷ []

  unfoldable pub tool_specs : RunContext → List (ToolSpec Value)
  tool_specs ctx = specs_for (names h.registry) ++ offered (depth ctx)

  abbrev pub activated : String → Store → Outcome Store
  activated own st = ok (activate_skill own (h.provenance_json trusted) st).0

  -- `if ctx.may_auto_activate_skill() … else if approval_required("activate_skill") …`
  abbrev pub activate_by : Bool → Bool → RunContext → String → M Value World (Unit {0})
  activate_by true required ctx own =
      update h (activated own) >> append_synced h (event ctx "skill.activate" own)
  activate_by false true ctx own = append_synced h (event ctx "skill.activate.denied" own)
  activate_by false false ctx own = skip

  -- An active skill and a trusted one stay as they are.
  abbrev pub activate_unless : Bool → RunContext → String → M Value World (Unit {0})
  activate_unless true ctx own = skip
  activate_unless false ctx own =
      activate_by (may_auto_activate_skill ctx) (approval_required "activate_skill") ctx own

  abbrev pub activate_own : RunContext → String → Option Skill → M Value World (Unit {0})
  activate_own ctx own none = skip
  activate_own ctx own (some skill) =
      activate_unless
        (not (
          not (is_trusted (h.parse_provenance skill.provenance)) && not (skill.status == "active")))
        ctx own

  abbrev pub record_reuse : RunContext → Option String → M Value World (Unit {0})
  record_reuse ctx none = skip
  record_reuse ctx (some n) = append_synced h (event ctx "skill.reuse" n)

  -- The skill of exactly this task's name may be activated.
  unfoldable pub consider_own : RunContext → String → M Value World (Unit {0})
  consider_own ctx own = query h (get_skill_by_name own) >>= activate_own ctx own

  -- The active skills for the input, at most one, with the record of their reuse.
  unfoldable pub recall_active : RunContext → String → M Value World (List ActiveSkill)
  recall_active ctx input =
      query h (active_matching_skills h.is_alphanumeric h.match_skills input 1) >>= λ active.
      record_reuse ctx (first_name active) >> pure active

  -- The first messages of the task.
  abbrev pub opening : String → List Preference → List ActiveSkill → List ChatMessage
  opening input prefs active =
      system (compose_system run_system h.soul h.context prefs active) ∷ user input ∷ []

  -- One task, with the way its subagents run.
  unfoldable pub task : Spawn h → String → String → RunContext → M Value World String
  task spawn session input ctx =
      update h (new_message session "user" input (h.provenance_json (provenance ctx)))
      >> query h preferences
      >>= λ prefs.
          consider_own ctx (slug h.to_lowercase input) >> recall_active ctx input >>= λ active.
          loop h spawn ctx session (tool_specs ctx) max_tool_steps (opening input prefs active)
            (fresh input (first_name active))
