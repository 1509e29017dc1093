-- ===== src/Agent/Learn.antt =====
-- crates/sa-core/src/lib.rs, `Agent::learn_from_trajectory`: what an operator's finished task adds
-- to the skills.
use secretagent_rust_agent.Base.{
  ℕ, String, Bool, true, false, ◌&&◌, Option, none, some, Outcome, ok, err, leb, any,
}
use secretagent_rust_agent.Types.{untrusted}
use secretagent_rust_agent.Memory.{Store, Skill}
use secretagent_rust_agent.Memory.Messages.{add_message}
use secretagent_rust_agent.Memory.Skills.{get_skill_by_name, create_skill, record_skill_use}
use secretagent_rust_agent.Text.Words.{split_whitespace, filter_chars, char_count}
use secretagent_rust_agent.Audit.{AuditEvent}
use secretagent_rust_agent.Agent.{max_tool_steps, Host}
use secretagent_rust_agent.Agent.Eval.{
  Trajectory, EvalResult, SkillDraft, evaluate, build_skill_draft,
}
use secretagent_rust_agent.Agent.Effects.{M, ◌>>=◌, skip, attempt, query, update, append_synced}

-- The write of a message; the new rowid is not used.
abbrev pub new_message : String → String → String → String → Store → Outcome Store
new_message session role content prov st = ok (add_message session role content prov st).0

abbrev pub drop_rowid : Outcome (Store × ℕ) → Outcome Store
drop_rowid (ok (st, id)) = ok st
drop_rowid (err e) = err e

module _ {Value World : Type 0} (h : Host Value World) where
  -- Some word of the task has three alphanumerics.
  unfoldable pub is_recallable : String → Bool
  unfolding split_whitespace
  is_recallable task =
      any (λ w. leb 3 (char_count (filter_chars h.is_alphanumeric w))) (split_whitespace task)

  unfoldable pub create_draft : String → SkillDraft → EvalResult → Store → Outcome Store
  create_draft session draft result st = drop_rowid (
      create_skill draft.name draft.description draft.body
        (h.provenance_json (untrusted "self-authored")) session result.score st)

  abbrev pub created_event : SkillDraft → AuditEvent
  created_event draft = record {
    action = "skill.create";
    key_id = draft.name;
    principal = some "operator";
  }

  -- The record of a creation that went through. A refused body is no failure of the task.
  abbrev pub record_creation : SkillDraft → Outcome (Unit {0}) → M Value World (Unit {0})
  record_creation draft (ok u) = append_synced h (created_event draft)
  record_creation draft (err e) = skip

  abbrev pub learn_unless :
      Option Skill → String → SkillDraft → EvalResult → M Value World (Unit {0})
  learn_unless (some skill) session draft result = skip
  learn_unless none session draft result =
      attempt (update h (create_draft session draft result)) >>= record_creation draft

  -- A reuse is scored; a novel successful task that can be recalled makes a draft.
  abbrev pub learn_by :
      Option String → Bool → String → SkillDraft → EvalResult → M Value World (Unit {0})
  learn_by (some name) novel session draft result =
      attempt (update h (record_skill_use name draft.body result.score)) >>= λ _. skip
  learn_by none true session draft result =
      query h (get_skill_by_name draft.name) >>= λ old. learn_unless old session draft result
  learn_by none false session draft result = skip

  unfoldable pub learn_from_trajectory : String → Trajectory → M Value World (Unit {0})
  learn_from_trajectory session traj =
      let result = evaluate traj max_tool_steps in
      learn_by traj.reused_skill (result.success && is_recallable traj.task) session
        (build_skill_draft h.to_lowercase traj) result

  -- M2: only a run that may persist learns.
  abbrev pub learn_if : Bool → String → Trajectory → M Value World (Unit {0})
  learn_if true session traj = learn_from_trajectory session traj
  learn_if false session traj = skip
