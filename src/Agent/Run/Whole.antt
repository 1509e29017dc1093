-- ===== src/Agent/Run/Whole.antt =====
-- crates/sa-core/src/lib.rs, `Agent::run_task`: the part before the loop, and the whole run with its
-- subagents.
use secretagent_rust_agent.Base.{
  ℕ, zero, suc, String, ◌≡◌, refl, Bool, true, false, List, Option, none, some,
}
use secretagent_rust_agent.Principal.{RunContext, depth, may_auto_activate_skill}
use secretagent_rust_agent.Principal.Authority.{Descends, self}
use secretagent_rust_agent.Memory.{Store, Skill, Preference}
use secretagent_rust_agent.Memory.Skills.{ActiveSkill, active_matching_skills}
use secretagent_rust_agent.Agent.Eval.{slug}
use secretagent_rust_agent.Memory.Preferences.{preferences}
use secretagent_rust_agent.Agent.{max_tool_steps, ChatMessage, Host}
use secretagent_rust_agent.Agent.Effects.{Effect, State}
use secretagent_rust_agent.Agent.Effects.Keeps.{Anything, Keeps, Keeps-bind, Keeps-then, Keeps-pure}
use secretagent_rust_agent.Agent.Run.{Spawn}
use secretagent_rust_agent.Agent.Run.Prelude.{
  activated, activate_by, activate_unless, activate_own, record_reuse, first_name, consider_own,
  opening, recall_active, task,
}
use secretagent_rust_agent.Agent.Run.Tasks.{no_spawn, run_at, run_task}
use secretagent_rust_agent.Agent.Run.Closed.{Closed}
use secretagent_rust_agent.Agent.Run.Keeping.{
  query-Keeps, Read, query-Read, event-Keeps, message-Keeps, update-Keeps,
}
use secretagent_rust_agent.Agent.Run.Calls.{I, Kept, loop-Keeps}

module _ {Value World : Type 0} (h : Host Value World) (root : RunContext)
    {J : Store → List (Effect Value) → Type 0} {P : List ChatMessage → Type 0}
    (c : Closed h root J P) where
  abbrev Inv' : State Value World → Type 0
  Inv' = I h root c

  activate_by-Keeps :
      (may required : Bool) (ctx : RunContext) (input : String)
      → Descends root ctx
      → (may ≡ true → may_auto_activate_skill ctx ≡ true)
      → Keeps Inv' Anything (activate_by h may required ctx (slug h.to_lowercase input))
  activate_by-Keeps true required ctx input d m =
      Keeps-then Inv' _
        (update-Keeps h root c (activated h (slug h.to_lowercase input))
          (λ st tr j. c.activate_closed ctx input st tr d (m refl) j))
        (λ _. event-Keeps h root c ctx _ (slug h.to_lowercase input) d)
  activate_by-Keeps false true ctx input d m =
      event-Keeps h root c ctx _ (slug h.to_lowercase input) d
  activate_by-Keeps false false ctx input d m = Keeps-pure Inv' tt tt

  activate_unless-Keeps :
      (settled : Bool) (ctx : RunContext) (input : String)
      → Descends root ctx
      → Keeps Inv' Anything (activate_unless h settled ctx (slug h.to_lowercase input))
  activate_unless-Keeps true ctx input d = Keeps-pure Inv' tt tt
  activate_unless-Keeps false ctx input d = activate_by-Keeps _ _ ctx input d (λ e. e)

  activate_own-Keeps :
      (ctx : RunContext) (input : String) (skill : Option Skill)
      → Descends root ctx
      → Keeps Inv' Anything (activate_own h ctx (slug h.to_lowercase input) skill)
  activate_own-Keeps ctx input none d = Keeps-pure Inv' tt tt
  activate_own-Keeps ctx input (some skill) d = activate_unless-Keeps _ ctx input d

  consider_own-Keeps :
      (ctx : RunContext) (input : String)
      → Descends root ctx
      → Keeps Inv' Anything (consider_own h ctx (slug h.to_lowercase input))
  unfolding consider_own
  consider_own-Keeps ctx input d =
      Keeps-then Inv' _ (query-Keeps h root c _) (λ skill. activate_own-Keeps ctx input skill d)

  record_reuse-Keeps :
      (ctx : RunContext) (reused : Option String)
      → Descends root ctx
      → Keeps Inv' Anything (record_reuse h ctx reused)
  record_reuse-Keeps ctx none d = Keeps-pure Inv' tt tt
  record_reuse-Keeps ctx (some n) d = event-Keeps h root c ctx _ n d

  abbrev skills_for : String → Store → List ActiveSkill
  skills_for input = active_matching_skills h.is_alphanumeric h.match_skills input 1

  opening-lem :
      (input : String) (prefs : List Preference) (active : List ActiveSkill)
      → Read h root c preferences prefs
      → Read h root c (skills_for input) active
      → P (opening h input prefs active)
  opening-lem input prefs active (told, tr, j, e) (used, tr', j', e') =
      rw (e, e') (c.opening_closed input told used tr tr' j j')

  recall_active-Keeps :
      (ctx : RunContext) (input : String)
      → Descends root ctx
      → Keeps Inv' (Read h root c (skills_for input)) (recall_active h ctx input)
  unfolding recall_active
  recall_active-Keeps ctx input d =
      Keeps-bind Inv' _ (query-Read h root c (skills_for input)) (λ active read.
        Keeps-then Inv' _ (record_reuse-Keeps ctx (first_name active) d)
          (λ _. Keeps-pure Inv' active read))

  task-Keeps :
      (spawn : Spawn h) (session input : String) (ctx : RunContext)
      → Kept h root c spawn
      → Descends root ctx
      → Keeps Inv' Anything (task h spawn session input ctx)
  unfolding task
  task-Keeps spawn session input ctx k d =
      Keeps-bind Inv' _
        (Keeps-then Inv' _ (message-Keeps h root c session "user" input _)
          (λ _. query-Read h root c preferences))
        (λ prefs told.
          Keeps-bind Inv' _
            (Keeps-then Inv' _ (consider_own-Keeps ctx input d)
              (λ _. recall_active-Keeps ctx input d))
            (λ active used.
              loop-Keeps h root c spawn ctx session _ max_tool_steps _ _ k d
                (opening-lem input prefs active told used)))

  run_at-Keeps :
      (fuel : ℕ) (session input : String) (ctx : RunContext)
      → Descends root ctx
      → Keeps Inv' Anything (run_at h fuel session input ctx)
  unfolding run_at
  run_at-Keeps zero session input ctx d =
      task-Keeps (no_spawn h) session input ctx (λ s i c' d'. record { at = λ st j. (j, tt) }) d
  run_at-Keeps (suc fuel) session input ctx d =
      task-Keeps (run_at h fuel) session input ctx (run_at-Keeps fuel) d

  pub run_task-keeps :
      (session input : String) (s : State Value World)
      → J s.store s.trace
      → J (run_task h session input root s).1.store (run_task h session input root s).1.trace
  unfolding run_task
  run_task-keeps session input s j = ((run_at-Keeps (depth root) session input root self).at s j).0
