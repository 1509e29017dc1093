-- ===== src/Agent/Safety/Memory.antt =====
-- crates/sa-core/src/lib.rs, `Agent::run_task`: what a run may change in the store (M1 and M2).
use secretagent_rust_agent.Base.{ℕ, String, ◌≡◌, refl, true, false, ◌∙◌, All-append}
use secretagent_rust_agent.Types.{trusted}
use secretagent_rust_agent.Principal.{RunContext, may_auto_activate_skill, may_persist}
use secretagent_rust_agent.Principal.Authority.{Descends, self, child, trust_profile}
use secretagent_rust_agent.Memory.{Store}
use secretagent_rust_agent.Memory.Messages.{add_message}
use secretagent_rust_agent.Memory.Skills.{record_skill_use, activate_skill}
use secretagent_rust_agent.Memory.Skills.Laws.{
  create_skill_cases, record_skill_use_cases, live, live-draft, live-use, HasNoSecrets, All-use,
  All-activate,
}
use secretagent_rust_agent.Agent.{Host}
use secretagent_rust_agent.Agent.Eval.{SkillDraft, EvalResult}
use secretagent_rust_agent.Agent.Effects.{State}
use secretagent_rust_agent.Agent.Effects.Keeps.{Post}
use secretagent_rust_agent.Agent.Learn.{create_draft, drop_rowid}
use secretagent_rust_agent.Agent.Run.Closed.{Closed}
use secretagent_rust_agent.Agent.Run.Tasks.{run_task}
use secretagent_rust_agent.Agent.Run.Whole.{run_task-keeps}
use secretagent_rust_agent.Agent.Safety.Tools.{AnyMessages, Descends-persist}

pub Descends-activate :
    (root ctx : RunContext)
    → Descends root ctx
    → may_auto_activate_skill root ≡ false
    → may_auto_activate_skill ctx ≡ true
    → ⊥
unfolding may_auto_activate_skill
Descends-activate root ctx self n m = cc
Descends-activate root ctx (child d) n m = cc

module _ {Value World : Type 0} (h : Host Value World) (root : RunContext) where
  -- What the statements of a run must keep of a predicate of the store alone.
  pub record Stored (S : Store → Type 0) : Type 1 where
    pub said :
        (session role content prov : String) (st : Store)
        → S st
        → S (add_message session role content prov st).0
    pub activates :
        (ctx : RunContext) (own : String) (st : Store)
        → Descends root ctx
        → may_auto_activate_skill ctx ≡ true
        → S st
        → S (activate_skill own (h.provenance_json trusted) st).0
    pub creates :
        (ctx : RunContext) (session : String) (draft : SkillDraft) (result : EvalResult)
        (st : Store)
        → Descends root ctx
        → may_persist ctx ≡ true
        → S st
        → Post S (create_draft h session draft result st)
    pub uses :
        (ctx : RunContext) (name body : String) (score : ℕ) (st : Store)
        → Descends root ctx
        → may_persist ctx ≡ true
        → S st
        → Post S (record_skill_use name body score st)

  Stored-Closed : {S : Store → Type 0} → Stored S → Closed h root (λ st _. S st) AnyMessages
  Stored-Closed t = record {
    message_closed = λ session role content prov st tr j. t.said session role content prov st j;
    activate_closed = λ ctx input st tr d m j. t.activates ctx _ st d m j;
    create_closed =
        λ ctx session draft result st tr d m j. t.creates ctx session draft result st d m j;
    use_closed = λ ctx name body score st tr d m j. t.uses ctx name body score st d m j;
    created_closed = λ ctx draft st tr d m j. j;
    event_closed = λ ctx action key st tr d j. j;
    ask_closed = λ messages st tr p j. j;
    dispatch_closed = λ ctx name args st tr d e j. j;
    opening_closed = λ input told used tr tr' j j'. tt;
    result_closed = λ messages id name echo content p. tt;
  }

  -- A whole run keeps it.
  run_task-stored :
      (S : Store → Type 0) (session input : String) (s : State Value World)
      → Stored S
      → S s.store
      → S (run_task h session input root s).1.store
  run_task-stored S session input s t i =
      run_task-keeps h root (Stored-Closed {S = S} t) session input s i

  -- A run whose context may not persist, and its subagents, change nothing in the store but the
  -- messages: skills, their versions, preferences, summaries and scheduled jobs are as before.
  pub remote_run_changes_messages_only :
      (session input : String) (s : State Value World)
      → may_persist root ≡ false
      → ((run_task h session input root s).1.store.skills ≡ s.store.skills)
        × ((run_task h session input root s).1.store.skill_versions ≡ s.store.skill_versions)
        × ((run_task h session input root s).1.store.user_model ≡ s.store.user_model)
        × ((run_task h session input root s).1.store.summaries ≡ s.store.summaries)
        × ((run_task h session input root s).1.store.cron_jobs ≡ s.store.cron_jobs)
  unfolding add_message
  remote_run_changes_messages_only session input s n =
      run_task-stored
        (λ st.
          (st.skills ≡ s.store.skills)
          × (st.skill_versions ≡ s.store.skill_versions)
          × (st.user_model ≡ s.store.user_model)
          × (st.summaries ≡ s.store.summaries)
          × (st.cron_jobs ≡ s.store.cron_jobs))
        session input s
        (record {
          said = λ session' role content prov st j. j;
          activates = λ ctx own st d m j.
              absurd (Descends-persist root ctx d n ((trust_profile ctx).1 m).0);
          creates = λ ctx session' draft result st d m j. absurd (Descends-persist root ctx d n m);
          uses = λ ctx name body score st d m j. absurd (Descends-persist root ctx d n m);
        })
        (refl, refl, refl, refl, refl)

  -- A run without the operator's standing approval activates no skill, nor do its subagents: the
  -- names and bodies of the active skills are the same after it, in the same order.
  pub no_activation_without_approval :
      (session input : String) (s : State Value World)
      → may_auto_activate_skill root ≡ false
      → live (run_task h session input root s).1.store.skills ≡ live s.store.skills
  unfolding add_message create_draft
  no_activation_without_approval session input s n =
      run_task-stored (λ st. live st.skills ≡ live s.store.skills) session input s
        (record {
          said = λ session' role content prov st j. j;
          activates = λ ctx own st d m j. absurd (Descends-activate root ctx d n m);
          creates = λ ctx session' draft result st d m j.
              create_skill_cases
                (λ r. Post (λ st'. live st'.skills ≡ live s.store.skills) (drop_rowid r)) draft.name
                draft.description draft.body _ session' result.score st (λ e. tt)
                (λ ns nn. live-draft st.skills _ _ _ _ _ _ _ ∙ j);
          uses = λ ctx name body score st d m j.
              record_skill_use_cases (Post (λ st'. live st'.skills ≡ live s.store.skills)) name body
                score st (λ e. tt) (λ sk ns g. live-use sk.id score st.skills ∙ j);
        })
        refl

  -- No run, of whatever context, brings a body that looks like a secret into the skills or their
  -- versions: if the store has none before, it has none after.
  pub run_stores_no_secret :
      (session input : String) (s : State Value World)
      → HasNoSecrets s.store
      → HasNoSecrets (run_task h session input root s).1.store
  unfolding add_message create_draft activate_skill
  run_stores_no_secret session input s i =
      run_task-stored HasNoSecrets session input s
        (record {
          said = λ session' role content prov st j. j;
          activates = λ ctx own st d m j. (All-activate own _ st.skills j.0, j.1);
          creates = λ ctx session' draft result st d m j.
              create_skill_cases (λ r. Post HasNoSecrets (drop_rowid r)) draft.name
                draft.description draft.body _ session' result.score st (λ e. tt)
                (λ ns nn. (
                  All-append _ st.skills _ j.0 (ns, tt),
                  All-append _ st.skill_versions _ j.1 (ns, tt),
                ));
          uses = λ ctx name body score st d m j.
              record_skill_use_cases (Post HasNoSecrets) name body score st (λ e. tt)
                (λ sk ns g. (
                  All-use sk.id score st.skills j.0,
                  All-append _ st.skill_versions _ j.1 (ns, tt),
                ));
        })
        i
