-- ===== src/Agent/Run/Keeping.antt =====
-- crates/sa-core/src/lib.rs, `Agent::run_task`: its actions, and what they keep of store and trace.
use secretagent_rust_agent.Base.{
  String, ◌≡◌, refl, Bool, true, false, List, ◌∷◌, Option, none, some, Outcome, ok, err,
}
use secretagent_rust_agent.Principal.{RunContext, may_persist}
use secretagent_rust_agent.Principal.Authority.{Descends}
use secretagent_rust_agent.Memory.{Store, Skill}
use secretagent_rust_agent.Memory.Skills.{get_skill_by_name, record_skill_use}
use secretagent_rust_agent.Audit.{AuditEvent}
use secretagent_rust_agent.Agent.{ChatMessage, ToolSpec, Fault, fine, lost, unsynced, Host}
use secretagent_rust_agent.Agent.Eval.{Trajectory, EvalResult, SkillDraft}
use secretagent_rust_agent.Agent.Effects.{
  Effect, audited, State, pure, skip, query, update, queried, updated, appended, committed,
  append_synced, ask,
}
use secretagent_rust_agent.Agent.Effects.Keeps.{
  Post, Anything, Holds, Keeps, Keeps-then, Keeps-attempt, Keeps-pure,
}
use secretagent_rust_agent.Agent.Learn.{
  new_message, create_draft, created_event, record_creation, learn_unless, learn_by,
  learn_from_trajectory, learn_if,
}
use secretagent_rust_agent.Agent.Run.{event, Progress, answer, more, finish}
use secretagent_rust_agent.Agent.Run.Closed.{Closed}

module _ {Value World : Type 0} (h : Host Value World) (root : RunContext)
    {J : Store → List (Effect Value) → Type 0} {P : List ChatMessage → Type 0}
    (c : Closed h root J P) where
  abbrev pub Inv : State Value World → Type 0
  Inv s = J s.store s.trace

  abbrev pub Ready : Progress → Type 0
  Ready (answer reply) = Unit {0}
  Ready (more messages traj) = P messages

  pub anything : {A : Type 0} (r : Outcome A) → Post Anything r
  anything (ok a) = tt
  anything (err e) = tt

  queried-Holds :
      {A : Type 0} (x : Fault) (f : Store → A) (s : State Value World)
      → Inv s
      → Holds Inv Anything (queried x f s)
  queried-Holds fine f s i = (i, tt)
  queried-Holds lost f s i = (i, tt)
  queried-Holds unsynced f s i = (i, tt)

  pub query-Keeps : {A : Type 0} (f : Store → A) → Keeps Inv Anything (query h f)
  unfolding query
  query-Keeps f = record { at = λ s i. queried-Holds (h.fault s.calls) f s i }

  -- What a query has read: a value of a store with the invariant.
  abbrev pub Read : {A : Type 0} → (Store → A) → A → Type 0
  Read f a = (st : Store) × (tr : List (Effect Value)) × J st tr × (a ≡ f st)

  queried-Read :
      {A : Type 0} (x : Fault) (f : Store → A) (s : State Value World)
      → Inv s
      → Holds Inv (Read f) (queried x f s)
  queried-Read fine f s i = (i, (s.store, s.trace, i, refl))
  queried-Read lost f s i = (i, tt)
  queried-Read unsynced f s i = (i, tt)

  pub query-Read : {A : Type 0} (f : Store → A) → Keeps Inv (Read f) (query h f)
  unfolding query
  query-Read f = record { at = λ s i. queried-Read (h.fault s.calls) f s i }

  committed-Holds :
      (r : Outcome Store) (s : State Value World)
      → Inv s
      → Post (λ st. J st s.trace) r
      → Holds Inv Anything (committed r s)
  committed-Holds (ok st) s i p = (p, tt)
  committed-Holds (err e) s i p = (i, tt)

  updated-Holds :
      (x : Fault) (f : Store → Outcome Store) (s : State Value World)
      → Inv s
      → Post (λ st. J st s.trace) (f s.store)
      → Holds Inv Anything (updated x f s)
  updated-Holds fine f s i p = committed-Holds (f s.store) s i p
  updated-Holds lost f s i p = (i, tt)
  updated-Holds unsynced f s i p = (i, tt)

  pub update-Keeps :
      (f : Store → Outcome Store)
      → ((st : Store) (tr : List (Effect Value)) → J st tr → Post (λ st'. J st' tr) (f st))
      → Keeps Inv Anything (update h f)
  unfolding update
  update-Keeps f k = record {
    at = λ s i. updated-Holds (h.fault s.calls) f s i (k s.store s.trace i);
  }

  appended-Holds :
      (x : Fault) (e : AuditEvent) (s : State Value World)
      → Inv s
      → J s.store (audited e ∷ s.trace)
      → Holds Inv Anything (appended x e s)
  appended-Holds fine e s i j = (j, tt)
  appended-Holds lost e s i j = (i, tt)
  appended-Holds unsynced e s i j = (j, tt)

  append-Keeps :
      (e : AuditEvent)
      → ((st : Store) (tr : List (Effect Value)) → J st tr → J st (audited e ∷ tr))
      → Keeps Inv Anything (append_synced h e)
  unfolding append_synced
  append-Keeps e k = record {
    at = λ s i. appended-Holds (h.fault s.calls) e s i (k s.store s.trace i);
  }

  pub ask-Keeps :
      (messages : List ChatMessage) (specs : List (ToolSpec Value))
      → P messages
      → Keeps Inv Anything (ask h messages specs)
  unfolding ask
  ask-Keeps messages specs p = record {
    at = λ s i.
        (c.ask_closed messages s.store s.trace p i, anything (h.act messages specs s.world).0);
  }

  pub event-Keeps :
      (ctx : RunContext) (action key : String)
      → Descends root ctx
      → Keeps Inv Anything (append_synced h (event ctx action key))
  event-Keeps ctx action key d =
      append-Keeps (event ctx action key) (λ st tr j. c.event_closed ctx action key st tr d j)

  pub message-Keeps :
      (session role content prov : String)
      → Keeps Inv Anything (update h (new_message session role content prov))
  message-Keeps session role content prov =
      update-Keeps (new_message session role content prov)
        (λ st tr j. c.message_closed session role content prov st tr j)

  -- learning
  creation-Keeps :
      (ctx : RunContext) (draft : SkillDraft) (r : Outcome (Unit {0}))
      → Descends root ctx
      → may_persist ctx ≡ true
      → Keeps Inv Anything (record_creation h draft r)
  creation-Keeps ctx draft (ok u) d m =
      append-Keeps (created_event h draft) (λ st tr j. c.created_closed ctx draft st tr d m j)
  creation-Keeps ctx draft (err e) d m = Keeps-pure Inv tt tt

  learn_unless-Keeps :
      (ctx : RunContext) (old : Option Skill) (session : String) (draft : SkillDraft)
      (result : EvalResult)
      → Descends root ctx
      → may_persist ctx ≡ true
      → Keeps Inv Anything (learn_unless h old session draft result)
  learn_unless-Keeps ctx (some old) session draft result d m = Keeps-pure Inv tt tt
  learn_unless-Keeps ctx none session draft result d m =
      Keeps-then Inv (record_creation h draft)
        (Keeps-attempt Inv (
          update-Keeps (create_draft h session draft result)
            (λ st tr j. c.create_closed ctx session draft result st tr d m j)))
        (λ r. creation-Keeps ctx draft r d m)

  learn_by-Keeps :
      (ctx : RunContext) (reused : Option String) (novel : Bool) (session : String)
      (draft : SkillDraft) (result : EvalResult)
      → Descends root ctx
      → may_persist ctx ≡ true
      → Keeps Inv Anything (learn_by h reused novel session draft result)
  learn_by-Keeps ctx (some name) novel session draft result d m =
      Keeps-then Inv (λ r. skip)
        (Keeps-attempt Inv (
          update-Keeps (record_skill_use name draft.body result.score)
            (λ st tr j. c.use_closed ctx name draft.body result.score st tr d m j)))
        (λ r. Keeps-pure Inv tt tt)
  learn_by-Keeps ctx none false session draft result d m = Keeps-pure Inv tt tt
  learn_by-Keeps ctx none true session draft result d m =
      Keeps-then Inv (λ old. learn_unless h old session draft result)
        (query-Keeps (get_skill_by_name draft.name))
        (λ old. learn_unless-Keeps ctx old session draft result d m)

  learn_if-Keeps :
      (ctx : RunContext) (persists : Bool) (session : String) (traj : Trajectory)
      → Descends root ctx
      → (persists ≡ true → may_persist ctx ≡ true)
      → Keeps Inv Anything (learn_if h persists session traj)
  unfolding learn_from_trajectory
  learn_if-Keeps ctx false session traj d m = Keeps-pure Inv tt tt
  learn_if-Keeps ctx true session traj d m =
      learn_by-Keeps ctx traj.reused_skill _ session _ _ d (m refl)

  pub finish-Keeps :
      (ctx : RunContext) (session : String) (traj : Trajectory) (reply : String)
      → Descends root ctx
      → Keeps Inv Ready (finish h ctx session traj reply)
  unfolding finish
  finish-Keeps ctx session traj reply d =
      Keeps-then Inv (λ _. pure (answer reply))
        (Keeps-then Inv (λ _. learn_if h (may_persist ctx) session _)
          (message-Keeps session "assistant" reply "{}")
          (λ _. learn_if-Keeps ctx (may_persist ctx) session _ d (λ e. e)))
        (λ _. Keeps-pure Inv (answer reply) tt)
