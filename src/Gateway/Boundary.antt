-- ===== src/Gateway/Boundary.antt =====
-- secretagent/src/gateway.rs: what a sender and a scheduled job may bring about.
use secretagent_rust_agent.Base.{
  ℕ, String, ◌≡◌, refl, Bool, true, false, List, [], ◌∷◌, Option, none, Outcome, ok, err, ◌⊎◌, inl,
  inr, All, Any, contains, unwrap_or, ◌∙◌,
}
use secretagent_rust_agent.Text.{bare_name}
use secretagent_rust_agent.Principal.{remote_run, may_persist}
use secretagent_rust_agent.Principal.Authority.{remote_grant_iff}
use secretagent_rust_agent.Policy.{approval_required}
use secretagent_rust_agent.Audit.{AuditEvent}
use secretagent_rust_agent.Memory.{Store, CronJob}
use secretagent_rust_agent.Agent.{Fault, fine, lost, unsynced, Host}
use secretagent_rust_agent.Agent.Effects.{
  Effect, audited, asked, dispatched, State, continue, pure, append_synced, appended,
}
use secretagent_rust_agent.Agent.Effects.Keeps.{
  Post, Anything, Keeps, Holds, Keeps-then, Keeps-pure,
}
use secretagent_rust_agent.Agent.Run.Tasks.{run_task}
use secretagent_rust_agent.Agent.Safety.Tools.{IsPermitted, dispatch-IsPermitted}
use secretagent_rust_agent.Agent.Safety.Memory.{remote_run_changes_messages_only}
use secretagent_rust_agent.Connectors.{InboundMsg, OutboundMsg}
use secretagent_rust_agent.Gateway.{
  ConnectorConfig, rejected, dispatch_if, dispatch_inbound, deliver, fire_job,
}

-- A dispatched tool needs no approval, or its bare name is one of the tools.
abbrev pub IsGranted : {Value : Type 0} → List String → Effect Value → Type 0
IsGranted tools (audited e) = Unit {0}
IsGranted tools (asked ms) = Unit {0}
IsGranted tools (dispatched name args) =
    (approval_required name ≡ false) ⊎ Any (λ t. t ≡ bare_name name) tools

-- Two stores differ in their messages at most.
abbrev pub SameButMessages : Store → Store → Type 0
SameButMessages st other =
    (st.skills ≡ other.skills)
    × (st.skill_versions ≡ other.skill_versions)
    × (st.user_model ≡ other.user_model)
    × (st.summaries ≡ other.summaries)
    × (st.cron_jobs ≡ other.cron_jobs)

remote_may_not_persist :
    (connector sender : String) (tools : List String)
    → may_persist (remote_run connector sender tools) ≡ false
unfolding may_persist
remote_may_not_persist connector sender tools = refl

module _ {Value : Type 0} (connector sender : String) (tools : List String) where
  granted-IsPermitted :
      (e : Effect Value) → IsGranted tools e → IsPermitted (remote_run connector sender tools) e
  granted-IsPermitted (audited e) g = tt
  granted-IsPermitted (asked ms) g = tt
  granted-IsPermitted (dispatched name args) (inl a) = inl a
  granted-IsPermitted (dispatched name args) (inr a) =
      inr ((remote_grant_iff connector sender tools name).1 a)

  permitted-IsGranted :
      (e : Effect Value) → IsPermitted (remote_run connector sender tools) e → IsGranted tools e
  permitted-IsGranted (audited e) g = tt
  permitted-IsGranted (asked ms) g = tt
  permitted-IsGranted (dispatched name args) (inl a) = inl a
  permitted-IsGranted (dispatched name args) (inr a) =
      inr ((remote_grant_iff connector sender tools name).0 a)

pub All-map :
    {A : Type 0} (P Q : A → Type 0) → ((a : A) → P a → Q a) → (xs : List A) → All P xs → All Q xs
All-map P Q f [] h = tt
All-map P Q f (x ∷ xs) h = (f x h.0, All-map P Q f xs h.1)

module _ {Value World : Type 0} (h : Host Value World) where
  -- A run for a remote principal keeps the trace within the grant, and the store but the messages.
  abbrev pub Confined : List String → State Value World → State Value World → Type 0
  Confined tools st s =
      (All (IsGranted tools) st.trace → All (IsGranted tools) s.trace)
      × SameButMessages s.store st.store

  appended-Holds :
      (tools : List String) (st : State Value World) (x : Fault) (e : AuditEvent)
      (s : State Value World)
      → Confined tools st s
      → Holds (Confined tools st) Anything (appended x e s)
  appended-Holds tools st fine e s c = (((λ a. (tt, c.0 a)), c.1), tt)
  appended-Holds tools st lost e s c = (c, tt)
  appended-Holds tools st unsynced e s c = (((λ a. (tt, c.0 a)), c.1), tt)

  append-Keeps :
      (tools : List String) (st : State Value World) (e : AuditEvent)
      → Keeps (Confined tools st) Anything (append_synced h e)
  unfolding append_synced
  append-Keeps tools st e = record { at = λ s c. appended-Holds tools st (h.fault s.calls) e s c }

  pub anything : {A : Type 0} (r : Outcome A) → Post Anything r
  anything (ok a) = tt
  anything (err e) = tt

  SameButMessages-trans :
      (a b c : Store) → SameButMessages a b → SameButMessages b c → SameButMessages a c
  SameButMessages-trans a b c (p, q, r, t, u) (p', q', r', t', u') =
      (p ∙ p', q ∙ q', r ∙ r', t ∙ t', u ∙ u')

  run-Keeps :
      (connector sender : String) (tools : List String) (st : State Value World)
      (session input : String)
      → Keeps
          (Confined tools st)
          Anything
          (run_task h session input (remote_run connector sender tools))
  run-Keeps connector sender tools st session input = record {
    at = λ s c. (
      (
        (λ a. All-map _ _ (permitted-IsGranted connector sender tools) _ (
            dispatch-IsPermitted h (remote_run connector sender tools) session input s
              (All-map _ _ (granted-IsPermitted connector sender tools) s.trace (c.0 a)))),
        SameButMessages-trans
            (run_task h session input (remote_run connector sender tools) s).1.store s.store
            st.store
            (remote_run_changes_messages_only h (remote_run connector sender tools) session input s
              (remote_may_not_persist connector sender tools))
            c.1,
      ),
      anything (run_task h session input (remote_run connector sender tools) s).0,
    );
  }

  start : (tools : List String) (s : State Value World) → Confined tools s s
  start tools s = ((λ a. a), (refl, refl, refl, refl, refl))

  dispatch_if-Keeps :
      (allowed : Bool) (binding : ConnectorConfig) (msg : InboundMsg) (st : State Value World)
      → Keeps (Confined binding.allow_tools st) Anything (dispatch_if h allowed binding msg)
  dispatch_if-Keeps false binding msg st =
      Keeps-then _ _ (append-Keeps binding.allow_tools st (rejected h binding msg))
        (λ _. Keeps-pure _ none tt)
  dispatch_if-Keeps true binding msg st =
      Keeps-then _ _
        (Keeps-then _ _ (append-Keeps binding.allow_tools st _)
          (λ _. run-Keeps binding.name msg.sender binding.allow_tools st _ msg.text))
        (λ answer. Keeps-pure _ _ tt)

  -- Whatever a sender writes, and whoever it is, the tools that are dispatched for the message and by
  -- its subagents need no approval or stand in the binding's list, if that held before; and the store
  -- is the same as before in all but the messages.
  pub sender_is_confined :
      (binding : ConnectorConfig) (msg : InboundMsg) (s : State Value World)
      → All (IsGranted binding.allow_tools) s.trace
      → All (IsGranted binding.allow_tools) (dispatch_inbound h binding msg s).1.trace
        × SameButMessages (dispatch_inbound h binding msg s).1.store s.store
  unfolding dispatch_inbound
  sender_is_confined binding msg s a =
      let c = ((dispatch_if-Keeps _ binding msg s).at s (start binding.allow_tools s)).0 in
      (c.0 a, c.1)

  pub dispatch_inbound-SameButMessages :
      (binding : ConnectorConfig) (msg : InboundMsg) (s : State Value World)
      → SameButMessages (dispatch_inbound h binding msg s).1.store s.store
  unfolding dispatch_inbound
  dispatch_inbound-SameButMessages binding msg s =
      ((dispatch_if-Keeps _ binding msg s).at s (start binding.allow_tools s)).0.1

  -- What a rejected message leaves: nothing, or its record in the log.
  abbrev pub Untouched :
      AuditEvent → State Value World → Outcome (Option OutboundMsg) × State Value World → Type 0
  Untouched e s r =
      (r.1.store ≡ s.store)
      × (r.1.world ≡ s.world)
      × ((r.1.trace ≡ s.trace) ⊎ (r.1.trace ≡ audited e ∷ s.trace))
      × Post (λ o. o ≡ none) r.0

  rejected-Untouched :
      (x : Fault) (e : AuditEvent) (s : State Value World)
      → Untouched e s (continue (λ _. pure none) (appended x e s))
  rejected-Untouched fine e s = (refl, refl, inr refl, refl)
  rejected-Untouched lost e s = (refl, refl, inl refl, tt)
  rejected-Untouched unsynced e s = (refl, refl, inr refl, tt)

  -- A message of a sender who is not on the binding's list is not answered and reaches neither the
  -- model, nor a tool, nor the store: at most its record is added to the log.
  pub dispatch_inbound-Untouched :
      (binding : ConnectorConfig) (msg : InboundMsg) (s : State Value World)
      → contains binding.allow_senders msg.sender ≡ false
      → Untouched (rejected h binding msg) s (dispatch_inbound h binding msg s)
  unfolding dispatch_inbound append_synced
  dispatch_inbound-Untouched binding msg s e =
      rw e (rejected-Untouched (h.fault s.calls) (rejected h binding msg) s)

  module _ (parse_tools : String → Option (List String))
      (send : String → OutboundMsg → World → Outcome (Unit {0}) × World)
      (construct : ConnectorConfig → Outcome (Option String))
      (next_fire_unix : String → ℕ → Outcome ℕ) where
    pub fire_job-Confined :
        (job : CronJob) (connector : String) (s : State Value World)
        → Confined
            (unwrap_or (parse_tools job.allowed_tools) [])
            s
            (fire_job h parse_tools send construct next_fire_unix job connector s).1
    unfolding fire_job deliver
    fire_job-Confined job connector s =
        let tools = unwrap_or (parse_tools job.allowed_tools) [] in
        ((Keeps-then (Confined tools s)
            (λ answer.
              deliver h parse_tools send construct next_fire_unix connector
                (record { chat = job.target_chat; text = answer }))
            (Keeps-then _ _ (append-Keeps tools s _) (λ _. run-Keeps "cron" _ tools s _ job.action))
            (λ answer. record { at = λ t c. (c, anything (send connector _ t.world).0) })).at
          s (start tools s)).0

    -- A scheduled job is confined to the tools that were stored with it, none if they do not parse, in
    -- the same way as a sender is to those of the binding.
    pub job_is_confined :
        (job : CronJob) (connector : String) (s : State Value World)
        → All (IsGranted (unwrap_or (parse_tools job.allowed_tools) [])) s.trace
        → All
            (IsGranted (unwrap_or (parse_tools job.allowed_tools) []))
            (fire_job h parse_tools send construct next_fire_unix job connector s).1.trace
          × SameButMessages
              (fire_job h parse_tools send construct next_fire_unix job connector s).1.store
              s.store
    job_is_confined job connector s a = let c = fire_job-Confined job connector s in (c.0 a, c.1)
