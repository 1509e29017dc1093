-- ===== src/Gateway/Durable.antt =====
-- secretagent/src/gateway.rs: what a gateway leaves of the agent's memory, over all its events.
use secretagent_rust_agent.Base.{
  ℕ, String, ◌≡◌, refl, ◌∙◌, List, [], ◌∷◌, Option, none, some, Outcome, ok, err, find, ◌==◌,
}
use secretagent_rust_agent.Memory.{Store, CronJob}
use secretagent_rust_agent.Memory.Cron.{due_jobs, mark_fired}
use secretagent_rust_agent.Agent.{Host, Fault, fine, lost, unsynced}
use secretagent_rust_agent.Agent.Effects.{State, query, update, queried, updated}
use secretagent_rust_agent.Agent.Effects.Keeps.{Anything, Holds, Keeps, Keeps-then, Keeps-attempt}
use secretagent_rust_agent.Connectors.{InboundMsg, OutboundMsg}
use secretagent_rust_agent.Connectors.Received.{Received, message, failed, ended, waiting}
use secretagent_rust_agent.Gateway.{
  ConnectorConfig, dispatch_inbound, deliver, fire_job, fire_on, try_fire, advance, fire_all,
  tick_scheduler,
}
use secretagent_rust_agent.Gateway.Boundary.{
  SameButMessages, dispatch_inbound-SameButMessages, fire_job-Confined, anything,
}
use secretagent_rust_agent.Gateway.Daemon.{Event, returned, timer, reply, drive, step, run_until}

-- Skills, their versions, preferences and summaries are the same.
abbrev pub SameMemory : Store → Store → Type 0
SameMemory st other =
    (st.skills ≡ other.skills)
    × (st.skill_versions ≡ other.skill_versions)
    × (st.user_model ≡ other.user_model)
    × (st.summaries ≡ other.summaries)

SameMemory-after : (a b c : Store) → SameButMessages a b → SameMemory b c → SameMemory a c
SameMemory-after a b c (p, q, r, t, u) (p', q', r', t') = (p ∙ p', q ∙ q', r ∙ r', t ∙ t')

module _ {Value World : Type 0} (h : Host Value World) (parse_tools : String → Option (List String))
    (send : String → OutboundMsg → World → Outcome (Unit {0}) × World)
    (construct : ConnectorConfig → Outcome (Option String))
    (next_fire_unix : String → ℕ → Outcome ℕ) (st : Store) where
  abbrev Same : State Value World → Type 0
  Same s = SameMemory s.store st

  skip-Keeps : Keeps Same Anything (λ s. (ok tt, s))
  skip-Keeps = record { at = λ s i. (i, tt) }

  deliver-Keeps :
      (connector : String) (out : OutboundMsg)
      → Keeps Same Anything (deliver h parse_tools send construct next_fire_unix connector out)
  unfolding deliver
  deliver-Keeps connector out = record {
    at = λ s i. (i, anything h (send connector out s.world).0);
  }

  dispatch-Keeps :
      (binding : ConnectorConfig) (msg : InboundMsg)
      → Keeps Same Anything (dispatch_inbound h binding msg)
  dispatch-Keeps binding msg = record {
    at = λ s i. (
      SameMemory-after (dispatch_inbound h binding msg s).1.store s.store st
          (dispatch_inbound-SameButMessages h binding msg s) i,
      anything h (dispatch_inbound h binding msg s).0,
    );
  }

  fire_job-Keeps :
      (job : CronJob) (connector : String)
      → Keeps Same Anything (fire_job h parse_tools send construct next_fire_unix job connector)
  fire_job-Keeps job connector = record {
    at = λ s i. (
      SameMemory-after
          (fire_job h parse_tools send construct next_fire_unix job connector s).1.store s.store st
          (fire_job-Confined h parse_tools send construct next_fire_unix job connector s).1 i,
      anything h (fire_job h parse_tools send construct next_fire_unix job connector s).0,
    );
  }

  reply-Keeps :
      (connector : String) (o : Outcome (Option OutboundMsg))
      → Keeps Same Anything (reply h parse_tools send construct next_fire_unix connector o)
  unfolding reply
  reply-Keeps connector (ok (some out)) =
      Keeps-then Same _ (Keeps-attempt Same (deliver-Keeps connector out)) (λ r. skip-Keeps)
  reply-Keeps connector (ok none) = skip-Keeps
  reply-Keeps connector (err e) = skip-Keeps

  drive-Keeps :
      (binding : ConnectorConfig) (r : Received)
      → Keeps Same Anything (drive h parse_tools send construct next_fire_unix binding r)
  unfolding drive
  drive-Keeps binding (message msg) =
      Keeps-then Same _ (Keeps-attempt Same (dispatch-Keeps binding msg)) (reply-Keeps binding.name)
  drive-Keeps binding (failed e) = skip-Keeps
  drive-Keeps binding ended = skip-Keeps
  drive-Keeps binding waiting = skip-Keeps

  fire_on-Keeps :
      (job : CronJob) (o : Outcome (Option String))
      → Keeps Same Anything (fire_on h parse_tools send construct next_fire_unix job o)
  fire_on-Keeps job (ok (some connector)) =
      Keeps-then Same _ (Keeps-attempt Same (fire_job-Keeps job connector)) (λ r. skip-Keeps)
  fire_on-Keeps job (ok none) = skip-Keeps
  fire_on-Keeps job (err e) = skip-Keeps

  try_fire-Keeps :
      (job : CronJob) (o : Option ConnectorConfig)
      → Keeps Same Anything (try_fire h parse_tools send construct next_fire_unix job o)
  try_fire-Keeps job none = skip-Keeps
  try_fire-Keeps job (some binding) = fire_on-Keeps job (construct binding)

  updated-Same :
      (now : ℕ) (job : CronJob) (x : Fault) (s : State Value World)
      → Same s
      → Holds Same Anything
          (updated x (advance h parse_tools send construct next_fire_unix now job) s)
  unfolding mark_fired
  updated-Same now job fine s i = (i, tt)
  updated-Same now job lost s i = (i, tt)
  updated-Same now job unsynced s i = (i, tt)

  fire_all-Keeps :
      (bindings : List ConnectorConfig) (now : ℕ) (jobs : List CronJob)
      → Keeps Same Anything (fire_all h parse_tools send construct next_fire_unix bindings now jobs)
  unfolding fire_all update
  fire_all-Keeps bindings now [] = skip-Keeps
  fire_all-Keeps bindings now (job ∷ jobs) =
      Keeps-then Same _
        (Keeps-then Same _
          (try_fire-Keeps job
            (find (λ (c : ConnectorConfig). c.name == job.target_connector) bindings))
          (λ u. record { at = λ s i. updated-Same now job (h.fault s.calls) s i }))
        (λ u. fire_all-Keeps bindings now jobs)

  queried-Same :
      (now : ℕ) (x : Fault) (s : State Value World)
      → Same s
      → Holds Same Anything (queried x (due_jobs now) s)
  queried-Same now fine s i = (i, tt)
  queried-Same now lost s i = (i, tt)
  queried-Same now unsynced s i = (i, tt)

  step-Keeps :
      (bindings : List ConnectorConfig) (e : Event)
      → Keeps Same Anything (step h parse_tools send construct next_fire_unix bindings e)
  unfolding step tick_scheduler query
  step-Keeps bindings (returned binding r) = drive-Keeps binding r
  step-Keeps bindings (timer now) =
      Keeps-then Same _
        (Keeps-attempt Same (
          Keeps-then Same _ (record { at = λ s i. queried-Same now (h.fault s.calls) s i })
            (fire_all-Keeps bindings now)))
        (λ r. skip-Keeps)

  run_until-Keeps :
      (bindings : List ConnectorConfig) (events : List Event)
      → Keeps Same Anything (run_until h parse_tools send construct next_fire_unix bindings events)
  unfolding run_until
  run_until-Keeps bindings [] = skip-Keeps
  run_until-Keeps bindings (e ∷ events) =
      Keeps-then Same _ (step-Keeps bindings e) (λ u. run_until-Keeps bindings events)

-- Whatever messages the connectors bring, whoever sends them, and whatever jobs fall due, in any
-- order and with any failures: the gateway leaves the skills, their versions, the preferences and the
-- summaries as they were.
pub gateway_keeps_memory :
    {Value World : Type 0} (h : Host Value World) (parse_tools : String → Option (List String))
    (send : String → OutboundMsg → World → Outcome (Unit {0}) × World)
    (construct : ConnectorConfig → Outcome (Option String))
    (next_fire_unix : String → ℕ → Outcome ℕ) (bindings : List ConnectorConfig)
    (events : List Event) (s : State Value World)
    → SameMemory
        (run_until h parse_tools send construct next_fire_unix bindings events s).1.store
        s.store
gateway_keeps_memory h parse_tools send construct next_fire_unix bindings events s =
    ((run_until-Keeps h parse_tools send construct next_fire_unix s.store bindings events).at s
      (refl, refl, refl, refl)).0
