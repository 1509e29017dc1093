-- ===== src/Gateway.antt =====
-- secretagent/src/gateway.rs: the boundary to chat connectors, the firing of scheduled jobs and the
-- scheduler's tick. The connectors' networks and the parsers of JSON and cron texts are parameters.
pub mod Boundary
pub mod Tick
pub mod Construct
pub mod Daemon
pub mod Durable
mod Tests
use secretagent_rust_agent.Base.{
  ℕ, ◌+◌, String, Bool, true, false, List, [], ◌∷◌, Option, none, some, Outcome, ok, err, ◌==◌,
  find, format, unwrap_or, contains,
}
use secretagent_rust_agent.Text.Words.{decimal}
use secretagent_rust_agent.Principal.{RunContext, remote_run, audit_label}
use secretagent_rust_agent.Audit.{AuditEvent}
use secretagent_rust_agent.Memory.{Store, CronJob}
use secretagent_rust_agent.Memory.Cron.{due_jobs, mark_fired}
use secretagent_rust_agent.Agent.{Host}
use secretagent_rust_agent.Agent.Effects.{
  State, M, ◌>>=◌, ◌>>◌, pure, skip, fail, attempt, query, update, append_synced,
}
use secretagent_rust_agent.Agent.Run.{event}
use secretagent_rust_agent.Agent.Run.Tasks.{run_task}
use secretagent_rust_agent.Connectors.{InboundMsg, OutboundMsg}

-- `config::ConnectorConfig`, the operator's binding of a connector
pub record ConnectorConfig : Type 0 where
  pub name : String
  pub kind : String
  pub token_ref : Option String
  pub app_token_ref : Option String
  pub allow_senders : List String
  pub allow_tools : List String
  pub imap_host : Option String
  pub imap_port : Option ℕ
  pub smtp_host : Option String
  pub smtp_port : Option ℕ
  pub username : Option String
  pub from : Option String

-- `next_fire_unix(…).unwrap_or(now + 3600)`
abbrev pub next_run_after : ℕ → Outcome ℕ → ℕ
next_run_after now (ok next) = next
next_run_after now (err e) = now + 3600

module _ {Value World : Type 0} (h : Host Value World) where
  abbrev pub rejected : ConnectorConfig → InboundMsg → AuditEvent
  rejected binding msg = record {
    action = "connector.rejected";
    key_id = binding.name;
    principal = some (format ("remote:" ∷ binding.name ∷ ":" ∷ msg.sender ∷ []));
  }

  abbrev pub sender_context : ConnectorConfig → InboundMsg → RunContext
  sender_context binding msg = remote_run binding.name msg.sender binding.allow_tools

  -- A message of a sender who is allowed, or not.
  abbrev pub dispatch_if : Bool → ConnectorConfig → InboundMsg → M Value World (Option OutboundMsg)
  dispatch_if false binding msg = append_synced h (rejected binding msg) >> pure none
  dispatch_if true binding msg =
      append_synced h (event (sender_context binding msg) "connector.accepted" binding.name)
      >> run_task h (format (binding.name ∷ ":" ∷ msg.chat ∷ [])) msg.text
          (sender_context binding msg)
      >>= λ answer. pure (some (record { chat = msg.chat; text = answer }))

  unfoldable pub dispatch_inbound :
      ConnectorConfig → InboundMsg → M Value World (Option OutboundMsg)
  dispatch_inbound binding msg = dispatch_if (contains binding.allow_senders msg.sender) binding msg

  module _ (parse_tools : String → Option (List String))
      (send : String → OutboundMsg → World → Outcome (Unit {0}) × World)
      (construct : ConnectorConfig → Outcome (Option String))
      (next_fire_unix : String → ℕ → Outcome ℕ) where
    -- `connector.send`; a connector is known by a name.
    unfoldable pub deliver : String → OutboundMsg → M Value World (Unit {0})
    deliver connector out s = let r = send connector out s.world in (r.0, record s { world = r.1 })

    abbrev pub job_context : CronJob → RunContext
    job_context job =
        remote_run "cron" (decimal job.id) (unwrap_or (parse_tools job.allowed_tools) [])

    unfoldable pub fire_job : CronJob → String → M Value World (Unit {0})
    fire_job job connector =
        append_synced h (event (job_context job) "cron.fire" (decimal job.id))
        >> run_task h (format ("cron:" ∷ decimal job.id ∷ [])) job.action (job_context job)
        >>= λ answer. deliver connector (record { chat = job.target_chat; text = answer })

    abbrev pub fire_on : CronJob → Outcome (Option String) → M Value World (Unit {0})
    fire_on job (ok (some connector)) = attempt (fire_job job connector) >>= λ r. skip
    fire_on job (ok none) = skip
    fire_on job (err e) = skip

    -- A job is fired where its connector is bound and can be built; else it is skipped.
    abbrev pub try_fire : CronJob → Option ConnectorConfig → M Value World (Unit {0})
    try_fire job none = skip
    try_fire job (some binding) = fire_on job (construct binding)

    abbrev pub advance : ℕ → CronJob → Store → Outcome Store
    advance now job st =
        ok (mark_fired job.id now (next_run_after now (next_fire_unix job.cron_expr now)) st)

    -- The loop over the due jobs: the next run is advanced whatever became of the firing.
    unfoldable pub fire_all : List ConnectorConfig → ℕ → List CronJob → M Value World (Unit {0})
    fire_all bindings now [] = skip
    fire_all bindings now (job ∷ jobs) =
        try_fire job (find (λ (c : ConnectorConfig). c.name == job.target_connector) bindings)
        >> update h (advance now job)
        >> fire_all bindings now jobs

    unfoldable pub tick_scheduler : List ConnectorConfig → ℕ → M Value World (Unit {0})
    tick_scheduler bindings now = query h (due_jobs now) >>= λ jobs. fire_all bindings now jobs
