-- ===== src/Gateway/Tests.antt =====
-- secretagent/src/gateway.rs: a sample binding.
use secretagent_rust_agent.Base.{
  arith, ◌<◌, String, ◌≡◌, refl, true, false, List, [], ◌∷◌, Option, none, some, Outcome, ok, All,
  contains, ℕ, ◌+◌,
}
use secretagent_rust_agent.Memory.{CronJob, empty_store}
use secretagent_rust_agent.Memory.Cron.{due_jobs}
use secretagent_rust_agent.Agent.Effects.{State}
use secretagent_rust_agent.Schedule.{next_fire_unix}
use secretagent_rust_agent.Gateway.Tick.{tick-due_jobs}
use secretagent_rust_agent.Agent.Sample.{sample, start, delegating, Script}
use secretagent_rust_agent.Connectors.{InboundMsg, OutboundMsg}
use secretagent_rust_agent.Gateway.{
  ConnectorConfig, rejected, dispatch_inbound, fire_job, tick_scheduler,
}
use secretagent_rust_agent.Connectors.Received.{message, failed}
use secretagent_rust_agent.Gateway.Daemon.{Event, returned, timer, run_until}
use secretagent_rust_agent.Gateway.Durable.{SameMemory, gateway_keeps_memory}
use secretagent_rust_agent.Gateway.Boundary.{
  IsGranted, SameButMessages, Untouched, sender_is_confined, dispatch_inbound-Untouched,
  job_is_confined,
}

abbrev binding : ConnectorConfig
binding = record {
  name = "slack";
  kind = "slack";
  token_ref = none;
  app_token_ref = none;
  allow_senders = "U1" ∷ [];
  allow_tools = "read_file" ∷ [];
  imap_host = none;
  imap_port = none;
  smtp_host = none;
  smtp_port = none;
  username = none;
  from = none;
}

abbrev from_sender : String → InboundMsg
from_sender sender = record {
  connector = "slack";
  sender = sender;
  chat = "C1";
  text = "keep notes";
}

sender_is_confined_example :
    All
      (IsGranted ("read_file" ∷ []))
      (dispatch_inbound sample binding (from_sender "U1") (start delegating)).1.trace
    × SameButMessages
        (dispatch_inbound sample binding (from_sender "U1") (start delegating)).1.store
        (start delegating).store
sender_is_confined_example =
    sender_is_confined sample binding (from_sender "U1") (start delegating) tt

stranger_is_not_listed : contains ("U1" ∷ []) "U2" ≡ false
stranger_is_not_listed = refl

dispatch_inbound-Untouched_example :
    Untouched sample
      (rejected sample binding (from_sender "U2"))
      (start delegating)
      (dispatch_inbound sample binding (from_sender "U2") (start delegating))
dispatch_inbound-Untouched_example =
    dispatch_inbound-Untouched sample binding (from_sender "U2") (start delegating)
      stranger_is_not_listed

abbrev nightly : CronJob
nightly = record {
  id = 1;
  nl_spec = "every night";
  cron_expr = "0 3 * * *";
  action = "keep notes";
  target_connector = "slack";
  target_chat = "C1";
  allowed_tools = "[]";
  last_run = none;
  next_run = 100;
  enabled = true;
}

abbrev no_tools : String → Option (List String)
no_tools s = some []

abbrev sent : String → OutboundMsg → Script → Outcome (Unit {0}) × Script
sent connector out w = (ok tt, w)

abbrev built : ConnectorConfig → Outcome (Option String)
built c = ok (some c.name)

abbrev in_an_hour : String → ℕ → Outcome ℕ
in_an_hour expr now = ok (now + 3600)

job_is_confined_example :
    All
      (IsGranted [])
      (fire_job sample no_tools sent built in_an_hour nightly "slack" (start delegating)).1.trace
    × SameButMessages
        (fire_job sample no_tools sent built in_an_hour nightly "slack" (start delegating)).1.store
        (start delegating).store
job_is_confined_example =
    job_is_confined sample no_tools sent built in_an_hour nightly "slack" (start delegating) tt

-- A cron text of five fields is read as every hour.
abbrev hourly : Unit {0} → ℕ → ℕ → List ℕ
hourly c t ℕ.zero = []
hourly c t (ℕ.suc n) = (t + 3600) ∷ hourly c (t + 3600) n

abbrev every_hour : String → Option (Unit {0})
every_hour s = some tt

hourly-later : (c : Unit {0}) (t u n : ℕ) → t < u + 3600 → All (λ (x : ℕ). t < x) (hourly c u n)
hourly-later c t u ℕ.zero h = tt
hourly-later c t u (ℕ.suc n) h = (h, hourly-later c t (u + 3600) n (omega (arith, h)))

-- The sample store with the job, which is due at 200.
abbrev scheduled : State String Script
scheduled = record (start delegating) { store = record empty_store { cron_jobs = nightly ∷ [] } }

tick-due_jobs_example :
    due_jobs 200
      (tick_scheduler sample no_tools sent built
        (next_fire_unix every_hour hourly)
        (binding ∷ [])
        200
        scheduled).1.store
    ≡ []
tick-due_jobs_example =
    tick-due_jobs every_hour hourly sample no_tools sent built (binding ∷ []) 200 scheduled
      (λ n. refl) (λ c t n. hourly-later c t t n (omega arith))

abbrev day : List Event
day =
    returned binding (message (from_sender "U1"))
    ∷ timer 200
    ∷ returned binding (message (from_sender "U2"))
    ∷ returned binding (failed "socket")
    ∷ []

gateway_keeps_memory_example :
    SameMemory
      (run_until sample no_tools sent built in_an_hour (binding ∷ []) day scheduled).1.store
      scheduled.store
gateway_keeps_memory_example =
    gateway_keeps_memory sample no_tools sent built in_an_hour (binding ∷ []) day scheduled
