-- ===== src/Gateway/Daemon.antt =====
-- secretagent/src/gateway.rs: the connectors' loops and the scheduler of a running gateway. A dispatch
-- holds the lock of the audit log, so dispatches come one after the other; a pass of the scheduler is
-- taken as one event here.
use secretagent_rust_agent.Base.{ℕ, String, List, [], ◌∷◌, Option, none, some, Outcome, ok, err}
use secretagent_rust_agent.Agent.{Host}
use secretagent_rust_agent.Agent.Effects.{M, ◌>>=◌, ◌>>◌, skip, attempt}
use secretagent_rust_agent.Connectors.{OutboundMsg}
use secretagent_rust_agent.Connectors.Received.{Received, message, failed, ended, waiting}
use secretagent_rust_agent.Gateway.{ConnectorConfig, dispatch_inbound, deliver, tick_scheduler}

-- What happens to the gateway: a connector's transport returns, or the scheduler's timer fires.
pub data Event : Type 0 where
  returned : ConnectorConfig → Received → Event
  timer : ℕ → Event

module _ {Value World : Type 0} (h : Host Value World) (parse_tools : String → Option (List String))
    (send : String → OutboundMsg → World → Outcome (Unit {0}) × World)
    (construct : ConnectorConfig → Outcome (Option String))
    (next_fire_unix : String → ℕ → Outcome ℕ) where
  -- The reply of a dispatch is sent; an error of it is logged.
  unfoldable pub reply : String → Outcome (Option OutboundMsg) → M Value World (Unit {0})
  unfolding deliver
  reply connector (ok (some out)) =
      attempt (deliver h parse_tools send construct next_fire_unix connector out) >>= λ r. skip
  reply connector (ok none) = skip
  reply connector (err e) = skip

  -- One turn of the loop of drive_connector.
  unfoldable pub drive : ConnectorConfig → Received → M Value World (Unit {0})
  unfolding reply dispatch_inbound
  drive binding (message msg) =
      attempt (dispatch_inbound h binding msg) >>= λ answer. reply binding.name answer
  drive binding (failed e) = skip
  drive binding ended = skip
  drive binding waiting = skip

  -- A pass of the scheduler that fails is logged.
  unfoldable pub step : List ConnectorConfig → Event → M Value World (Unit {0})
  unfolding drive tick_scheduler
  step bindings (returned binding r) = drive binding r
  step bindings (timer now) =
      attempt (tick_scheduler h parse_tools send construct next_fire_unix bindings now) >>= λ r.
      skip

  -- The gateway until it is shut down: its events, in the order in which they come.
  unfoldable pub run_until : List ConnectorConfig → List Event → M Value World (Unit {0})
  unfolding step
  run_until bindings [] = skip
  run_until bindings (e ∷ events) = step bindings e >> run_until bindings events
