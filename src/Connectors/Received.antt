-- ===== src/Connectors/Received.antt =====
-- crates/sa-connectors/src/lib.rs: what a call of `recv` returns, when the transport's answers are a
-- list: a message, an error, the end of the transport, or nothing yet.
use secretagent_rust_agent.Base.{String, List, [], ◌∷◌}
use secretagent_rust_agent.Connectors.{InboundMsg}

pub data Received : Type 0 where
  message : InboundMsg → Received
  failed : String → Received
  ended : Received
  waiting : Received

abbrev pub messages_of : Received → List InboundMsg
messages_of (message m) = m ∷ []
messages_of (failed e) = []
messages_of ended = []
messages_of waiting = []
