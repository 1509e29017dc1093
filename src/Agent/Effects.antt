-- ===== src/Agent/Effects.antt =====
-- The state of a run and its effects. A run that fails keeps the effects before the failure.
pub mod Keeps
use secretagent_rust_agent.Base.{
  ℕ, suc, String, Option, none, some, List, [], ◌∷◌, Outcome, ok, err,
}
use secretagent_rust_agent.Audit.{AuditEvent}
use secretagent_rust_agent.Memory.{Store}
use secretagent_rust_agent.Tools.{Tool}
use secretagent_rust_agent.Agent.{
  ChatMessage, ToolSpec, ProviderAction, Fault, fine, lost, unsynced, Host,
}

-- What a run does to the outside, apart from the store.
pub data Effect (Value : Type 0) : Type 0 where
  audited : AuditEvent → Effect Value
  asked : List ChatMessage → Effect Value
  dispatched : String → Value → Effect Value

-- The trace has its last effect first; `calls` counts the calls that may fail.
pub record State (Value World : Type 0) : Type 0 where
  pub store : Store
  pub trace : List (Effect Value)
  pub calls : ℕ
  pub world : World

abbrev pub M : Type 0 → Type 0 → Type 0 → Type 0
M Value World A = State Value World → Outcome A × State Value World

-- What a bind does with an outcome and the state that comes with it: `?` of the source.
abbrev pub continue :
    {Value World A B : Type 0}
    → (A → M Value World B)
    → Outcome A × State Value World
    → Outcome B × State Value World
continue f (ok a, s) = f a s
continue f (err e, s) = (err e, s)

infixl 5 ◌>>=◌ ◌>>◌
abbrev pub ◌>>=◌ :
    {Value World A B : Type 0} → M Value World A → (A → M Value World B) → M Value World B
◌>>=◌ m f s = continue f (m s)

abbrev pub ◌>>◌ :
    {Value World B : Type 0} → M Value World (Unit {0}) → M Value World B → M Value World B
m >> k = m >>= λ _. k

abbrev pub pure : {Value World A : Type 0} → A → M Value World A
pure a s = (ok a, s)

abbrev pub skip : {Value World : Type 0} → M Value World (Unit {0})
skip s = (ok tt, s)

abbrev pub fail : {Value World A : Type 0} → String → M Value World A
fail e s = (err e, s)

-- A result that the source inspects instead of passing an error on.
abbrev pub attempt : {Value World A : Type 0} → M Value World A → M Value World (Outcome A)
attempt m s = let r = m s in (ok r.0, r.1)

abbrev pub tick : {Value World : Type 0} → State Value World → State Value World
tick s = record s { calls = suc s.calls }

abbrev pub push : {Value World : Type 0} → Effect Value → State Value World → State Value World
push e s = record s { trace = e ∷ s.trace }

-- How a statement that was run changes the state.
abbrev pub committed :
    {Value World : Type 0}
    → Outcome Store
    → State Value World
    → Outcome (Unit {0}) × State Value World
committed (ok st) s = (ok tt, tick (record s { store = st }))
committed (err e) s = (err e, tick s)

-- What a call does by its fault.
abbrev pub queried :
    {Value World A : Type 0}
    → Fault
    → (Store → A)
    → State Value World
    → Outcome A × State Value World
queried fine f s = (ok (f s.store), tick s)
queried lost f s = (err "database error", tick s)
queried unsynced f s = (err "database error", tick s)

abbrev pub updated :
    {Value World : Type 0}
    → Fault
    → (Store → Outcome Store)
    → State Value World
    → Outcome (Unit {0}) × State Value World
updated fine f s = committed (f s.store) s
updated lost f s = (err "database error", tick s)
updated unsynced f s = (err "database error", tick s)

abbrev pub appended :
    {Value World : Type 0}
    → Fault
    → AuditEvent
    → State Value World
    → Outcome (Unit {0}) × State Value World
appended fine e s = (ok tt, tick (push (audited e) s))
appended lost e s = (err "write failed", tick s)
appended unsynced e s = (err "sync failed", tick (push (audited e) s))

module _ {Value World : Type 0} (h : Host Value World) where
  -- A query of the store; the result may be an error of the query itself.
  unfoldable pub query : {A : Type 0} → (Store → A) → M Value World A
  query f s = queried (h.fault s.calls) f s

  -- A statement that changes the store.
  unfoldable pub update : (Store → Outcome Store) → M Value World (Unit {0})
  update f s = updated (h.fault s.calls) f s

  -- `audit.append_synced`
  unfoldable pub append_synced : AuditEvent → M Value World (Unit {0})
  append_synced e s = appended (h.fault s.calls) e s

  -- `provider.act`
  unfoldable pub ask :
      List ChatMessage → List (ToolSpec Value) → M Value World (ProviderAction Value)
  ask messages specs s =
      let r = h.act messages specs s.world in
      (r.0, record s { trace = asked messages ∷ s.trace; world = r.1 })

  -- `tool.run`
  unfoldable pub run_tool : Tool Value World → String → Value → M Value World String
  run_tool t name args s =
      let r = t.run args h.policy s.world in
      (r.0, record s { trace = dispatched name args ∷ s.trace; world = r.1 })
