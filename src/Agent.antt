-- ===== src/Agent.antt =====
-- crates/sa-core/src/lib.rs: the agent. What the program does not implement, the model, the tools'
-- effects, JSON, full-text search, Unicode tables and the success of I/O, is a `Host`.
pub mod Eval
pub mod Context
pub mod Effects
pub mod Learn
pub mod Run
pub mod Safety
pub mod Chat
pub mod Sample
mod Tests
use Prim.Native.Char.{Char}
use secretagent_rust_agent.Base.{ℕ, String, Bool, List, Option, Outcome}
use secretagent_rust_agent.Types.{Provenance}
use secretagent_rust_agent.Policy.{Policy}
use secretagent_rust_agent.Memory.{Skill}
use secretagent_rust_agent.Tools.{Registry}

-- `MAX_TOOL_STEPS`: calls of the model in one task
abbrev pub max_tool_steps : ℕ
max_tool_steps = 8

-- A message of the conversation with the model, a constructor for each `json!` that builds one.
pub data ChatMessage : Type 0 where
  system : String → ChatMessage
  user : String → ChatMessage
  assistant_call : String → String → String → ChatMessage
  tool : String → String → ChatMessage

pub record ToolSpec (Value : Type 0) : Type 0 where
  pub name : String
  pub description : String
  pub parameters : Value

pub data ProviderAction (Value : Type 0) : Type 0 where
  text : String → ProviderAction Value
  tool_call : String → String → Value → ProviderAction Value

-- How a call of the database or of the log ends: well, with an error and no effect, or, for the log,
-- with an error behind a record that was written and not synced.
pub data Fault : Type 0 where
  fine lost unsynced : Fault

pub record Host (Value World : Type 0) : Type 0 where
  pub get : Value → String → Option Value
  pub as_str : Value → Option String
  pub dump : Value → String
  pub subagent_schema : Value
  pub act :
      List ChatMessage → List (ToolSpec Value) → World → Outcome (ProviderAction Value) × World
  pub registry : Registry Value World
  pub policy : Policy
  pub fault : ℕ → Fault
  pub provenance_json : Provenance → String
  pub parse_provenance : String → Option Provenance
  pub match_skills : String → List Skill → List Skill
  pub is_alphanumeric : Char → Bool
  pub to_lowercase : Char → String
  pub soul : String
  pub context : String
