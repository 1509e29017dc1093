-- ===== src/Types.antt =====
-- crates/sa-core-types/src/types.rs and taint.rs: the provenance tag, and values that carry it.
-- `Tainted<T>` has no conversion to `T` but `as_data` and `detaint`; the compile-time part of that
-- boundary (no `Deref`) is the type of the record here.
use secretagent_rust_agent.Base.{String}

pub data Provenance : Type 0 where
  trusted : Provenance
  untrusted : String → Provenance

-- `types::Message`, a conversation message
pub record Message : Type 0 where
  pub role : String
  pub content : String
  pub provenance : Provenance

pub record ToolCall : Type 0 where
  pub tool : String
  pub input : String
  pub provenance : Provenance

pub record Tainted {ℓ} (T : Type ℓ) : Type ℓ where
  pub value : T
  pub provenance : Provenance

module _ {ℓ} {T : Type ℓ} where
  unfoldable pub taint : T → String → Tainted T
  taint value source = record { value = value; provenance = untrusted source }

  unfoldable pub trust : T → Tainted T
  trust value = record { value = value; provenance = trusted }

  unfoldable pub as_data : Tainted T → T
  as_data t = t.value

  -- The reason is an argument that callers must give; it does not change the value.
  unfoldable pub detaint : Tainted T → String → T
  detaint t _ = t.value
