-- ===== src/Tools.antt =====
-- crates/sa-tools/src/lib.rs: tools and their registry. A tool of the program is a name, its texts
-- and a function of its arguments, the policy and the outside world.
pub mod Builtin
pub mod Confined
pub mod Execution
pub mod Lookup
pub mod Mcp
pub mod OpTool
pub mod Html
pub mod Network
mod Tests
use Prim.Native.Nat.{Ordering}
use Prim.Native.String.{compare}
use secretagent_rust_agent.Base.{
  String, List, [], ◌∷◌, map, Option, none, some, Outcome, ◌==◌, if◌then◌else◌,
}
use secretagent_rust_agent.Policy.{Policy}

pub record Tool (Value World : Type 0) : Type 0 where
  pub name : String
  pub description : String
  pub parameters : Value
  pub run : Value → Policy → World → Outcome String × World

-- The `BTreeMap` by name, in the order of its keys.
pub record Registry (Value World : Type 0) : Type 0 where
  pub tools : List (String × Tool Value World)

module _ {Value World : Type 0} where
  unfoldable pub insert :
      String
      → Tool Value World
      → List (String × Tool Value World)
      → List (String × Tool Value World)
  insert k t [] = (k, t) ∷ []
  insert k t ((j, u) ∷ rest) =
      let later = insert k t rest in
      elim (compare k j) [
        | Ordering.lt ↦ (k, t) ∷ (j, u) ∷ rest
        | Ordering.eq ↦ (k, t) ∷ rest
        | Ordering.gt ↦ (j, u) ∷ later
      ]

  unfoldable pub lookup : String → List (String × Tool Value World) → Option (Tool Value World)
  lookup k [] = none
  lookup k ((j, u) ∷ rest) = if j == k then some u else lookup k rest

  unfoldable pub register : Registry Value World → Tool Value World → Registry Value World
  unfolding insert
  register r t = record { tools = insert t.name t r.tools }

  unfoldable pub get : Registry Value World → String → Option (Tool Value World)
  unfolding lookup
  get r name = lookup name r.tools

  unfoldable pub names : Registry Value World → List String
  names r = map (λ (e : String × Tool Value World). e.0) r.tools
