-- ===== src/Providers.antt =====
-- crates/sa-providers/src: the clients of models. Their messages on the wire are values of Json, and
-- a response is what the server answers.
pub mod Anthropic
pub mod OpenAi
mod Tests
use Prim.Native.String.{◌++◌ as text_append}
use secretagent_rust_agent.Base.{String, List, [], ◌∷◌, Outcome, ok, err}

pub record ChatMsg : Type 0 where
  pub role : String
  pub content : String

-- The reply of a stream of chunks, each a text or the error that ends it.
unfoldable pub collected : String → List (Outcome String) → Outcome String
collected out [] = ok out
collected out (err e ∷ chunks) = err e
collected out (ok chunk ∷ chunks) = collected (text_append out chunk) chunks

unfoldable pub complete : Outcome (List (Outcome String)) → Outcome String
unfolding collected
complete (err e) = err e
complete (ok chunks) = collected "" chunks
