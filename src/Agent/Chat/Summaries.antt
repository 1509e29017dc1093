-- ===== src/Agent/Chat/Summaries.antt =====
-- crates/sa-core/src/lib.rs, `summarize_session`: the summaries of a session, one after the other.
use secretagent_rust_agent.Base.{
  ℕ, ◌≤◌, String, ◌≡◌, Bool, true, false, List, [], ◌∷◌, ◌++◌, Option, none, some, Outcome, ok, err,
  ◌⊎◌, filter, ◌==◌, if◌then◌else◌,
}
use secretagent_rust_agent.Memory.{Store, MessageRow, max_of}
use secretagent_rust_agent.Memory.Messages.{StoredMsg, all_messages, summary, set_summary}
use secretagent_rust_agent.Memory.Messages.Growth.{Grows}
use secretagent_rust_agent.Agent.{Host}
use secretagent_rust_agent.Agent.Learn.{new_message}
use secretagent_rust_agent.Agent.Effects.{State, update}
use secretagent_rust_agent.Agent.Chat.{ChatMsg, through_of, to_summarize, summarize_session}
use secretagent_rust_agent.Agent.Chat.Folded.{upto, row_id}

-- A message is stored (session, role, content, provenance), or a session is summarized.
pub data Step : Type 0 where
  said : String → String → String → String → Step
  summarized : String → Step

-- The messages that a call folded: those that it found, if it stored a summary of them.
abbrev pub folded_by : Outcome Bool → Option (List StoredMsg × ℕ) → List StoredMsg
folded_by (err e) found = []
folded_by (ok false) found = []
folded_by (ok true) none = []
folded_by (ok true) (some (older, watermark)) = older

module _ {Value World : Type 0} (h : Host Value World)
    (matches : String → List MessageRow → List MessageRow)
    (chat : List ChatMsg → Outcome (List (Outcome String))) (complete : String → Outcome String)
    (session : String) where
  -- The messages of the session that the summaries of these steps fold, in their order, and the state
  -- behind the steps. Every call of the store and of the model may fail.
  unfoldable pub fold_all : List Step → State Value World → List StoredMsg × State Value World
  unfolding update summarize_session to_summarize
  fold_all [] s = ([], s)
  fold_all (said other role content prov ∷ xs) s =
      fold_all xs (update h (new_message other role content prov) s).1
  fold_all (summarized other ∷ xs) s =
      let r = summarize_session h matches chat complete other s in
      let later = fold_all xs r.1 in
      (
        (if other == session then folded_by r.0 (to_summarize other s.store) else []) ++ later.0,
        later.1,
      )

  -- What has been folded are the messages up to the watermark, each once.
  record Covered (folded : List StoredMsg) (st : Store) : Type 0 where
    exact : folded ≡ filter (upto (through_of (summary session st))) (all_messages session st)
    grows : Grows st.messages
    low : through_of (summary session st) ≤ max_of row_id st.messages

  -- A call that stored a summary.
  record Wrote (other : String) (s : State Value World) (r : Outcome Bool × State Value World)
      : Type 0 where
    older : List StoredMsg
    watermark : ℕ
    text : String
    found : to_summarize other s.store ≡ some (older, watermark)
    folds : r.0 ≡ ok true
    writes : r.1.store ≡ set_summary other watermark text s.store

  -- A call that did nothing to the store and folded nothing.
  record Kept (s : State Value World) (r : Outcome Bool × State Value World) : Type 0 where
    nothing : (found : Option (List StoredMsg × ℕ)) → folded_by r.0 found ≡ []
    keeps : r.1.store ≡ s.store

  abbrev IsCase : String → State Value World → Outcome Bool × State Value World → Type 0
  IsCase other s r = Kept s r ⊎ Wrote other s r

  -- What the fold of one call adds.
  abbrev added : String → State Value World → Outcome Bool × State Value World → List StoredMsg
  added other s r = if other == session then folded_by r.0 (to_summarize other s.store) else []
