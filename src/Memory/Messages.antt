-- ===== src/Memory/Messages.antt =====
-- Messages and rolling summaries.
pub mod Growth
use secretagent_rust_agent.Base.{
  ℕ, String, List, [], ◌∷◌, ◌++◌, map, reverse, filter, take, Option, none, some, ◌==◌,
  if◌then◌else◌,
}
use secretagent_rust_agent.Memory.{MessageRow, Store, Summary, next_rowid}

pub record StoredMsg : Type 0 where
  pub id : ℕ
  pub role : String
  pub content : String

unfoldable pub add_message : String → String → String → String → Store → Store × ℕ
add_message session role content prov st =
    let id = next_rowid (λ (m : MessageRow). m.id) st.messages in
    (
      record st {
        messages =
            st.messages
            ++ record {
              id = id;
              session_id = session;
              role = role;
              content = content;
              provenance = prov;
            }
              ∷ [];
      },
      id,
    )

-- The columns that a query on `messages` selects.
abbrev pub stored : MessageRow → StoredMsg
stored m = record { id = m.id; role = m.role; content = m.content }

abbrev pub of_session : String → List MessageRow → List MessageRow
of_session session rows = filter (λ (m : MessageRow). m.session_id == session) rows

unfoldable pub all_messages : String → Store → List StoredMsg
all_messages session st = map stored (of_session session st.messages)

-- `ORDER BY id DESC LIMIT n`, then reversed.
unfoldable pub recent : String → ℕ → Store → List StoredMsg
recent session n st = reverse (take n (reverse (map stored (of_session session st.messages))))

-- `matches` is the full-text query: the rows that match, best first.
unfoldable pub recall :
    (String → List MessageRow → List MessageRow) → String → String → ℕ → Store → List StoredMsg
recall matches session query n st =
    map stored (take n (of_session session (matches query st.messages)))

unfoldable pub message_provenances : String → Store → List String
message_provenances session st =
    map (λ (m : MessageRow). m.provenance) (of_session session st.messages)

-- The summary of a session, if any; a write replaces it.
abbrev pub lookup_summary : String → List (String × Summary) → Option Summary
lookup_summary session [] = none
lookup_summary session ((s, v) ∷ rows) =
    if s == session then some v else lookup_summary session rows

abbrev pub put_summary : String → Summary → List (String × Summary) → List (String × Summary)
put_summary session v [] = (session, v) ∷ []
put_summary session v ((s, w) ∷ rows) =
    let rest = put_summary session v rows in if s == session then (s, v) ∷ rows else (s, w) ∷ rest

unfoldable pub summary : String → Store → Option Summary
summary session st = lookup_summary session st.summaries

unfoldable pub set_summary : String → ℕ → String → Store → Store
set_summary session through text st = record st {
  summaries = put_summary session (record { through_id = through; text = text }) st.summaries;
}
