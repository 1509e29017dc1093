-- ===== src/Memory/Messages/Growth.antt =====
-- crates/sa-memory/src/lib.rs, `add_message`: the ids of the messages.
use secretagent_rust_agent.Base.{ℕ, ◌<◌, ◌≤◌, String, List, [], ◌∷◌, ◌++◌, All, arith}
use secretagent_rust_agent.Memory.{MessageRow, Store, max_of}
use secretagent_rust_agent.Memory.Messages.{add_message}

-- The ids of the rows grow.
abbrev pub Grows : List MessageRow → Type 0
Grows [] = Unit {0}
Grows (m ∷ rows) = All (λ (n : MessageRow). m.id < n.id) rows × Grows rows

abbrev row_id : MessageRow → ℕ
row_id m = m.id

max_of_tail :
    (m : MessageRow) (rows : List MessageRow) → max_of row_id rows ≤ max_of row_id (m ∷ rows)
max_of_tail m rows = ground arith

max_of_head : (m : MessageRow) (rows : List MessageRow) → m.id ≤ max_of row_id (m ∷ rows)
max_of_head m rows = ground arith

All-last :
    (k : ℕ) (rows : List MessageRow) (new : MessageRow)
    → k < new.id
    → All (λ (n : MessageRow). k < n.id) rows
    → All (λ (n : MessageRow). k < n.id) (rows ++ new ∷ [])
All-last k [] new h a = (h, tt)
All-last k (m ∷ rows) new h a = (a.0, All-last k rows new h a.1)

Grows-last :
    (rows : List MessageRow) (new : MessageRow)
    → max_of row_id rows < new.id
    → Grows rows
    → Grows (rows ++ new ∷ [])
Grows-last [] new h g = (tt, tt)
Grows-last (m ∷ rows) new h g = (
  All-last m.id rows new (omega (arith, max_of_head m rows, h)) g.0,
  Grows-last rows new (omega (arith, max_of_tail m rows, h)) g.1,
)

-- A new message keeps the ids of the messages growing.
pub add_message-Grows :
    (session role content prov : String) (st : Store)
    → Grows st.messages
    → Grows (add_message session role content prov st).0.messages
unfolding add_message
add_message-Grows session role content prov st g = Grows-last st.messages _ (omega arith) g
