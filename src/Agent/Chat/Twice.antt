-- ===== src/Agent/Chat/Twice.antt =====
-- crates/sa-core/src/lib.rs, `Agent::turn` and `assemble_context`: the message of the turn in its context.
use Prim.Native.Char.{Char}
use secretagent_rust_agent.Base.{
  ℕ, zero, suc, ◌<◌, ◌≤◌, String, ◌≡◌, refl, ap, ◌∙◌, Bool, true, ◌||◌, List, [], ◌∷◌, ◌++◌, nat_eq,
  arith, Option, some, none, All, All-append, Bool-cases, inl, inr, take, map, reverse,
  reverse-append, reverse-cons, ◌==◌, eq_refl,
}
use mathlib.Core.Path.{subst}
use secretagent_rust_agent.Memory.{Store, Summary, MessageRow, max_of, next_rowid}
use secretagent_rust_agent.Memory.Messages.{
  StoredMsg, stored, of_session, recent, recall, add_message, summary,
}
use secretagent_rust_agent.Memory.Skills.{significant_words}
use secretagent_rust_agent.Agent.Chat.{
  ChatMsg, recap, with_recap, assemble_context, to_chat, has_id, add_unseen, recall_each,
  insert_by_id, sort_by_id, picked_messages,
}
use secretagent_rust_agent.Agent.Chat.Context.{Ascending, All-take, All-sort, history-Ascending}
use secretagent_rust_agent.Agent.Chat.Folded.{row_id}

-- All rows that the full-text search finds are rows of the table.
abbrev pub FindsRows : (String → List MessageRow → List MessageRow) → Type 1
FindsRows matches =
    (Q : MessageRow → Type 0) (query : String) (rows : List MessageRow)
    → All Q rows
    → All Q (matches query rows)

has_id-insert :
    (k : ℕ) (m : StoredMsg) (ms : List StoredMsg)
    → (nat_eq m.id k || has_id k ms) ≡ true
    → has_id k (insert_by_id m ms) ≡ true
unfolding insert_by_id
has_id-insert k m [] h = h
has_id-insert k m (n ∷ ms) h = ground (arith, h, has_id-insert k m ms)

has_id-sort : (k : ℕ) (ms : List StoredMsg) → has_id k ms ≡ true → has_id k (sort_by_id ms) ≡ true
unfolding sort_by_id
has_id-sort k [] h = h
has_id-sort k (m ∷ ms) h = has_id-insert k m (sort_by_id ms) (ground (arith, h, has_id-sort k ms))

has_id-append :
    (k : ℕ) (xs ys : List StoredMsg) → has_id k (xs ++ ys) ≡ (has_id k xs || has_id k ys)
has_id-append k [] ys = refl
has_id-append k (x ∷ xs) ys = ground (arith, has_id-append k xs ys)

seen_lem :
    (k : ℕ) (m : StoredMsg) (picked ms : List StoredMsg)
    → has_id m.id picked ≡ true
    → (has_id k picked || has_id k (m ∷ ms)) ≡ true
    → (has_id k picked || has_id k ms) ≡ true
seen_lem k m picked ms e h = elim (Bool-cases (nat_eq m.id k)) [
  | inl q ↦
      let same : m.id ≡ k = ground (arith, q) in
      rw (subst (λ i. has_id i picked ≡ true) same e) refl
  | inr q ↦ ground (arith, h, q)
]

has_id-add_unseen :
    (k : ℕ) (picked ms : List StoredMsg)
    → (has_id k picked || has_id k ms) ≡ true
    → has_id k (add_unseen picked ms) ≡ true
unfolding add_unseen
has_id-add_unseen k picked [] h = ground (arith, h)
has_id-add_unseen k picked (m ∷ ms) h = elim (Bool-cases (has_id m.id picked)) [
  | inl e ↦ rw e (has_id-add_unseen k picked ms (seen_lem k m picked ms e h))
  | inr e ↦ rw e (
      has_id-add_unseen k (picked ++ m ∷ []) ms
        (rw (has_id-append k picked (m ∷ [])) (ground (arith, h))))
]

-- A sorted list whose ids are bounded by one of them ends with its message.
ends_with :
    (k : ℕ) (ms : List StoredMsg)
    → Ascending ms
    → All (λ (m : StoredMsg). m.id ≤ k) ms
    → has_id k ms ≡ true
    → (front : List StoredMsg) × (m : StoredMsg) × (ms ≡ front ++ m ∷ []) × (m.id ≡ k)
ends_with k [] s a h = cc
ends_with k (m ∷ []) s a h = ([], m, refl, ground (arith, h))
ends_with k (m ∷ n ∷ ms) s a h =
    let (front, last, e, i) = ends_with k (n ∷ ms) s.1 a.1 (ground (arith, h, s.0.0, a.1.0)) in
    (m ∷ front, last, ap (λ x. m ∷ x) e, i)

module _ (Q : StoredMsg → Type 0) where
  All-add_unseen :
      (picked ms : List StoredMsg) → All Q picked → All Q ms → All Q (add_unseen picked ms)
  unfolding add_unseen
  All-add_unseen picked [] a b = a
  All-add_unseen picked (m ∷ ms) a b = elim (Bool-cases (has_id m.id picked)) [
    | inl e ↦ rw e (All-add_unseen picked ms a b.1)
    | inr e ↦ rw e (All-add_unseen (picked ++ m ∷ []) ms (All-append Q picked _ a (b.0, tt)) b.1)
  ]

  All-reverse : (ms : List StoredMsg) → All Q ms → All Q (reverse ms)
  All-reverse [] a = tt
  All-reverse (m ∷ ms) a =
      rw reverse-cons (All-append Q (reverse ms) _ (All-reverse ms a.1) (a.0, tt))

  All-stored :
      (session : String) (rows : List MessageRow)
      → All (λ (r : MessageRow). Q (stored r)) rows
      → All Q (map stored (of_session session rows))
  All-stored session [] a = tt
  All-stored session (r ∷ rows) a = elim (Bool-cases (r.session_id == session)) [
    | inl e ↦ rw e (a.0, All-stored session rows a.1)
    | inr e ↦ rw e (All-stored session rows a.1)
  ]

  stored_take :
      (n : ℕ) (rows : List MessageRow)
      → All (λ (r : MessageRow). Q (stored r)) rows
      → All Q (map stored (take n rows))
  stored_take zero rows a = tt
  stored_take (suc n) [] a = tt
  stored_take (suc n) (r ∷ rows) a = (a.0, stored_take n rows a.1)

  rows_of_session :
      (session : String) (rows : List MessageRow)
      → All (λ (r : MessageRow). Q (stored r)) rows
      → All (λ (r : MessageRow). Q (stored r)) (of_session session rows)
  rows_of_session session [] a = tt
  rows_of_session session (r ∷ rows) a = elim (Bool-cases (r.session_id == session)) [
    | inl e ↦ rw e (a.0, rows_of_session session rows a.1)
    | inr e ↦ rw e (rows_of_session session rows a.1)
  ]

  All-recent :
      (session : String) (n : ℕ) (st : Store)
      → All (λ (r : MessageRow). Q (stored r)) st.messages
      → All Q (recent session n st)
  unfolding recent
  All-recent session n st a =
      All-reverse _ (All-take Q n _ (All-reverse _ (All-stored session st.messages a)))

  All-recall_each :
      (matches : String → List MessageRow → List MessageRow) (session : String)
      (words : List String) (st : Store) (picked : List StoredMsg)
      → FindsRows matches
      → All (λ (r : MessageRow). Q (stored r)) st.messages
      → All Q picked
      → All Q (recall_each matches session words st picked)
  unfolding recall_each recall
  All-recall_each matches session [] st picked f rows a = a
  All-recall_each matches session (w ∷ words) st picked f rows a =
      All-recall_each matches session words st _ f rows (
        All-add_unseen picked _ a
          (stored_take 3 _ (rows_of_session session _ (f _ w st.messages rows))))

below_max :
    (k : ℕ) (rows : List MessageRow)
    → max_of row_id rows < k
    → All (λ (r : MessageRow). r.id < k) rows
below_max k [] h = tt
below_max k (r ∷ rows) h = (ground (arith, h), below_max k rows (ground (arith, h)))

-- A message with the id is the one with the text, and no other id is larger.
abbrev IsLast : ℕ → ChatMsg → StoredMsg → Type 0
IsLast k u m = (m.id ≤ k) × (m.id ≡ k → to_chat m ≡ u)

older-IsLast :
    (k : ℕ) (u : ChatMsg) (rows : List MessageRow)
    → All (λ (r : MessageRow). r.id < k) rows
    → All (λ (r : MessageRow). IsLast k u (stored r)) rows
older-IsLast k u [] a = tt
older-IsLast k u (r ∷ rows) a =
    ((omega (arith, a.0), λ e. absurd (omega (arith, a.0, e))), older-IsLast k u rows a.1)

rows_append :
    (Q : MessageRow → Type 0) (rows : List MessageRow) (r : MessageRow)
    → All Q rows
    → Q r
    → All Q (rows ++ r ∷ [])
rows_append Q [] r a q = (q, tt)
rows_append Q (x ∷ rows) r a q = (a.0, rows_append Q rows r a.1 q)

of_session_append :
    (session : String) (rows : List MessageRow) (r : MessageRow)
    → r.session_id == session ≡ true
    → map stored (of_session session (rows ++ r ∷ []))
      ≡ map stored (of_session session rows) ++ stored r ∷ []
of_session_append session [] r e = rw e refl
of_session_append session (x ∷ rows) r e = elim (Bool-cases (x.session_id == session)) [
  | inl d ↦ rw d (ap (λ l. stored x ∷ l) (of_session_append session rows r e))
  | inr d ↦ rw d (of_session_append session rows r e)
]

has_id-newest :
    (ms : List StoredMsg) (m : StoredMsg)
    → has_id m.id (reverse (take 10 (reverse (ms ++ m ∷ [])))) ≡ true
has_id-newest ms m =
    rw (reverse-append, reverse-cons)
      (rw (has_id-append m.id (reverse (take 9 (reverse ms))) (m ∷ [])) (ground arith))

last_lem :
    (Q : StoredMsg → Type 0) (front : List StoredMsg) (m : StoredMsg)
    → All Q (front ++ m ∷ [])
    → Q m
last_lem Q [] m a = a.0
last_lem Q (x ∷ front) m a = last_lem Q front m a.1

All-bound :
    (k : ℕ) (u : ChatMsg) (ms : List StoredMsg)
    → All (IsLast k u) ms
    → All (λ (m : StoredMsg). m.id ≤ k) ms
All-bound k u [] a = tt
All-bound k u (m ∷ ms) a = (a.0.0, All-bound k u ms a.1)

-- The recent messages have the newest of the session.
has_id-recent :
    (session role content prov : String) (st : Store)
    → has_id
        (next_rowid row_id st.messages)
        (recent session 10 (add_message session role content prov st).0)
      ≡ true
unfolding recent add_message
has_id-recent session role content prov st =
    let new : MessageRow = record {
      id = next_rowid row_id st.messages;
      session_id = session;
      role = role;
      content = content;
      provenance = prov;
    } in
    rw (of_session_append session st.messages new (eq_refl session))
      (has_id-newest (map stored (of_session session st.messages)) (stored new))

-- The newest message is the last one picked.
picked_ends :
    (is_alphanumeric : Char → Bool) (matches : String → List MessageRow → List MessageRow)
    (session input : String) (st : Store)
    → FindsRows matches
    → (front : List StoredMsg) × (m : StoredMsg) × (picked_messages is_alphanumeric matches session
          input
          (add_message session "user" input "{}" st).0
        ≡ front ++ m ∷ [])
      × (to_chat m ≡ record { role = "user"; content = input })
unfolding picked_messages add_message
picked_ends is_alphanumeric matches session input st finds =
    let st' : Store = (add_message session "user" input "{}" st).0 in
    let k = next_rowid row_id st.messages in
    let u : ChatMsg = record { role = "user"; content = input } in
    let words = significant_words is_alphanumeric input in
    let rows : All (λ (r : MessageRow). IsLast k u (stored r)) st'.messages =
      rows_append _ st.messages _
        (older-IsLast k u st.messages (below_max k st.messages (omega arith)))
        (omega arith, λ e. refl) in
    let all : All (IsLast k u) (picked_messages is_alphanumeric matches session input st') =
      All-sort (IsLast k u) _ (
        All-add_unseen (IsLast k u) _ _
          (All-recall_each (IsLast k u) matches session words st' [] finds rows tt)
          (All-recent (IsLast k u) session 10 st' rows)) in
    let seen : has_id k (picked_messages is_alphanumeric matches session input st') ≡ true =
      has_id-sort k _ (
        has_id-add_unseen k (recall_each matches session words st' []) _
          (ground (arith, has_id-recent session "user" input "{}" st))) in
    let (front, m, e, i) =
      ends_with k _ (history-Ascending is_alphanumeric matches session input st')
        (All-bound k u _ all) seen in
    (front, m, e, (last_lem (IsLast k u) front m (subst (All (IsLast k u)) e all)).1 i)

twice_lem :
    (front : List StoredMsg) (m : StoredMsg) (u : ChatMsg)
    → to_chat m ≡ u
    → map to_chat (front ++ m ∷ []) ++ u ∷ [] ≡ map to_chat front ++ u ∷ u ∷ []
twice_lem [] m u e = ap (λ x. x ∷ u ∷ []) e
twice_lem (x ∷ front) m u e = ap (λ l. to_chat x ∷ l) (twice_lem front m u e)

with_recap_lem :
    (s : Option Summary) (front : List ChatMsg) (u : ChatMsg)
    → (before : List ChatMsg) × (with_recap s (front ++ u ∷ u ∷ []) ≡ before ++ u ∷ u ∷ [])
with_recap_lem none front u = (front, refl)
with_recap_lem (some s) front u = (recap s.text ∷ front, refl)

-- Behind a user message that was just stored, as `turn` stores it, the context that is assembled for the
-- same input ends with that message two times: once as the newest of the stored messages, and once as
-- the input that is appended. The full-text search returns rows of the table.
pub assemble_context-add_message :
    (is_alphanumeric : Char → Bool) (matches : String → List MessageRow → List MessageRow)
    (session input : String) (st : Store)
    → FindsRows matches
    → let u : ChatMsg = record { role = "user"; content = input } in
      (before : List ChatMsg) × (assemble_context is_alphanumeric matches session input
          (add_message session "user" input "{}" st).0
        ≡ before ++ u ∷ u ∷ [])
unfolding assemble_context
assemble_context-add_message is_alphanumeric matches session input st finds =
    let u : ChatMsg = record { role = "user"; content = input } in
    let st' : Store = (add_message session "user" input "{}" st).0 in
    let (front, m, e, is_u) = picked_ends is_alphanumeric matches session input st finds in
    let (before, shown) = with_recap_lem (summary session st') (map to_chat front) u in
    (
      before,
      ap (with_recap (summary session st'))
            (ap (λ ms. map to_chat ms ++ u ∷ []) e ∙ twice_lem front m u is_u)
          ∙ shown,
    )
