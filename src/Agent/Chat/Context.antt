-- ===== src/Agent/Chat/Context.antt =====
-- crates/sa-core/src/lib.rs, `assemble_context` and `summarize_session`: the order of the messages that
-- are picked, and the watermark of one summary.
use Prim.Native.Char.{Char}
use secretagent_rust_agent.Base.{
  ℕ, zero, suc, ◌<◌, ◌≤◌, ◌-◌, String, ◌≡◌, ◌≢◌, Bool, false, ◌||◌, List, [], ◌∷◌, ◌++◌, Option,
  none, some, nat_eq, leb, arith, All, Bool-cases, inl, inr, filter, take, length, ltb, map, ◌==◌,
}
use secretagent_rust_agent.Memory.{Store, MessageRow}
use secretagent_rust_agent.Memory.Messages.{
  StoredMsg, stored, of_session, recent, recall, all_messages, summary,
}
use secretagent_rust_agent.Memory.Messages.Growth.{Grows}
use secretagent_rust_agent.Memory.Skills.{significant_words}
use secretagent_rust_agent.Agent.Chat.{
  has_id, add_unseen, recall_each, insert_by_id, sort_by_id, picked_messages, newer, last_id,
  through_of, to_summarize, summary_keep_recent,
}

-- The ids grow: the messages are oldest first, and none stands twice.
abbrev pub Ascending : List StoredMsg → Type 0
Ascending [] = Unit {0}
Ascending (m ∷ ms) = All (λ (n : StoredMsg). m.id < n.id) ms × Ascending ms

abbrev Distinct : List StoredMsg → Type 0
Distinct [] = Unit {0}
Distinct (m ∷ ms) = All (λ (n : StoredMsg). n.id ≢ m.id) ms × Distinct ms

All-insert :
    (P : StoredMsg → Type 0) (m : StoredMsg) (ms : List StoredMsg)
    → P m
    → All P ms
    → All P (insert_by_id m ms)
unfolding insert_by_id
All-insert P m [] p a = (p, tt)
All-insert P m (n ∷ ms) p a = elim (Bool-cases (leb m.id n.id)) [
  | inl e ↦ rw e (p, a)
  | inr e ↦ rw e (a.0, All-insert P m ms p a.1)
]

pub All-sort : (P : StoredMsg → Type 0) (ms : List StoredMsg) → All P ms → All P (sort_by_id ms)
unfolding sort_by_id
All-sort P [] a = tt
All-sort P (m ∷ ms) a = All-insert P m (sort_by_id ms) a.0 (All-sort P ms a.1)

All-lt_trans :
    (k l : ℕ) (ms : List StoredMsg)
    → k < l
    → All (λ (n : StoredMsg). l < n.id) ms
    → All (λ (n : StoredMsg). k < n.id) ms
All-lt_trans k l [] h a = tt
All-lt_trans k l (m ∷ ms) h a = (omega (arith, a.0), All-lt_trans k l ms h a.1)

insert-Ascending :
    (m : StoredMsg) (ms : List StoredMsg)
    → All (λ (n : StoredMsg). n.id ≢ m.id) ms
    → Ascending ms
    → Ascending (insert_by_id m ms)
unfolding insert_by_id
insert-Ascending m [] d a = (tt, tt)
insert-Ascending m (n ∷ ms) d a = elim (Bool-cases (leb m.id n.id)) [
  | inl e ↦
      let lt : m.id < n.id = ground (arith, d.0, e) in
      rw e ((lt, All-lt_trans m.id n.id ms lt a.0), a)
  | inr e ↦ rw e (
    All-insert (λ (o : StoredMsg). n.id < o.id) m ms (ground (arith, e)) a.0,
    insert-Ascending m ms d.1 a.1,
  )
]

sort-Ascending : (ms : List StoredMsg) → Distinct ms → Ascending (sort_by_id ms)
unfolding sort_by_id
sort-Ascending [] d = tt
sort-Ascending (m ∷ ms) d =
    insert-Ascending m (sort_by_id ms) (All-sort (λ (n : StoredMsg). n.id ≢ m.id) ms d.0)
      (sort-Ascending ms d.1)

Distinct-snoc :
    (ms : List StoredMsg) (m : StoredMsg)
    → Distinct ms
    → has_id m.id ms ≡ false
    → Distinct (ms ++ m ∷ [])
Distinct-snoc [] m d e = (tt, tt)
Distinct-snoc (n ∷ ms) m d e =
    (All-snoc ms d.0 (ground (arith, e)), Distinct-snoc ms m d.1 (ground (arith, e)))
  where
    All-snoc :
        (os : List StoredMsg)
        → All (λ (o : StoredMsg). o.id ≢ n.id) os
        → m.id ≢ n.id
        → All (λ (o : StoredMsg). o.id ≢ n.id) (os ++ m ∷ [])
    All-snoc [] a h = (h, tt)
    All-snoc (o ∷ os) a h = (a.0, All-snoc os a.1 h)

add_unseen-Distinct :
    (picked ms : List StoredMsg) → Distinct picked → Distinct (add_unseen picked ms)
unfolding add_unseen
add_unseen-Distinct picked [] d = d
add_unseen-Distinct picked (m ∷ ms) d = elim (Bool-cases (has_id m.id picked)) [
  | inl e ↦ rw e (add_unseen-Distinct picked ms d)
  | inr e ↦ rw e (add_unseen-Distinct (picked ++ m ∷ []) ms (Distinct-snoc picked m d e))
]

recall_each-Distinct :
    (matches : String → List MessageRow → List MessageRow) (session : String) (words : List String)
    (st : Store) (picked : List StoredMsg)
    → Distinct picked
    → Distinct (recall_each matches session words st picked)
unfolding recall_each
recall_each-Distinct matches session [] st picked d = d
recall_each-Distinct matches session (w ∷ words) st picked d =
    recall_each-Distinct matches session words st _
      (add_unseen-Distinct picked (recall matches session w 3 st) d)

-- The stored messages that are picked for a context are oldest first, each id once.
pub history-Ascending :
    (is_alphanumeric : Char → Bool) (matches : String → List MessageRow → List MessageRow)
    (session input : String) (st : Store)
    → Ascending (picked_messages is_alphanumeric matches session input st)
unfolding picked_messages
history-Ascending is_alphanumeric matches session input st = sort-Ascending _ (
    add_unseen-Distinct _ (recent session 10 st)
      (recall_each-Distinct matches session (significant_words is_alphanumeric input) st [] tt))

pub All-take : (P : StoredMsg → Type 0) (n : ℕ) (ms : List StoredMsg) → All P ms → All P (take n ms)
All-take P zero ms a = tt
All-take P (suc n) [] a = tt
All-take P (suc n) (m ∷ ms) a = (a.0, All-take P n ms a.1)

pub Ascending-take : (n : ℕ) (ms : List StoredMsg) → Ascending ms → Ascending (take n ms)
Ascending-take zero ms a = tt
Ascending-take (suc n) [] a = tt
Ascending-take (suc n) (m ∷ ms) a =
    (All-take (λ (o : StoredMsg). m.id < o.id) n ms a.0, Ascending-take n ms a.1)

pub last_id_above :
    (k : ℕ) (ms : List StoredMsg)
    → All (λ (n : StoredMsg). k < n.id) ms
    → Ascending ms
    → k ≤ last_id ms k
last_id_above k [] a s = omega arith
last_id_above k (m ∷ ms) a s = omega (arith, a.0, last_id_above m.id ms s.0 s.1)

-- A message of a range of ids.
abbrev pub IsBetween : ℕ → ℕ → StoredMsg → Type 0
IsBetween through watermark m = (through < m.id) × (m.id ≤ watermark)

newer-IsBetween :
    (through k : ℕ) (ms : List StoredMsg)
    → Ascending ms
    → All (IsBetween through (last_id ms k)) (filter (newer through) ms)
newer-IsBetween through k [] s = tt
newer-IsBetween through k (m ∷ ms) s = elim (Bool-cases (ltb through m.id)) [
  | inl e ↦
      rw e ((ground (arith, e), last_id_above m.id ms s.0 s.1), newer-IsBetween through m.id ms s.1)
  | inr e ↦ rw e (newer-IsBetween through m.id ms s.1)
]

-- What is to be folded into a summary lies between its watermark and the new one, which is larger.
abbrev pub IsFold : ℕ → Option (List StoredMsg × ℕ) → Type 0
IsFold through none = Unit {0}
IsFold through (some (older, watermark)) =
    (through < watermark) × All (IsBetween through watermark) older

advances :
    (through watermark : ℕ) (older : List StoredMsg)
    → nat_eq (length older) 0 ≡ false
    → All (IsBetween through watermark) older
    → through < watermark
advances through watermark [] e a = absurd (ground (arith, e))
advances through watermark (m ∷ older) e a = omega (arith, a.0.0, a.0.1)

-- What one call folds lies behind the watermark before it, and the new watermark is larger.
pub to_summarize-IsFold :
    (session : String) (st : Store)
    → Ascending (all_messages session st)
    → IsFold (through_of (summary session st)) (to_summarize session st)
unfolding to_summarize
to_summarize-IsFold session st a =
    let all = all_messages session st in
    let through = through_of (summary session st) in
    let front = take (length all - summary_keep_recent) all in
    let between =
      newer-IsBetween through through front
        (Ascending-take (length all - summary_keep_recent) all a) in
    elim (Bool-cases
      (leb (length all) summary_keep_recent || nat_eq (length (filter (newer through) front)) 0)) [
        | inl e ↦ rw e tt
        | inr e ↦
            rw e (advances through (last_id front through) _ (ground (arith, e)) between, between)
      ]

stored-above :
    (session : String) (k : ℕ) (rows : List MessageRow)
    → All (λ (n : MessageRow). k < n.id) rows
    → All (λ (m : StoredMsg). k < m.id) (map stored (of_session session rows))
stored-above session k [] a = tt
stored-above session k (n ∷ rows) a = elim (Bool-cases (n.session_id == session)) [
  | inl e ↦ rw e (a.0, stored-above session k rows a.1)
  | inr e ↦ rw e (stored-above session k rows a.1)
]

stored-Ascending :
    (session : String) (rows : List MessageRow)
    → Grows rows
    → Ascending (map stored (of_session session rows))
stored-Ascending session [] g = tt
stored-Ascending session (n ∷ rows) g = elim (Bool-cases (n.session_id == session)) [
  | inl e ↦ rw e (stored-above session n.id rows g.0, stored-Ascending session rows g.1)
  | inr e ↦ rw e (stored-Ascending session rows g.1)
]

-- Where the ids of the rows grow, which every new message keeps, all messages of a session are read
-- oldest first.
pub all_messages-Ascending :
    (session : String) (st : Store) → Grows st.messages → Ascending (all_messages session st)
unfolding all_messages
all_messages-Ascending session st g = stored-Ascending session st.messages g
