-- ===== src/Agent/Chat/Folded.antt =====
-- crates/sa-core/src/lib.rs, `summarize_session`: the messages up to a watermark.
use secretagent_rust_agent.Base.{
  ℕ, zero, suc, ◌<◌, ◌≤◌, ◌-◌, String, ◌≡◌, refl, sym, ap, ◌∙◌, Bool, true, false, ◌||◌, List, [],
  ◌∷◌, ◌++◌, none, some, nat_eq, leb, ltb, arith, All, Bool-cases, inl, inr, filter, take, length,
  map, ◌==◌, if◌then◌else◌,
}
use mathlib.Core.Path.{subst}
use mathlib.Core.Option.{some-injective}
use secretagent_rust_agent.Memory.{Store, MessageRow, max_of}
use secretagent_rust_agent.Memory.Messages.{StoredMsg, stored, of_session, all_messages, summary}
use secretagent_rust_agent.Agent.Chat.{
  newer, last_id, through_of, to_summarize, summary_keep_recent,
}
use secretagent_rust_agent.Agent.Chat.Context.{
  Ascending, Ascending-take, All-take, last_id_above, IsFold, to_summarize-IsFold,
}

-- A message that a watermark covers.
abbrev pub upto : ℕ → StoredMsg → Bool
upto through m = leb m.id through

none_upto :
    (k : ℕ) (ms : List StoredMsg) → All (λ (m : StoredMsg). k < m.id) ms → filter (upto k) ms ≡ []
none_upto k [] a = refl
none_upto k (m ∷ ms) a = ground (arith, a.0, none_upto k ms a.1)

all_newer :
    (k : ℕ) (ms : List StoredMsg) → All (λ (m : StoredMsg). k < m.id) ms → filter (newer k) ms ≡ ms
all_newer k [] a = refl
all_newer k (m ∷ ms) a = ground (arith, a.0, all_newer k ms a.1)

above_trans :
    (k l : ℕ) (ms : List StoredMsg)
    → k < l
    → All (λ (m : StoredMsg). l < m.id) ms
    → All (λ (m : StoredMsg). k < m.id) ms
above_trans k l [] h a = tt
above_trans k l (m ∷ ms) h a = (omega (arith, a.0), above_trans k l ms h a.1)

-- The messages up to a watermark stand before those behind it.
pub upto-newer :
    (t : ℕ) (ms : List StoredMsg) → Ascending ms → filter (upto t) ms ++ filter (newer t) ms ≡ ms
upto-newer t [] s = refl
upto-newer t (m ∷ ms) s = elim (Bool-cases (leb m.id t)) [
  | inl e ↦
      let old : ltb t m.id ≡ false = ground (arith, e) in
      rw (e, old) (ap (λ rest. m ∷ rest) (upto-newer t ms s.1))
  | inr e ↦
      let new : ltb t m.id ≡ true = ground (arith, e) in
      let above = above_trans t m.id ms (ground (arith, e)) s.0 in
      rw (e, new, none_upto t ms above, all_newer t ms above) refl
]

pub upto-upto :
    (t w : ℕ) (ms : List StoredMsg)
    → t ≤ w
    → filter (upto t) (filter (upto w) ms) ≡ filter (upto t) ms
upto-upto t w [] h = refl
upto-upto t w (m ∷ ms) h = ground (arith, h, upto-upto t w ms h)

-- A first message is kept by a watermark of messages behind it.
keep_first :
    (n : ℕ) (m : StoredMsg) (ms : List StoredMsg)
    → Ascending (m ∷ ms)
    → filter (upto (last_id (take n ms) m.id)) ms ≡ take n ms
    → filter (upto (last_id (take n ms) m.id)) (m ∷ ms) ≡ m ∷ take n ms
keep_first n m ms s h =
    let w = last_id (take n ms) m.id in
    let le : m.id ≤ w =
      last_id_above m.id (take n ms) (All-take (λ (o : StoredMsg). m.id < o.id) n ms s.0)
        (Ascending-take n ms s.1) in
    let here : leb m.id w ≡ true = ground (arith, le) in rw here (ap (λ rest. m ∷ rest) h)

upto-take_behind :
    (n k : ℕ) (ms : List StoredMsg)
    → All (λ (m : StoredMsg). k < m.id) ms
    → Ascending ms
    → filter (upto (last_id (take n ms) k)) ms ≡ take n ms
upto-take_behind zero k ms a s = none_upto k ms a
upto-take_behind (suc n) k [] a s = refl
upto-take_behind (suc n) k (m ∷ ms) a s = keep_first n m ms s (upto-take_behind n m.id ms s.0 s.1)

-- The first messages are those up to the id of their last one.
upto-take :
    (n t : ℕ) (ms : List StoredMsg)
    → t < last_id (take n ms) t
    → Ascending ms
    → filter (upto (last_id (take n ms) t)) ms ≡ take n ms
upto-take zero t ms h s = absurd (omega (arith, h))
upto-take (suc n) t [] h s = absurd (omega (arith, h))
upto-take (suc n) t (m ∷ ms) h s = keep_first n m ms s (upto-take_behind n m.id ms s.0 s.1)

last_id-le :
    (k bound : ℕ) (ms : List StoredMsg)
    → k ≤ bound
    → All (λ (m : StoredMsg). m.id ≤ bound) ms
    → last_id ms k ≤ bound
last_id-le k bound [] h a = h
last_id-le k bound (m ∷ ms) h a = last_id-le m.id bound ms a.0 a.1

abbrev pub row_id : MessageRow → ℕ
row_id m = m.id

stored-le :
    (session : String) (bound : ℕ) (rows : List MessageRow)
    → max_of row_id rows ≤ bound
    → All (λ (m : StoredMsg). m.id ≤ bound) (map stored (of_session session rows))
stored-le session bound [] h = tt
stored-le session bound (r ∷ rows) h = elim (Bool-cases (r.session_id == session)) [
  | inl e ↦ rw e (ground (arith, h), stored-le session bound rows (ground (arith, h)))
  | inr e ↦ rw e (stored-le session bound rows (ground (arith, h)))
]

-- What a call folds: the messages behind the watermark up to the new one, which is not behind the
-- newest message.
pub record Folds (session : String) (st : Store) (older : List StoredMsg) (watermark : ℕ)
    : Type 0 where
  pub covers :
      filter (upto (through_of (summary session st))) (all_messages session st) ++ older
      ≡ filter (upto watermark) (all_messages session st)
  pub bounded : watermark ≤ max_of row_id st.messages

went_on :
    (stops : Bool) (found r : List StoredMsg × ℕ)
    → (if stops then none else some found) ≡ some r
    → found ≡ r
went_on true found r h = cc
went_on false found r h = some-injective _ _ h

front_covers :
    (t n : ℕ) (all older : List StoredMsg)
    → Ascending all
    → t < last_id (take n all) t
    → filter (newer t) (take n all) ≡ older
    → filter (upto t) all ++ older ≡ filter (upto (last_id (take n all) t)) all
front_covers t n all older s lt e =
    let w = last_id (take n all) t in
    let front : filter (upto w) all ≡ take n all = upto-take n t all lt s in
    let early : filter (upto t) all ≡ filter (upto t) (take n all) =
      sym (upto-upto t w all (omega (arith, lt))) ∙ ap (filter (upto t)) front in
    ap (λ x. x ++ older) early
    ∙ (ap (λ y. filter (upto t) (take n all) ++ y) (sym e)
        ∙ (upto-newer t (take n all) (Ascending-take n all s) ∙ sym front))

pub to_summarize-Folds :
    (session : String) (st : Store) (older : List StoredMsg) (watermark : ℕ)
    → Ascending (all_messages session st)
    → through_of (summary session st) ≤ max_of row_id st.messages
    → to_summarize session st ≡ some (older, watermark)
    → Folds session st older watermark
unfolding to_summarize all_messages
to_summarize-Folds session st older watermark s low h =
    let all : List StoredMsg = all_messages session st in
    let t = through_of (summary session st) in
    let n = length all - summary_keep_recent in
    let found : (filter (newer t) (take n all), last_id (take n all) t) ≡ (older, watermark) =
      went_on
        (leb (length all) summary_keep_recent || nat_eq (length (filter (newer t) (take n all))) 0)
        _ (older, watermark) h in
    let w : last_id (take n all) t ≡ watermark = ap (λ (x : List StoredMsg × ℕ). x.1) found in
    let lt : t < watermark = (subst (IsFold t) h (to_summarize-IsFold session st s)).0 in
    let ids = stored-le session (max_of row_id st.messages) st.messages (omega arith) in
    record {
      covers =
          front_covers t n all older s (omega (arith, lt, w))
            (ap (λ (x : List StoredMsg × ℕ). x.0) found)
          ∙ ap (λ k. filter (upto k) all) w;
      bounded = omega (
        arith,
        w,
        last_id-le t (max_of row_id st.messages) (take n all) low
            (All-take (λ (m : StoredMsg). m.id ≤ max_of row_id st.messages) n all ids),
      );
    }
