-- ===== src/Connectors/Slack/Ring.antt =====
-- crates/sa-connectors/src/slack.rs: the ring of recent envelopes under any sequence of them.
use secretagent_rust_agent.Base.{
  ℕ, suc, ◌+◌, ◌≤◌, ◌<◌, String, ◌≡◌, refl, ◌∙◌, true, false, ◌||◌, ◌==◌, eq_iff, List, [], ◌∷◌,
  ◌++◌, length, drop, contains, Bool-cases, inl, inr, ltb, arith, append_assoc, length-append,
}
use secretagent_rust_agent.Connectors.Slack.{note_envelope, trim_ring}

abbrev pub Distinct : List String → Type 0
Distinct [] = Unit
Distinct (x ∷ xs) = (contains xs x ≡ false) × Distinct xs

pub record IsRing (cap : ℕ) (seen : List String) : Type 0 where
  pub is_short : length seen ≤ cap
  pub is_distinct : Distinct seen

contains-snoc :
    (xs : List String) (id x : String) → contains (xs ++ (id ∷ [])) x ≡ contains xs x || id == x
contains-snoc [] id x = ground arith
contains-snoc (y ∷ xs) id x = ground (arith, contains-snoc xs id x)

Distinct-snoc :
    (xs : List String) (id : String)
    → contains xs id ≡ false
    → Distinct xs
    → Distinct (xs ++ (id ∷ []))
Distinct-snoc [] id h d = (refl, tt)
Distinct-snoc (x ∷ xs) id h (new, d) = (
  contains-snoc xs id x ∙ ground (arith, h, new, eq_iff x id, eq_iff id x),
  Distinct-snoc xs id (ground (arith, h)) d,
)

Distinct-drop : (xs : List String) → Distinct xs → Distinct (drop 1 xs)
Distinct-drop [] d = tt
Distinct-drop (x ∷ xs) (new, d) = d

length-drop : (xs : List String) (cap : ℕ) → length xs ≤ cap + 1 → length (drop 1 xs) ≤ cap
length-drop [] cap h = omega arith
length-drop (x ∷ xs) cap h = omega (arith, h)

trim_ring-IsRing :
    (cap : ℕ) (xs : List String) → length xs ≤ cap + 1 → Distinct xs → IsRing cap (trim_ring cap xs)
trim_ring-IsRing cap xs h d = elim (Bool-cases (ltb cap (length xs))) [
  | inl long ↦
      rw long (record { is_short = length-drop xs cap h; is_distinct = Distinct-drop xs d })
  | inr short ↦ rw short (record { is_short = ground (arith, short); is_distinct = d })
]

-- The ring of envelope ids stays within its cap and free of duplicates, whatever id is noted.
pub note_envelope-IsRing :
    (cap : ℕ) (seen : List String) (id : String)
    → IsRing cap seen
    → IsRing cap (note_envelope seen id cap).1
unfolding note_envelope
note_envelope-IsRing cap seen id ring = elim (Bool-cases (contains seen id)) [
  | inl old ↦ rw old ring
  | inr new ↦ rw new (
      trim_ring-IsRing cap (seen ++ (id ∷ []))
        (omega (arith, length-append seen (id ∷ []), ring.is_short))
        (Distinct-snoc seen id new ring.is_distinct))
]

-- The ring holds `id` with at most `k` newer ids behind it.
record Recent (id : String) (k : ℕ) (seen : List String) : Type 0 where
  older : List String
  newer : List String
  split : seen ≡ older ++ (id ∷ newer)
  newer_le : length newer ≤ k

Recent-found :
    (id : String) (older newer : List String) → contains (older ++ (id ∷ newer)) id ≡ true
Recent-found id [] newer = ground (arith, eq_iff id id)
Recent-found id (x ∷ older) newer = ground (arith, Recent-found id older newer)

Recent-trim :
    (cap k : ℕ) (id : String) (older newer : List String)
    → length newer ≤ k
    → k < cap
    → Recent id k (trim_ring cap (older ++ (id ∷ newer)))
Recent-trim cap k id [] newer h room = elim (Bool-cases (ltb cap (length (id ∷ newer)))) [
  | inl long ↦ absurd (ground (arith, long, h, room))
  | inr short ↦ rw short (record { older = []; newer = newer; split = refl; newer_le = h })
]
Recent-trim cap k id (x ∷ older) newer h room =
    elim (Bool-cases (ltb cap (length (x ∷ older ++ (id ∷ newer))))) [
      | inl long ↦ rw long (record { older = older; newer = newer; split = refl; newer_le = h })
      | inr short ↦
          rw short (record { older = x ∷ older; newer = newer; split = refl; newer_le = h })
    ]

Recent-note :
    (cap k : ℕ) (id s : String) (seen : List String)
    → Recent id k seen
    → suc k < cap
    → Recent id (suc k) (note_envelope seen s cap).1
unfolding note_envelope
Recent-note cap k id s seen r room = elim (Bool-cases (contains seen s)) [
  | inl old ↦ rw old (record {
    older = r.older;
    newer = r.newer;
    split = r.split;
    newer_le = omega (arith, r.newer_le);
  })
  | inr new ↦
      rw (new, r.split, append_assoc r.older (id ∷ r.newer) (s ∷ []))
        (Recent-trim cap (suc k) id r.older (r.newer ++ (s ∷ []))
          (omega (arith, length-append r.newer (s ∷ []), r.newer_le)) room)
]

-- The ring behind a sequence of envelopes.
unfoldable pub note_all : ℕ → List String → List String → List String
unfolding note_envelope
note_all cap seen [] = seen
note_all cap seen (id ∷ ids) = note_all cap (note_envelope seen id cap).1 ids

Recent-note_all :
    (cap k : ℕ) (id : String) (mids seen : List String)
    → Recent id k seen
    → k + length mids < cap
    → contains (note_all cap seen mids) id ≡ true
unfolding note_all
Recent-note_all cap k id [] seen r room = rw (r.split) (Recent-found id r.older r.newer)
Recent-note_all cap k id (s ∷ mids) seen r room =
    Recent-note_all cap (suc k) id mids (note_envelope seen s cap).1
      (Recent-note cap k id s seen r (omega (arith, room))) (omega (arith, room))

-- An envelope that was new is answered as a redelivery when fewer than `cap` others were noted in
-- between, and the ring is then unchanged.
pub redelivery_is_skipped :
    (cap : ℕ) (seen mids : List String) (id : String)
    → contains seen id ≡ false
    → length mids < cap
    → let later = note_all cap (note_envelope seen id cap).1 mids in
      note_envelope later id cap ≡ (false, later)
unfolding note_envelope
redelivery_is_skipped cap seen mids id new room =
    rw
      (
        new,
        Recent-note_all cap 0 id mids (trim_ring cap (seen ++ (id ∷ [])))
            (Recent-trim cap 0 id seen [] (omega arith) (omega (arith, room)))
            (omega (arith, room)),
      )
      refl
