-- ===== src/Audit/Tamper.antt =====
-- What a verified chain says of tampering.
use mathlib.Core.List.{List-discrete}
use native.Mathlib.Decide.{ℕ_discrete}
use secretagent_rust_agent.Base.{
  ℕ, suc, String, ◌≡◌, refl, sym, ap, ◌∙◌, ◌≢◌, ◌⊎◌, inl, inr, true, some, List, [], ◌∷◌, ◌++◌, map,
  arith, length, ok, Option-cases,
}
use secretagent_rust_agent.Audit.{
  AuditEvent, Entry, Codec, IsLawful, Audit, hash_input, entry_hash, open_log, verify_chain,
  verify_from, read_events,
}
use secretagent_rust_agent.Audit.Bytes.{lines, as_bytes, le_bytes}
use secretagent_rust_agent.Audit.Bytes.Injective.{as_bytes_inj, append_split}
use secretagent_rust_agent.Audit.Chain.{
  Chained, final_hash, Parses, verify_from_sound, resume_of_Parses, collect_of_Parses,
}

-- Two entries whose inputs to the hash differ and have one digest.
abbrev pub IsCollision : Codec → Entry → Entry → Type 0
IsCollision k e e' =
    (hash_input k e.seq e.prev e.event ≢ hash_input k e'.seq e'.prev e'.event)
    × (entry_hash k e.seq e.prev e.event ≡ entry_hash k e'.seq e'.prev e'.event)

-- At some line of the same number of two logs stand two such entries.
abbrev pub HasCollision : Codec → List String → List String → Type 0
HasCollision k [] ls' = ⊥
HasCollision k (l ∷ ls) [] = ⊥
HasCollision k (l ∷ ls) (l' ∷ ls') =
    ((e : Entry) × (e' : Entry) × (k.parse_entry l ≡ some e)
      × (k.parse_entry l' ≡ some e')
      × IsCollision k e e')
    ⊎ HasCollision k ls ls'

abbrev EntriesCollide : Codec → List Entry → List Entry → Type 0
EntriesCollide k [] es' = ⊥
EntriesCollide k (e ∷ es) [] = ⊥
EntriesCollide k (e ∷ es) (e' ∷ es') = IsCollision k e e' ⊎ EntriesCollide k es es'

Parses-HasCollision :
    (k : Codec) (ls ls' : List String) (es es' : List Entry)
    → Parses k ls es
    → Parses k ls' es'
    → EntriesCollide k es es'
    → HasCollision k ls ls'
Parses-HasCollision k ls ls' [] es' p p' h = absurd h
Parses-HasCollision k ls ls' (e ∷ es) [] p p' h = absurd h
Parses-HasCollision k [] ls' (e ∷ es) (e' ∷ es') p p' h = absurd p
Parses-HasCollision k (l ∷ ls) [] (e ∷ es) (e' ∷ es') p p' h = absurd p'
Parses-HasCollision k (l ∷ ls) (l' ∷ ls') (e ∷ es) (e' ∷ es') p p' (inl h) =
    inl (e, e', p.0, p'.0, h)
Parses-HasCollision k (l ∷ ls) (l' ∷ ls') (e ∷ es) (e' ∷ es') p p' (inr h) =
    inr (Parses-HasCollision k ls ls' es es' p.1 p'.1 h)

length-le_bytes : (n m m' : ℕ) → length (le_bytes n m) ≡ length (le_bytes n m')
unfolding le_bytes
length-le_bytes ℕ.zero m m' = refl
length-le_bytes (ℕ.suc n) m m' = ap suc (length-le_bytes n _ _)

hash_input_inj :
    (k : Codec)
    → IsLawful k
    → (s s' : ℕ) (p p' : String) (e e' : AuditEvent) → length (as_bytes p) ≡ length (as_bytes p')
    → hash_input k s p e ≡ hash_input k s' p' e'
    → (p ≡ p') × (e ≡ e')
unfolding hash_input
hash_input_inj k law s s' p p' e e' len h =
    let (_, rest) = append_split (le_bytes 8 s) (le_bytes 8 s') _ _ (length-le_bytes 8 s s') h in
    let (prev, json) = append_split (as_bytes p) (as_bytes p') _ _ len rest in
    (as_bytes_inj p p' prev, law.event_json_inj e e' (as_bytes_inj _ _ json))

-- Equal hashes come from equal entries, or show a collision.
entry_hash_inj :
    (k : Codec)
    → IsLawful k
    → (e e' : Entry) → length (as_bytes e.prev) ≡ length (as_bytes e'.prev)
    → entry_hash k e.seq e.prev e.event ≡ entry_hash k e'.seq e'.prev e'.event
    → IsCollision k e e' ⊎ ((e.prev ≡ e'.prev) × (e.event ≡ e'.event))
entry_hash_inj k law e e' len h =
    elim (List-discrete ℕ_discrete (hash_input k e.seq e.prev e.event)
      (hash_input k e'.seq e'.prev e'.event)) [
        | yes same ↦
            inr (hash_input_inj k law e.seq e'.seq e.prev e'.prev e.event e'.event len same)
        | no differ ↦ inl (differ, h)
      ]

entry_hash-length :
    (k : Codec)
    → IsLawful k
    → (e e' : Entry) → e.hash ≡ entry_hash k e.seq e.prev e.event
    → e'.hash ≡ entry_hash k e'.seq e'.prev e'.event
    → length (as_bytes e.hash) ≡ length (as_bytes e'.hash)
unfolding entry_hash
entry_hash-length k law e e' h h' = rw (h, h') (law.digest_length _ _)

-- One position of two chains.
entry_step :
    (k : Codec)
    → IsLawful k
    → (i : ℕ) (p p' : String) (e e' : Entry) (es es' : List Entry)
    → length (as_bytes p) ≡ length (as_bytes p')
    → Chained k i p (e ∷ es)
    → Chained k i p' (e' ∷ es')
    → e.hash ≡ e'.hash
    → IsCollision k e e' ⊎ ((p ≡ p') × (e.event ≡ e'.event))
entry_step k law i p p' e e' es es' len (s, b, h, _) (s', b', h', _) same =
    elim (entry_hash_inj k law e e' (rw (b, b') len) (sym h ∙ (same ∙ h'))) [
      | inl found ↦ inl found
      | inr (prev, event) ↦ inr (sym b ∙ (prev ∙ b'), event)
    ]

abbrev events_of : List Entry → List AuditEvent
events_of es = map (λ (e : Entry). e.event) es

Chained-inj :
    (k : Codec)
    → IsLawful k
    → (i : ℕ) (p p' : String) (es es' : List Entry) → length (as_bytes p) ≡ length (as_bytes p')
    → length es ≡ length es'
    → Chained k i p es
    → Chained k i p' es'
    → final_hash p es ≡ final_hash p' es'
    → EntriesCollide k es es' ⊎ ((p ≡ p') × (events_of es ≡ events_of es'))
Chained-inj k law i p p' [] [] len n c c' h = inr (h, refl)
Chained-inj k law i p p' [] (e' ∷ es') len n c c' h = absurd (omega arith)
Chained-inj k law i p p' (e ∷ es) [] len n c c' h = absurd (omega arith)
Chained-inj k law i p p' (e ∷ es) (e' ∷ es') len n c c' h =
    elim (Chained-inj k law (suc i) e.hash e'.hash es es' (entry_hash-length k law e e' c.2 c'.2)
      (omega arith) c.3 c'.3 h) [
        | inl found ↦ inl (inr found)
        | inr (hash, more) ↦ elim (entry_step k law i p p' e e' es es' len c c' hash) [
          | inl found ↦ inl (inl found)
          | inr (before, here) ↦ inr (before, cc)
        ]
      ]

length-Parses :
    (k : Codec) (ls : List String) (es : List Entry) → Parses k ls es → length ls ≡ length es
length-Parses k [] [] p = refl
length-Parses k [] (e ∷ es) p = absurd p
length-Parses k (l ∷ ls) [] p = absurd p
length-Parses k (l ∷ ls) (e ∷ es) p = ap suc (length-Parses k ls es p.1)

-- A text that verifies, as entries.
record Verified (k : Codec) (text : String) (last : String) : Type 0 where
  entries : List Entry
  parses : Parses k (lines text) entries
  chained : Chained k 0 "" entries
  ends : last ≡ final_hash "" entries

verified :
    (k : Codec) (text : String) (a : Audit)
    → verify_chain k text ≡ true
    → open_log k (some text) ≡ ok a
    → Verified k text a.last_hash
unfolding verify_chain open_log
verified k text a v o =
    let (es, ps, cs) = verify_from_sound k 0 "" (lines text) v in
    record {
      entries = es;
      parses = ps;
      chained = cs;
      ends = ground (arith, resume_of_Parses k 0 "" (lines text) es ps cs);
    }

-- Two log files that both verify, with equally many lines and the same last hash, hold the same
-- events, or else at one line of the two the entries that stand there have different inputs to the hash
-- with one digest.
pub tamper_evident :
    (k : Codec) (text text' : String) (a a' : Audit)
    → IsLawful k
    → verify_chain k text ≡ true
    → verify_chain k text' ≡ true
    → open_log k (some text) ≡ ok a
    → open_log k (some text') ≡ ok a'
    → length (lines text) ≡ length (lines text')
    → a.last_hash ≡ a'.last_hash
    → HasCollision k (lines text) (lines text')
      ⊎ (read_events k (some text) ≡ read_events k (some text'))
unfolding read_events
tamper_evident k text text' a a' law v v' o o' n same =
    let w = verified k text a v o in
    let w' = verified k text' a' v' o' in
    let agree =
      Chained-inj k law 0 "" "" w.entries w'.entries refl
        (omega (arith, length-Parses k _ _ w.parses, length-Parses k _ _ w'.parses)) w.chained
        w'.chained (sym w.ends ∙ (same ∙ w'.ends)) in
    elim agree [
      | inl found ↦ inl (Parses-HasCollision k _ _ w.entries w'.entries w.parses w'.parses found)
      | inr (_, events) ↦ inr (
          collect_of_Parses k (lines text) w.entries w.parses
          ∙ (ap ok events ∙ sym (collect_of_Parses k (lines text') w'.entries w'.parses)))
    ]

verify_from-append :
    (k : Codec) (i : ℕ) (prev : String) (ls ms : List String)
    → verify_from k i prev (ls ++ ms) ≡ true
    → verify_from k i prev ls ≡ true
unfolding verify_from
verify_from-append k i prev [] ms h = refl
verify_from-append k i prev (l ∷ ls) ms h = elim (Option-cases (k.parse_entry l)) [
  | inl torn ↦ ground arith
  | inr (e, parsed) ↦ ground (arith, verify_from-append k (suc i) e.hash ls ms)
]

-- The chain has no commitment to its length: what is left when whole lines are cut off the end of a
-- verified log verifies as well.
pub truncation_verifies :
    (k : Codec) (text text' : String) (cut : List String)
    → verify_chain k text ≡ true
    → lines text ≡ lines text' ++ cut
    → verify_chain k text' ≡ true
unfolding verify_chain
truncation_verifies k text text' cut v e = verify_from-append k 0 "" (lines text') cut (rw e at v)
