-- ===== src/Audit/Chain.antt =====
-- The chain as a specification on entries, and the reading loops against it.
use secretagent_rust_agent.Base.{
  ℕ, suc, ◌+◌, String, ◌≡◌, refl, true, none, some, List, [], ◌∷◌, map, arith, eq_iff, length, ok,
  Option-cases, inl, inr,
}
use secretagent_rust_agent.Audit.{Entry, Codec, wrap64, entry_hash, resume, verify_from, collect}

-- From position `i` behind the hash `prev` every entry carries its number, the hash before it and
-- its own hash.
abbrev pub Chained : Codec → ℕ → String → List Entry → Type 0
Chained k i prev [] = Unit
Chained k i prev (e ∷ es) =
    (e.seq ≡ wrap64 i)
    × (e.prev ≡ prev)
    × (e.hash ≡ entry_hash k e.seq e.prev e.event)
    × Chained k (suc i) e.hash es

abbrev pub final_hash : String → List Entry → String
final_hash prev [] = prev
final_hash prev (e ∷ es) = final_hash e.hash es

abbrev pub Parses : Codec → List String → List Entry → Type 0
Parses k [] [] = Unit
Parses k (line ∷ rest) (e ∷ es) = (k.parse_entry line ≡ some e) × Parses k rest es
Parses k _ _ = ⊥

torn_line :
    (k : Codec) (i : ℕ) (prev line : String) (rest : List String)
    → k.parse_entry line ≡ none
    → verify_from k i prev (line ∷ rest) ≡ true
    → ⊥
unfolding verify_from
torn_line k i prev line rest p h = ground arith

verify_step :
    (k : Codec) (i : ℕ) (prev line : String) (rest : List String) (e : Entry)
    → k.parse_entry line ≡ some e
    → verify_from k i prev (line ∷ rest) ≡ true
    → (e.seq ≡ wrap64 i)
      × (e.prev ≡ prev)
      × (e.hash ≡ entry_hash k e.seq e.prev e.event)
      × (verify_from k (suc i) e.hash rest ≡ true)
unfolding verify_from
verify_step k i prev line rest e p h =
    ground (arith, eq_iff e.prev prev, eq_iff (entry_hash k e.seq e.prev e.event) e.hash)

pub verify_from_sound :
    (k : Codec) (i : ℕ) (prev : String) (ls : List String)
    → verify_from k i prev ls ≡ true
    → (es : List Entry) × Parses k ls es × Chained k i prev es
verify_from_sound k i prev [] h = ([], tt, tt)
verify_from_sound k i prev (line ∷ rest) h = elim (Option-cases (k.parse_entry line)) [
  | inl torn ↦ absurd (torn_line k i prev line rest torn h)
  | inr (e, parsed) ↦
      let (seq, before, hash, more) = verify_step k i prev line rest e parsed h in
      let (es, ps, cs) = verify_from_sound k (suc i) e.hash rest more in
      (e ∷ es, (parsed, ps), (seq, before, hash, cs))
]

pub verify_from_complete :
    (k : Codec) (i : ℕ) (prev : String) (ls : List String) (es : List Entry)
    → Parses k ls es
    → Chained k i prev es
    → verify_from k i prev ls ≡ true
unfolding verify_from
verify_from_complete k i prev [] [] p c = refl
verify_from_complete k i prev [] (e ∷ es) p c = absurd p
verify_from_complete k i prev (line ∷ rest) [] p c = absurd p
verify_from_complete k i prev (line ∷ rest) (e ∷ es) p c = ground (
  arith,
  eq_iff e.prev prev,
  eq_iff (entry_hash k e.seq e.prev e.event) e.hash,
  verify_from_complete k (suc i) e.hash rest es p.1 c.3,
)

pub resume_of_Parses :
    (k : Codec) (i : ℕ) (prev : String) (ls : List String) (es : List Entry)
    → Parses k ls es
    → Chained k i prev es
    → resume k ls prev (wrap64 i) ≡ ok (final_hash prev es, wrap64 (i + length es))
unfolding resume
resume_of_Parses k i prev [] [] p c = ground arith
resume_of_Parses k i prev [] (e ∷ es) p c = absurd p
resume_of_Parses k i prev (line ∷ rest) [] p c = absurd p
resume_of_Parses k i prev (line ∷ []) (e ∷ []) p c = ground arith
resume_of_Parses k i prev (line ∷ []) (e ∷ e' ∷ es) p c = absurd p.1
resume_of_Parses k i prev (line ∷ next ∷ rest) (e ∷ es) p c =
    ground (arith, resume_of_Parses k (suc i) e.hash (next ∷ rest) es p.1 c.3)

pub collect_of_Parses :
    (k : Codec) (ls : List String) (es : List Entry)
    → Parses k ls es
    → collect k ls ≡ ok (map (λ (e : Entry). e.event) es)
unfolding collect
collect_of_Parses k [] [] p = refl
collect_of_Parses k [] (e ∷ es) p = absurd p
collect_of_Parses k (line ∷ rest) [] p = absurd p
collect_of_Parses k (line ∷ []) (e ∷ []) p = ground arith
collect_of_Parses k (line ∷ []) (e ∷ e' ∷ es) p = absurd p.1
collect_of_Parses k (line ∷ next ∷ rest) (e ∷ es) p =
    ground (arith, collect_of_Parses k (next ∷ rest) es p.1)
