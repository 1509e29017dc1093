-- ===== src/Audit/Torn.antt =====
-- A log whose last line was torn by a crash, after the restart.
use Prim.Native.String.{◌++◌ as text_append}
use text.Mathlib.TextLemmas.{append_assoc as text_append_assoc, nil-append, cons-append}
use mathlib.Core.Path.{ap₂}
use secretagent_rust_agent.Base.{
  ℕ, suc, ◌+◌, String, ◌≡◌, sym, ap, ◌∙◌, ◌≢◌, inl, inr, none, some, List, [], ◌∷◌, ◌++◌, map,
  arith, length, ok, err, Option-cases, append_assoc, ◌≡⟨◌⟩◌, ◌∎,
}
use secretagent_rust_agent.Audit.{
  AuditEvent, Entry, Codec, IsLawful, Audit, wrap64, resume, open_log, full, append, next_entry,
  collect, read_events,
}
use secretagent_rust_agent.Audit.Bytes.{lines}
use secretagent_rust_agent.Audit.Bytes.Lines.{
  IsLine, IsTerminated, line_of, lines-line_of, lines_of_IsLine, lines-append, line_of-IsTerminated,
  append-IsTerminated,
}
use secretagent_rust_agent.Audit.Log.{IsSound}
use secretagent_rust_agent.Audit.Chain.{Chained, final_hash, Parses}

-- A torn line: no JSON by itself, and none with a whole record glued to it.
pub record IsTorn (k : Codec) (fragment : String) : Type 0 where
  pub line : IsLine fragment
  pub nonempty : fragment ≢ ""
  pub broken : k.parse_entry fragment ≡ none
  pub glued : (e : Entry) → k.parse_entry (text_append fragment (k.entry_json e)) ≡ none

resume-torn :
    (k : Codec) (i : ℕ) (prev fragment : String) (ls : List String) (es : List Entry)
    → Parses k ls es
    → Chained k i prev es
    → k.parse_entry fragment ≡ none
    → resume k (ls ++ fragment ∷ []) prev (wrap64 i)
      ≡ ok (final_hash prev es, wrap64 (i + length es))
unfolding resume
resume-torn k i prev fragment [] [] p c b = ground arith
resume-torn k i prev fragment [] (e ∷ es) p c b = absurd p
resume-torn k i prev fragment (l ∷ ls) [] p c b = absurd p
resume-torn k i prev fragment (l ∷ []) (e ∷ []) p c b = ground arith
resume-torn k i prev fragment (l ∷ []) (e ∷ e' ∷ es) p c b = absurd p.1
resume-torn k i prev fragment (l ∷ l' ∷ ls) (e ∷ es) p c b =
    ground (arith, resume-torn k (suc i) e.hash fragment (l' ∷ ls) es p.1 c.3 b)

resume_poisoned :
    (k : Codec) (prev : String) (n : ℕ) (ls : List String) (bad after : String)
    → k.parse_entry bad ≡ none
    → resume k (ls ++ bad ∷ after ∷ []) prev n ≡ err "malformed entry"
unfolding resume
resume_poisoned k prev n [] bad after b = ground arith
resume_poisoned k prev n (l ∷ []) bad after b = elim (Option-cases (k.parse_entry l)) [
  | inl gone ↦ ground arith
  | inr (e, parsed) ↦ ground arith
]
resume_poisoned k prev n (l ∷ l' ∷ ls) bad after b = elim (Option-cases (k.parse_entry l)) [
  | inl gone ↦ ground arith
  | inr (e, parsed) ↦
      ground (arith, resume_poisoned k e.hash (wrap64 (e.seq + 1)) (l' ∷ ls) bad after b)
]

collect_poisoned :
    (k : Codec) (ls : List String) (bad after : String)
    → k.parse_entry bad ≡ none
    → collect k (ls ++ bad ∷ after ∷ []) ≡ err "malformed entry"
unfolding collect
collect_poisoned k [] bad after b = ground arith
collect_poisoned k (l ∷ []) bad after b = elim (Option-cases (k.parse_entry l)) [
  | inl gone ↦ ground arith
  | inr (e, parsed) ↦ ground arith
]
collect_poisoned k (l ∷ l' ∷ ls) bad after b = elim (Option-cases (k.parse_entry l)) [
  | inl gone ↦ ground arith
  | inr (e, parsed) ↦ ground (arith, collect_poisoned k (l' ∷ ls) bad after b)
]

collect-torn :
    (k : Codec) (fragment : String) (ls : List String) (es : List Entry)
    → Parses k ls es
    → k.parse_entry fragment ≡ none
    → collect k (ls ++ fragment ∷ []) ≡ ok (map (λ (e : Entry). e.event) es)
unfolding collect
collect-torn k fragment [] [] p b = ground arith
collect-torn k fragment [] (e ∷ es) p b = absurd p
collect-torn k fragment (l ∷ ls) [] p b = absurd p
collect-torn k fragment (l ∷ []) (e ∷ []) p b = ground arith
collect-torn k fragment (l ∷ []) (e ∷ e' ∷ es) p b = absurd p.1
collect-torn k fragment (l ∷ l' ∷ ls) (e ∷ es) p b =
    ground (arith, collect-torn k fragment (l' ∷ ls) es p.1 b)

-- The handle of a restart behind a torn line.
abbrev pub torn_log : Audit → String → Audit
torn_log a fragment = record a { content = text_append a.content fragment }

torn_lines :
    (k : Codec) (a : Audit) (events : List AuditEvent) (fragment : String)
    → IsSound k a events
    → IsTorn k fragment
    → lines (torn_log a fragment).content ≡ lines a.content ++ fragment ∷ []
torn_lines k a events fragment s t =
    lines-append a.content fragment s.terminated
    ∙ ap (λ ls. lines a.content ++ ls) (lines_of_IsLine fragment t.line t.nonempty)

-- A torn last line behind a sound log is tolerated: a restart resumes the
-- chain of the complete lines, and a reader gets their events.
pub torn_tolerated :
    (k : Codec) (a : Audit) (events : List AuditEvent) (fragment : String)
    → IsSound k a events
    → IsTorn k fragment
    → (open_log k (some (torn_log a fragment).content) ≡ ok (torn_log a fragment))
      × (read_events k (some (torn_log a fragment).content) ≡ ok events)
unfolding open_log read_events
torn_tolerated k a events fragment s t = (
  rw (torn_lines k a events fragment s t) (
      rw (resume-torn k 0 "" fragment (lines a.content) s.entries s.parses s.chained t.broken)
        (ground (arith, s.last, s.next))),
  rw (torn_lines k a events fragment s t)
      (collect-torn k fragment (lines a.content) s.entries s.parses t.broken ∙ ap ok s.recorded),
)

IsLine-append : (s t : String) → IsLine s → IsLine t → IsLine (text_append s t)
IsLine-append String.[] t h k = rw nil-append k
IsLine-append (String.◌∷◌ c s) t (p, q, h) k = rw cons-append (p, q, IsLine-append s t h k)

glue :
    (c f j : String)
    → text_append (text_append c f) (line_of j) ≡ text_append c (line_of (text_append f j))
unfolding line_of
glue c f j =
    text_append_assoc c f (text_append j "\n")
    ∙ ap (text_append c) (sym (text_append_assoc f j "\n"))

-- A complete text, a fragment, and two lines.
lines-glued :
    (c f j j' : String)
    → IsTerminated c
    → IsLine f
    → IsLine j
    → IsLine j'
    → lines (text_append (text_append (text_append c f) (line_of j)) (line_of j'))
      ≡ lines c ++ text_append f j ∷ j' ∷ []
lines-glued c f j j' tc lf lj lj' =
    lines (text_append (text_append (text_append c f) (line_of j)) (line_of j'))
    ≡⟨ ap (λ x. lines (text_append x (line_of j'))) (glue c f j) ⟩
      lines (text_append (text_append c (line_of (text_append f j))) (line_of j'))
    ≡⟨ lines-append _ (line_of j')
        (append-IsTerminated c _ tc (line_of-IsTerminated (text_append f j))) ⟩
      lines (text_append c (line_of (text_append f j))) ++ lines (line_of j')
    ≡⟨ ap₂ ◌++◌ (lines-append c _ tc) (lines-line_of j' lj') ⟩
      (lines c ++ lines (line_of (text_append f j))) ++ j' ∷ []
    ≡⟨ ap (λ x. (lines c ++ x) ++ j' ∷ []) (lines-line_of _ (IsLine-append f j lf lj)) ⟩
      (lines c ++ text_append f j ∷ []) ++ j' ∷ []
    ≡⟨ append_assoc (lines c) _ _ ⟩ lines c ++ text_append f j ∷ j' ∷ [] ∎

-- The file after two more records: the first is glued to the fragment.
glued_lines :
    (k : Codec)
    → IsLawful k
    → (a : Audit) (events : List AuditEvent) (fragment : String) (one two : AuditEvent)
    → IsSound k a events
    → IsTorn k fragment
    → (second : String) × (lines
          (append k full (append k full (torn_log a fragment) one).0 two).0.content
        ≡ lines a.content
          ++ text_append fragment (k.entry_json (next_entry k (torn_log a fragment) one))
            ∷ second
            ∷ [])
unfolding append
glued_lines k law a events fragment one two s t = (
  _,
  lines-glued a.content fragment (k.entry_json (next_entry k (torn_log a fragment) one))
      (k.entry_json (next_entry k (append k full (torn_log a fragment) one).0 two)) s.terminated
      t.line (law.entry_json-IsLine _) (law.entry_json-IsLine _),
)

-- With lawful JSON and hash, two more records behind a torn line that follows a sound log make the log
-- unreadable: the next restart fails, and so does a reader.
pub torn_then_two_appends :
    (k : Codec) (a : Audit) (events : List AuditEvent) (fragment : String) (one two : AuditEvent)
    → IsLawful k
    → IsSound k a events
    → IsTorn k fragment
    → let b = (append k full (append k full (torn_log a fragment) one).0 two).0 in
      (open_log k (some b.content) ≡ err "malformed entry")
      × (read_events k (some b.content) ≡ err "malformed entry")
unfolding open_log read_events
torn_then_two_appends k a events fragment one two law s t =
    let (second, e) = glued_lines k law a events fragment one two s t in
    let bad = t.glued (next_entry k (torn_log a fragment) one) in
    (
      rw e (rw (resume_poisoned k "" 0 (lines a.content) _ second bad)),
      rw e (collect_poisoned k (lines a.content) _ second bad),
    )
