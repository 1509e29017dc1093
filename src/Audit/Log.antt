-- ===== src/Audit/Log.antt =====
-- Appending, reopening, verifying and reading the log back agree.
use secretagent_rust_agent.Base.{
  ℕ, suc, ◌+◌, String, ◌≡◌, refl, sym, ap, ◌∙◌, true, none, some, List, [], ◌∷◌, ◌++◌, map,
  map-append, arith, length, length-append, ok, append_assoc, append-nil,
}
use secretagent_rust_agent.Audit.{
  AuditEvent, Entry, Codec, IsLawful, Audit, wrap64, entry_hash, open_log, full, append, next_entry,
  verify_chain, read_events,
}
use secretagent_rust_agent.Audit.Bytes.{lines}
use secretagent_rust_agent.Audit.Bytes.Lines.{
  IsTerminated, line_of, lines-line_of, lines-append, line_of-IsTerminated, append-IsTerminated,
}
use secretagent_rust_agent.Audit.Chain.{
  Chained, final_hash, Parses, verify_from_complete, resume_of_Parses, collect_of_Parses,
}

-- The handle is in step with a file of complete, chained lines for the given events.
pub record IsSound (k : Codec) (a : Audit) (events : List AuditEvent) : Type 0 where
  pub entries : List Entry
  pub terminated : IsTerminated a.content
  pub parses : Parses k (lines a.content) entries
  pub chained : Chained k 0 "" entries
  pub last : a.last_hash ≡ final_hash "" entries
  pub next : a.seq ≡ wrap64 (length entries)
  pub recorded : map (λ (e : Entry). e.event) entries ≡ events

Parses-append :
    (k : Codec) (ls ms : List String) (es fs : List Entry)
    → Parses k ls es
    → Parses k ms fs
    → Parses k (ls ++ ms) (es ++ fs)
Parses-append k [] ms [] fs p q = q
Parses-append k [] ms (e ∷ es) fs p q = absurd p
Parses-append k (l ∷ ls) ms [] fs p q = absurd p
Parses-append k (l ∷ ls) ms (e ∷ es) fs p q = (p.0, Parses-append k ls ms es fs p.1 q)

Chained-append :
    (k : Codec) (i : ℕ) (prev : String) (es : List Entry) (e : Entry)
    → Chained k i prev es
    → e.seq ≡ wrap64 (i + length es)
    → e.prev ≡ final_hash prev es
    → e.hash ≡ entry_hash k e.seq e.prev e.event
    → Chained k i prev (es ++ e ∷ [])
Chained-append k i prev [] e c s p h = (omega arith, p, h, tt)
Chained-append k i prev (x ∷ es) e c s p h =
    (c.0, c.1, c.2, Chained-append k (suc i) x.hash es e c.3 (omega arith) p h)

final_hash-append :
    (prev : String) (es : List Entry) (e : Entry) → final_hash prev (es ++ e ∷ []) ≡ e.hash
final_hash-append prev [] e = refl
final_hash-append prev (x ∷ es) e = final_hash-append x.hash es e

-- A full write keeps the handle in step, with the event recorded last.
pub append-IsSound :
    (k : Codec)
    → IsLawful k
    → (a : Audit) (events : List AuditEvent) (event : AuditEvent) → IsSound k a events
    → IsSound k (append k full a event).0 (events ++ event ∷ [])
unfolding append
append-IsSound k law a events event s =
    let e = next_entry k a event in
    let line = k.entry_json e in
    let split =
      lines-append a.content (line_of line) s.terminated
      ∙ ap (λ ls. lines a.content ++ ls) (lines-line_of line (law.entry_json-IsLine e)) in
    record {
      entries = s.entries ++ e ∷ [];
      terminated =
          append-IsTerminated a.content (line_of line) s.terminated (line_of-IsTerminated line);
      parses = rw split (
          Parses-append k (lines a.content) (line ∷ []) s.entries (e ∷ []) s.parses
            (law.parse_entry-entry_json e, tt));
      chained = Chained-append k 0 "" s.entries e s.chained (omega (arith, s.next)) s.last refl;
      last = sym (final_hash-append "" s.entries e);
      next = omega (arith, s.next, length-append s.entries (e ∷ []));
      recorded = map-append _ s.entries (e ∷ []) ∙ ap (λ es. es ++ event ∷ []) s.recorded;
    }

-- The appends of a process, each written in full.
unfoldable pub append_all : Codec → Audit → List AuditEvent → Audit
append_all k a [] = a
append_all k a (event ∷ events) = append_all k (append k full a event).0 events

append_all-IsSound :
    (k : Codec)
    → IsLawful k
    → (a : Audit) (before events : List AuditEvent) → IsSound k a before
    → IsSound k (append_all k a events) (before ++ events)
unfolding append_all
append_all-IsSound k law a before [] s = rw append-nil s
append_all-IsSound k law a before (event ∷ events) s =
    rw (append_assoc before (event ∷ []) events) at (
      append_all-IsSound k law (append k full a event).0 (before ++ event ∷ []) events
        (append-IsSound k law a before event s))

-- What a reader finds in the file of a handle that is in step.
pub record ReadsBack (k : Codec) (a : Audit) (events : List AuditEvent) : Type 0 where
  pub verified : verify_chain k a.content ≡ true
  pub reopened : open_log k (some a.content) ≡ ok a
  pub events_read : read_events k (some a.content) ≡ ok events

pub IsSound-ReadsBack :
    (k : Codec) (a : Audit) (events : List AuditEvent) → IsSound k a events → ReadsBack k a events
unfolding verify_chain open_log read_events
IsSound-ReadsBack k a events s = record {
  verified = verify_from_complete k 0 "" (lines a.content) s.entries s.parses s.chained;
  reopened = ground (
    arith,
    resume_of_Parses k 0 "" (lines a.content) s.entries s.parses s.chained,
    s.last,
    s.next,
  );
  events_read = collect_of_Parses k (lines a.content) s.entries s.parses ∙ ap ok s.recorded;
}

-- The handle that `open` gives for a file that is not there.
abbrev pub new_log : Audit
new_log = record { content = ""; last_hash = ""; seq = 0 }

pub new_log-IsSound : (k : Codec) → IsSound k new_log []
unfolding lines
new_log-IsSound k = record {
  entries = [];
  terminated = tt;
  parses = tt;
  chained = tt;
  last = refl;
  next = refl;
  recorded = refl;
}

-- With lawful JSON and hash, opening a log that is not there and appending any events leaves a file
-- whose chain verifies, from which a restart resumes with exactly the state of the running process,
-- and from which the events are read back in order.
pub append_all-ReadsBack :
    (k : Codec) (events : List AuditEvent)
    → IsLawful k
    → (open_log k none ≡ ok new_log) × ReadsBack k (append_all k new_log events) events
unfolding open_log
append_all-ReadsBack k events law = (
  refl,
  IsSound-ReadsBack k _ events (append_all-IsSound k law new_log [] events (new_log-IsSound k)),
)
