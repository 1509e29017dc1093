-- ===== src/Audit.antt =====
-- crates/sa-audit/src/lib.rs: the hash-chained audit log. The file is its text; JSON (serde_json)
-- and the hash (blake3) are parameters.
pub mod Bytes
pub mod Chain
pub mod Log
pub mod Tamper
pub mod Torn
pub mod Sample
mod Tests
use Prim.Native.String.{◌++◌ as text_append}
use secretagent_rust_agent.Base.{
  ℕ, suc, ◌+◌, ◌%◌, ◌^◌, String, ◌≡◌, Bool, true, false, Option, none, some, List, [], ◌∷◌, ◌++◌,
  ◌==◌, nat_eq, length, if◌then◌else◌, not, Outcome, ok, err, ◌>>=◌, ◌||◌,
}
use secretagent_rust_agent.Audit.Bytes.{as_bytes, le_bytes, lines}
use secretagent_rust_agent.Audit.Bytes.Lines.{line_of, IsLine}

pub record AuditEvent : Type 0 where
  pub action : String
  pub key_id : String
  pub principal : Option String

pub record Entry : Type 0 where
  pub seq : ℕ
  pub prev : String
  pub event : AuditEvent
  pub hash : String

-- serde_json on the two records, and blake3 with its digest in hexadecimal.
pub record Codec : Type 0 where
  pub event_json : AuditEvent → String
  pub entry_json : Entry → String
  pub parse_entry : String → Option Entry
  pub blake3 : List ℕ → String

-- What the log relies on: serialisation round-trips on one line, events are told apart by their
-- JSON, and every digest has the same length.
pub record IsLawful (k : Codec) : Type 0 where
  pub parse_entry-entry_json : (e : Entry) → k.parse_entry (k.entry_json e) ≡ some e
  pub entry_json-IsLine : (e : Entry) → IsLine (k.entry_json e)
  pub event_json_inj : (a b : AuditEvent) → k.event_json a ≡ k.event_json b → a ≡ b
  pub digest_length :
      (x y : List ℕ) → length (as_bytes (k.blake3 x)) ≡ length (as_bytes (k.blake3 y))

-- The handle: the text of its file, and the state that the next record is chained to.
pub record Audit : Type 0 where
  pub content : String
  pub last_hash : String
  pub seq : ℕ

-- a `u64` that wraps around
abbrev pub wrap64 : ℕ → ℕ
wrap64 n = n % 2 ^ 64

-- The bytes that `entry_hash` feeds to the hasher.
unfoldable pub hash_input : Codec → ℕ → String → AuditEvent → List ℕ
hash_input k seq prev event = le_bytes 8 seq ++ (as_bytes prev ++ as_bytes (k.event_json event))

unfoldable pub entry_hash : Codec → ℕ → String → AuditEvent → String
unfolding hash_input
entry_hash k seq prev event = k.blake3 (hash_input k seq prev event)

-- The loop of `open`: the state behind the last line that parses. Only the last line may be torn.
unfoldable pub resume : Codec → List String → String → ℕ → Outcome (String × ℕ)
resume k [] last n = ok (last, n)
resume k (line ∷ []) last n = elim (k.parse_entry line) [
  | none ↦ ok (last, n)
  | some e ↦ ok (e.hash, wrap64 (e.seq + 1))
]
resume k (line ∷ next ∷ rest) last n = elim (k.parse_entry line) [
  | none ↦ err "malformed entry"
  | some e ↦ resume k (next ∷ rest) e.hash (wrap64 (e.seq + 1))
]

-- `none` is a file that is not there.
unfoldable pub open_log : Codec → Option String → Outcome Audit
unfolding resume
open_log k none = ok (record { content = ""; last_hash = ""; seq = 0 })
open_log k (some text) = do
  (last, n) ← resume k (lines text) "" 0
  ok (record { content = text; last_hash = last; seq = n })

abbrev pub next_entry : Codec → Audit → AuditEvent → Entry
next_entry k a event = record {
  seq = a.seq;
  prev = a.last_hash;
  event = event;
  hash = entry_hash k a.seq a.last_hash event;
}

-- The first characters of a text.
abbrev pub text_take : ℕ → String → String
text_take ℕ.zero s = ""
text_take (ℕ.suc n) String.[] = ""
text_take (ℕ.suc n) (String.◌∷◌ c s) = String.◌∷◌ c (text_take n s)

-- How the write of a line ends: in full, or with an error behind the first characters.
pub data Write : Type 0 where
  full : Write
  torn : ℕ → Write

unfoldable pub append : Codec → Write → Audit → AuditEvent → Audit × Outcome (Unit {0})
unfolding line_of entry_hash
append k full a event = (
  record {
    content = text_append a.content (line_of (k.entry_json (next_entry k a event)));
    last_hash = entry_hash k a.seq a.last_hash event;
    seq = wrap64 (a.seq + 1);
  },
  ok tt,
)
append k (torn n) a event = (
  record a {
    content = text_append a.content (text_take n (line_of (k.entry_json (next_entry k a event))));
  },
  err "write failed",
)

-- The flag is the success of `sync_all`.
unfoldable pub append_synced :
    Codec → Write → Bool → Audit → AuditEvent → Audit × Outcome (Unit {0})
unfolding append
append_synced k w synced a event =
    let (a', written) = append k w a event in
    (a', (written >>= λ _. if synced then ok tt else err "sync failed"))

-- The loop of `verify_chain` from line `i` on.
unfoldable pub verify_from : Codec → ℕ → String → List String → Bool
unfolding entry_hash
verify_from k i prev [] = true
verify_from k i prev (line ∷ rest) = elim (k.parse_entry line) [
  | none ↦ false
  | some e ↦
      if not (nat_eq e.seq (wrap64 i)) || not (e.prev == prev)
      then false
      else if not (entry_hash k e.seq e.prev e.event == e.hash)
      then false
      else verify_from k (suc i) e.hash rest
]

unfoldable pub verify_chain : Codec → String → Bool
unfolding verify_from
verify_chain k text = verify_from k 0 "" (lines text)

unfoldable pub collect : Codec → List String → Outcome (List AuditEvent)
collect k [] = ok []
collect k (line ∷ []) = elim (k.parse_entry line) [ none ↦ ok [] | some e ↦ ok (e.event ∷ []) ]
collect k (line ∷ next ∷ rest) = elim (k.parse_entry line) [
  | none ↦ err "malformed entry"
  | some e ↦ collect k (next ∷ rest) >>= λ events. ok (e.event ∷ events)
]

unfoldable pub read_events : Codec → Option String → Outcome (List AuditEvent)
unfolding collect
read_events k none = ok []
read_events k (some text) = collect k (lines text)
