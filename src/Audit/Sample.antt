-- ===== src/Audit/Sample.antt =====
-- A JSON and a hash for the tests: each text is written as pairs of a tag and a character, so that a
-- record is one line; a digest is one character.
use Prim.Native.Char.{Char, code}
use text.Mathlib.TextEquality.{Char-path}
use secretagent_rust_agent.Base.{
  ℕ, zero, suc, ◌+◌, ◌%◌, String, ◌≡◌, refl, sym, ap, ◌∙◌, Option, none, some, List, [], ◌∷◌, arith,
  nat_eq, if◌then◌else◌, length, ◌==◌, Bool-cases, inl, inr,
}
use secretagent_rust_agent.Audit.{AuditEvent, Entry, Codec, IsLawful}
use text.Mathlib.TextLemmas.{nil-append, cons-append, cons-ne-nil}
use secretagent_rust_agent.Audit.Torn.{IsTorn}
use secretagent_rust_agent.Audit.Bytes.{as_bytes}
use secretagent_rust_agent.Audit.Bytes.Lines.{IsLine}

abbrev newline : Char
newline = "\n"

abbrev return : Char
return = "\r"

put_text : String → String → String
put_text String.[] rest = String.◌∷◌ "." (String.◌∷◌ "." rest)
put_text (String.◌∷◌ c s) rest =
    let more = put_text s rest in
    if nat_eq (code c) 10
    then String.◌∷◌ "n" (String.◌∷◌ "." more)
    else if nat_eq (code c) 13
    then String.◌∷◌ "r" (String.◌∷◌ "." more)
    else String.◌∷◌ "x" (String.◌∷◌ c more)

abbrev decode_char : Char → Char → Char
decode_char t c =
    if nat_eq (code t) b'n' then newline else if nat_eq (code t) b'r' then return else c

abbrev push_char : Char → Option (String × String) → Option (String × String)
push_char c none = none
push_char c (some (s, rest)) = some (String.◌∷◌ c s, rest)

get_text : String → Option (String × String)
get_text String.[] = none
get_text (String.◌∷◌ t String.[]) = none
get_text (String.◌∷◌ t (String.◌∷◌ c s)) =
    let more = get_text s in
    if nat_eq (code t) b'.' then some ("", s) else push_char (decode_char t c) more

get_text-put_text : (s rest : String) → get_text (put_text s rest) ≡ some (s, rest)
unfolding get_text put_text
get_text-put_text String.[] rest = refl
get_text-put_text (String.◌∷◌ c s) rest =
    ground (arith, Char-path c newline, Char-path c return, get_text-put_text s rest)

put_text-IsLine : (s rest : String) → IsLine rest → IsLine (put_text s rest)
unfolding put_text
put_text-IsLine String.[] rest h = ground arith
put_text-IsLine (String.◌∷◌ c s) rest h = ground (arith, put_text-IsLine s rest h)

put_nat : ℕ → String → String
put_nat zero rest = String.◌∷◌ ";" rest
put_nat (suc n) rest = String.◌∷◌ "i" (put_nat n rest)

abbrev bump : Option (ℕ × String) → Option (ℕ × String)
bump none = none
bump (some (n, rest)) = some (suc n, rest)

get_nat : String → Option (ℕ × String)
get_nat String.[] = none
get_nat (String.◌∷◌ c s) =
    let more = get_nat s in
    if nat_eq (code c) b';' then some (0, s) else if nat_eq (code c) b'i' then bump more else none

get_nat-put_nat : (n : ℕ) (rest : String) → get_nat (put_nat n rest) ≡ some (n, rest)
unfolding get_nat put_nat
get_nat-put_nat zero rest = refl
get_nat-put_nat (suc n) rest = ground (arith, get_nat-put_nat n rest)

put_nat-IsLine : (n : ℕ) (rest : String) → IsLine rest → IsLine (put_nat n rest)
unfolding put_nat
put_nat-IsLine zero rest h = ground arith
put_nat-IsLine (suc n) rest h = ground (arith, put_nat-IsLine n rest h)

put_optional : Option String → String → String
put_optional none rest = String.◌∷◌ "0" rest
put_optional (some s) rest = String.◌∷◌ "1" (put_text s rest)

abbrev as_some : Option (String × String) → Option (Option String × String)
as_some none = none
as_some (some (s, rest)) = some (some s, rest)

get_optional : String → Option (Option String × String)
get_optional String.[] = none
get_optional (String.◌∷◌ c s) =
    if nat_eq (code c) b'0' then some (none, s) else as_some (get_text s)

get_optional-put_optional :
    (o : Option String) (rest : String) → get_optional (put_optional o rest) ≡ some (o, rest)
unfolding get_optional put_optional
get_optional-put_optional none rest = refl
get_optional-put_optional (some s) rest = ground (arith, get_text-put_text s rest)

put_optional-IsLine :
    (o : Option String) (rest : String) → IsLine rest → IsLine (put_optional o rest)
unfolding put_optional
put_optional-IsLine none rest h = ground arith
put_optional-IsLine (some s) rest h = ground (arith, put_text-IsLine s rest h)

infixl 5 ◌>>=◌
abbrev ◌>>=◌ {ℓ κ} : {A : Type ℓ} {B : Type κ} → Option A → (A → Option B) → Option B
none >>= f = none
some a >>= f = f a

put_event : AuditEvent → String → String
put_event e rest = put_text e.action (put_text e.key_id (put_optional e.principal rest))

get_event : String → Option (AuditEvent × String)
get_event s = do
  (action, s₁) ← get_text s
  (key_id, s₂) ← get_text s₁
  (who, s₃) ← get_optional s₂
  some (record { action = action; key_id = key_id; principal = who }, s₃)

get_event-put_event :
    (e : AuditEvent) (rest : String) → get_event (put_event e rest) ≡ some (e, rest)
unfolding get_event put_event
get_event-put_event e rest = simp (get_text-put_text, get_optional-put_optional)

put_event-IsLine : (e : AuditEvent) (rest : String) → IsLine rest → IsLine (put_event e rest)
unfolding put_event
put_event-IsLine e rest h = put_text-IsLine _ _ (put_text-IsLine _ _ (put_optional-IsLine _ _ h))

put_entry : Entry → String
put_entry e =
    String.◌∷◌ "{" (put_nat e.seq (put_text e.prev (put_event e.event (put_text e.hash ""))))

get_fields : String → Option Entry
get_fields s = do
  (n, s₁) ← get_nat s
  (prev, s₂) ← get_text s₁
  (event, s₃) ← get_event s₂
  (hash, s₄) ← get_text s₃
  if s₄ == "" then some (record { seq = n; prev = prev; event = event; hash = hash }) else none

get_entry : String → Option Entry
unfolding get_fields
get_entry String.[] = none
get_entry (String.◌∷◌ c s) = if nat_eq (code c) b'{' then get_fields s else none

get_entry-put_entry : (e : Entry) → get_entry (put_entry e) ≡ some e
unfolding get_entry put_entry
get_entry-put_entry e = simp (get_nat-put_nat, get_text-put_text, get_event-put_event)

put_entry-IsLine : (e : Entry) → IsLine (put_entry e)
unfolding put_entry
put_entry-IsLine e = (
  omega arith,
  omega arith,
  put_nat-IsLine _ _ (put_text-IsLine _ _ (put_event-IsLine _ _ (put_text-IsLine _ _ tt))),
)

put_event_inj : (a b : AuditEvent) → put_event a "" ≡ put_event b "" → a ≡ b
put_event_inj a b h = cc (get_event-put_event a "", get_event-put_event b "", ap get_event h)

total : List ℕ → ℕ
total [] = 0
total (b ∷ bs) = b + total bs

digest : List ℕ → String
digest bytes = if nat_eq (total bytes % 2) 0 then "e" else "o"

digest_one : (x : List ℕ) → length (as_bytes (digest x)) ≡ 1
unfolding digest as_bytes
digest_one x = elim (Bool-cases (nat_eq (total x % 2) 0)) [ inl e ↦ rw e | inr e ↦ rw e ]

digest-length : (x y : List ℕ) → length (as_bytes (digest x)) ≡ length (as_bytes (digest y))
digest-length x y = digest_one x ∙ sym (digest_one y)

unfoldable pub sample : Codec
unfolding put_event put_entry get_entry digest get_event get_nat put_nat get_text put_text
    get_optional put_optional total
sample = record {
  event_json = λ e. put_event e "";
  entry_json = put_entry;
  parse_entry = get_entry;
  blake3 = digest;
}

pub sample-IsLawful : IsLawful sample
unfolding sample
sample-IsLawful = record {
  parse_entry-entry_json = get_entry-put_entry;
  entry_json-IsLine = put_entry-IsLine;
  event_json_inj = put_event_inj;
  digest_length = digest-length;
}

-- A record that the crash cut behind its first character.
pub IsTorn-fragment : IsTorn sample "{"
unfolding sample
IsTorn-fragment = record {
  line = omega arith;
  nonempty = cons-ne-nil _ _;
  broken = refl;
  glued = λ e. rw cons-append (rw nil-append refl);
}
