-- ===== src/Connectors.antt =====
-- crates/sa-connectors/src/lib.rs: the messages of connectors, and what may be sent as a reply.
pub mod Received
pub mod Slack
pub mod Telegram
pub mod Discord
pub mod Email
use secretagent_rust_agent.Base.{
  ℕ, zero, suc, ◌≤◌, ◌<◌, String, ◌≡◌, refl, Bool, true, false, if◌then◌else◌, ltb, arith,
  Bool-cases, inl, inr,
}
use secretagent_rust_agent.Text.Words.{is_empty, trim, char_count, take_chars}

pub record InboundMsg : Type 0 where
  pub connector : String
  pub sender : String
  pub chat : String
  pub text : String

pub record OutboundMsg : Type 0 where
  pub chat : String
  pub text : String

abbrev pub empty_reply_fallback : String
empty_reply_fallback = "(the agent returned an empty reply)"

unfoldable pub clamp_reply : String → ℕ → String
clamp_reply text max_chars =
    if is_empty (trim text)
    then empty_reply_fallback
    else if ltb max_chars (char_count text)
    then take_chars max_chars text
    else text

char_count-take_chars : (n : ℕ) (s : String) → char_count (take_chars n s) ≤ n
char_count-take_chars zero String.[] = omega arith
char_count-take_chars zero (String.◌∷◌ c s) = omega arith
char_count-take_chars (suc n) String.[] = omega arith
char_count-take_chars (suc n) (String.◌∷◌ c s) = omega (arith, char_count-take_chars n s)

fallback_length : char_count empty_reply_fallback ≡ 35
fallback_length = refl

-- A reply that is sent has at most `max_chars` characters, for every limit that leaves room for the
-- 35 characters of the fallback.
pub clamp_reply_bound :
    (text : String) (max_chars : ℕ)
    → 35 ≤ max_chars
    → char_count (clamp_reply text max_chars) ≤ max_chars
unfolding clamp_reply
clamp_reply_bound text max_chars h = elim (Bool-cases (is_empty (trim text))) [
  | inl e ↦ rw e (omega (arith, fallback_length, h))
  | inr e ↦ elim (Bool-cases (ltb max_chars (char_count text))) [
    | inl l ↦ rw (e, l) (char_count-take_chars max_chars text)
    | inr l ↦ rw (e, l) (ground (arith, l))
  ]
]
