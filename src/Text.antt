-- ===== src/Text.antt =====
-- What the program uses of Rust's `str` and `char`: segments after a separator, white space,
-- trimming and splitting. Texts are walked character by character.
pub mod Segments
pub mod Ascii
pub mod Words
use Prim.Native.Char.{Char, code}
use secretagent_rust_agent.Base.{
  ℕ, String, Bool, true, false, ◌&&◌, ◌||◌, Option, none, some, List, leb, nat_eq, unwrap_or,
  if◌then◌else◌,
}

-- The text behind the first character, if that is a `:`.
abbrev pub after_colon : String → Option String
after_colon String.[] = none
after_colon (String.◌∷◌ c s) = if nat_eq (code c) b':' then some s else none

-- The text behind a leading `::`.
abbrev pub after_colons : String → Option String
after_colons s = elim (after_colon s) [ none ↦ none | some r ↦ after_colon r ]

-- The text behind the rightmost `::`, where `rsplit("::")` cuts first.
unfoldable pub after_last : String → Option String
after_last String.[] = none
after_last (String.◌∷◌ c s) = elim (after_last s) [
  | some r ↦ some r
  | none ↦ after_colons (String.◌∷◌ c s)
]

-- `tool.rsplit("::").next().unwrap_or(tool)`
unfoldable pub bare_name : String → String
unfolding after_last
bare_name tool = unwrap_or (after_last tool) tool

-- `char::is_whitespace`, the Unicode property White_Space
abbrev pub is_whitespace : Char → Bool
is_whitespace ch =
    let c = code ch in
    leb 9 c && leb c 13
    || nat_eq c 32
    || nat_eq c 0x85
    || nat_eq c 0xA0
    || nat_eq c 0x1680
    || leb 0x2000 c && leb c 0x200A
    || nat_eq c 0x2028
    || nat_eq c 0x2029
    || nat_eq c 0x202F
    || nat_eq c 0x205F
    || nat_eq c 0x3000
