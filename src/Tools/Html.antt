-- ===== src/Tools/Html.antt =====
-- crates/sa-tools/src/tools/web_extract.rs: the readable text of a page. A search for a text goes
-- through the page character by character; `skip` counts the characters of a text that was found.
use Prim.Native.Char.{code}
use Prim.Native.String.{◌++◌ as text_append}
use secretagent_rust_agent.Base.{
  ℕ, zero, suc, ◌-◌, String, Bool, true, false, nat_eq, if◌then◌else◌, format, [], ◌∷◌,
}
use secretagent_rust_agent.Text.Ascii.{lower}
use secretagent_rust_agent.Text.Words.{char_count, join, split_whitespace}

-- The lowercased page begins with `pattern`.
unfoldable pub lower_begins : String → String → Bool
unfolding lower
lower_begins String.[] s = true
lower_begins (String.◌∷◌ p pattern) String.[] = false
lower_begins (String.◌∷◌ p pattern) (String.◌∷◌ c s) =
    let rest = lower_begins pattern s in if nat_eq (code p) (lower (code c)) then rest else false

unfoldable pub begins : String → String → Bool
begins String.[] s = true
begins (String.◌∷◌ p pattern) String.[] = false
begins (String.◌∷◌ p pattern) (String.◌∷◌ c s) =
    let rest = begins pattern s in if nat_eq (code p) (code c) then rest else false

-- Within a block, up to its end, or behind one with so many characters of its end to skip.
pub data Place : Type 0 where
  within : Place
  outside : ℕ → Place

abbrev pub open_tag : String → String
open_tag tag = format ("<" ∷ tag ∷ [])

abbrev pub close_tag : String → String
close_tag tag = format ("</" ∷ tag ∷ ">" ∷ [])

unfoldable pub remove_from : String → Place → String → String
unfolding lower_begins
remove_from tag place String.[] = ""
remove_from tag within (String.◌∷◌ c s) = elim (lower_begins (close_tag tag) (String.◌∷◌ c s)) [
  | true ↦ remove_from tag (outside (char_count (close_tag tag) - 1)) s
  | false ↦ remove_from tag within s
]
remove_from tag (outside (suc skip)) (String.◌∷◌ c s) = remove_from tag (outside skip) s
remove_from tag (outside zero) (String.◌∷◌ c s) =
    elim (lower_begins (open_tag tag) (String.◌∷◌ c s)) [
      | true ↦ remove_from tag within s
      | false ↦ String.◌∷◌ c (remove_from tag (outside 0) s)
    ]

unfoldable pub remove_block : String → String → String
unfolding remove_from
remove_block s tag = remove_from tag (outside 0) s

-- `str::replace` of a text that is not empty
unfoldable pub replace_from : ℕ → String → String → String → String
unfolding begins
replace_from skip from to String.[] = ""
replace_from (suc skip) from to (String.◌∷◌ c s) = replace_from skip from to s
replace_from zero from to (String.◌∷◌ c s) = elim (begins from (String.◌∷◌ c s)) [
  | true ↦ text_append to (replace_from (char_count from - 1) from to s)
  | false ↦ String.◌∷◌ c (replace_from 0 from to s)
]

abbrev pub replace : String → String → String → String
unfolding replace_from
replace from to s = replace_from 0 from to s

unfoldable pub strip_tags : Bool → String → String
strip_tags in_tag String.[] = ""
strip_tags in_tag (String.◌∷◌ c s) = elim (nat_eq (code c) b'<') [
  | true ↦ strip_tags true s
  | false ↦ elim (nat_eq (code c) b'>') [
    | true ↦ strip_tags false s
    | false ↦ let rest = strip_tags in_tag s in if in_tag then rest else String.◌∷◌ c rest
  ]
]

unfoldable pub decode_entities : String → String
unfolding replace
decode_entities s = replace "&amp;" "&" (
    replace "&#39;" "'"
      (replace "&quot;" "\"" (replace "&gt;" ">" (replace "&lt;" "<" (replace "&nbsp;" " " s)))))

unfoldable pub strip_html : String → String
unfolding remove_block strip_tags decode_entities join split_whitespace
strip_html html =
    let cleaned = remove_block (remove_block html "script") "style" in
    join " " (split_whitespace (decode_entities (strip_tags false cleaned)))
