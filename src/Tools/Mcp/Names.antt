-- ===== src/Tools/Mcp/Names.antt =====
-- crates/sa-tools/src/mcp.rs: remote tools beside the tools of the program in the registry.
use Prim.Native.Char.{Char}
use text.Mathlib.TextLemmas.{nil-append, cons-append}
use secretagent_rust_agent.Base.{
  String, ◌≡◌, ◌≢◌, refl, [], ◌∷◌, none, some, inl, inr, Option-cases, format,
}
use secretagent_rust_agent.Text.{after_last}
use secretagent_rust_agent.Text.Segments.{namespaced}

after_last-cons :
    (c : Char) (s r : String) → after_last s ≡ some r → after_last (String.◌∷◌ c s) ≡ some r
unfolding after_last
after_last-cons c s r h = rw h refl

behind_colons :
    (t : String)
    → after_last (format (":" ∷ t ∷ [])) ≡ none
    → after_last (String.◌∷◌ ":" (format (":" ∷ t ∷ []))) ≡ some t
unfolding after_last
behind_colons t h = rw (h, after_last, cons-append, nil-append) refl

-- A name with a prefix has a segment behind it.
has_segment : (server t : String) → (r : String) × (after_last (namespaced server t) ≡ some r)
unfolding after_last
has_segment String.[] t = elim (Option-cases (after_last (format (":" ∷ t ∷ [])))) [
  | inl e ↦ (t, rw (nil-append, cons-append) (behind_colons t e))
  | inr (r, e) ↦ (r, rw (nil-append, cons-append) (after_last-cons ":" (format (":" ∷ t ∷ [])) r e))
]
has_segment (String.◌∷◌ c s) t =
    let (r, h) = has_segment s t in (r, rw cons-append (after_last-cons c (namespaced s t) r h))

-- A first-party name holds no `::`.
abbrev pub IsFirstParty : String → Type 0
IsFirstParty name = after_last name ≡ none

pub namespaced-other : (server t name : String) → IsFirstParty name → namespaced server t ≢ name
namespaced-other server t name plain same = let (r, h) = has_segment server t in cc (h, plain, same)
