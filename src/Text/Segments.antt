-- ===== src/Text/Segments.antt =====
-- The last segment of a namespaced tool name.
use text.Mathlib.TextLemmas.{nil-append, cons-append}
use secretagent_rust_agent.Base.{
  String, ◌≡◌, none, some, arith, format, Option-cases, [], ◌∷◌, inl, inr,
}
use secretagent_rust_agent.Text.{after_colon, after_last, bare_name}

after_last_behind_colon :
    (s r : String) → after_last s ≡ none → after_colon s ≡ some r → after_last r ≡ none
unfolding after_last
after_last_behind_colon String.[] r e h = cc
after_last_behind_colon (String.◌∷◌ c s) r e h = ground arith

after_last_idem : (s r : String) → after_last s ≡ some r → after_last r ≡ none
unfolding after_last
after_last_idem String.[] r h = cc
after_last_idem (String.◌∷◌ c s) r h = elim (Option-cases (after_last s)) [
  | inl e ↦ ground (arith, after_last_behind_colon s r e)
  | inr (r', e) ↦ ground (arith, after_last_idem s r)
]

-- Taking the bare name a second time changes nothing.
pub bare_name_idem : (s : String) → bare_name (bare_name s) ≡ bare_name s
unfolding bare_name
bare_name_idem s = elim (Option-cases (after_last s)) [
  | inl e ↦ rw (e, e)
  | inr (r, e) ↦ rw (e, after_last_idem s r e)
]

-- A name in a server's namespace.
abbrev pub namespaced : String → String → String
namespaced server tool = format (server ∷ "::" ∷ tool ∷ [])

after_last_colons :
    (t : String) → after_colon t ≡ none → after_last (format ("::" ∷ t ∷ [])) ≡ some (bare_name t)
unfolding after_last bare_name
after_last_colons t h = rw (cons-append, cons-append, nil-append) (ground arith)

after_last-namespaced :
    (server t : String)
    → after_colon t ≡ none
    → after_last (namespaced server t) ≡ some (bare_name t)
unfolding after_last
after_last-namespaced String.[] t h = rw nil-append (after_last_colons t h)
after_last-namespaced (String.◌∷◌ c s) t h =
    rw cons-append (rw (after_last-namespaced s t h, after_last))

pub bare_name-namespaced :
    (server t : String) → after_colon t ≡ none → bare_name (namespaced server t) ≡ bare_name t
unfolding bare_name
bare_name-namespaced server t h = rw (after_last-namespaced server t h)
