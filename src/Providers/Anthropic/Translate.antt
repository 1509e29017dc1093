-- ===== src/Providers/Anthropic/Translate.antt =====
-- crates/sa-providers/src/anthropic.rs: what `translate` keeps of the messages of a run.
use secretagent_rust_agent.Base.{
  String, ◌≡◌, sym, ap, ◌∙◌, List, [], ◌∷◌, ◌++◌, Option, none, Bool-cases, inl, inr, ◌==◌,
  append_assoc, append-nil, All,
}
use secretagent_rust_agent.Json.{Json, IsLawful, str_or}
use secretagent_rust_agent.Providers.Anthropic.{
  translate_one, translate_from, translate, push_block,
}
use secretagent_rust_agent.Providers.Anthropic.Turns.{
  AlternatesFrom, turns, block_of, blocks_of, IsBuilt, push_any,
}

module _ (j : Json) (law : IsLawful j) where
  open j use {Value}

  record Grows (out next : List Value) (extra : List (String × Value)) : Type 0 where
    built : All (IsBuilt j) next
    alternates : AlternatesFrom j none next
    grows : turns j next ≡ turns j out ++ extra

  unchanged :
      (out : List Value) → All (IsBuilt j) out → AlternatesFrom j none out → Grows out out []
  unchanged out b a = record { built = b; alternates = a; grows = sym (append-nil (turns j out)) }

  pushed :
      (out : List Value) (role : String) (block : Value)
      → All (IsBuilt j) out
      → AlternatesFrom j none out
      → Grows out (push_block j out role block) ((role, block) ∷ [])
  pushed out role block b a =
      let p = push_any j law out role block b a in
      record { built = p.built; alternates = p.alternates; grows = p.adds }

  translate_one-Grows :
      (system : Option String) (out : List Value) (m : Value)
      → All (IsBuilt j) out
      → AlternatesFrom j none out
      → Grows out (translate_one j (system, out) m).1 (block_of j m)
  unfolding translate_one block_of
  translate_one-Grows system out m b a =
      let role = str_or j "" m "role" in
      elim (Bool-cases (role == "system")) [
        | inl s ↦ rw s (unchanged out b a)
        | inr s ↦ elim (Bool-cases (role == "assistant")) [
          | inl e ↦ rw (s, e) (pushed out "assistant" _ b a)
          | inr e ↦ elim (Bool-cases (role == "tool")) [
            | inl t ↦ rw (s, e, t) (pushed out "user" _ b a)
            | inr t ↦ rw (s, e, t) (pushed out "user" _ b a)
          ]
        ]
      ]

  translate_from-Grows :
      (state : Option String × List Value) (messages : List Value)
      → All (IsBuilt j) state.1
      → AlternatesFrom j none state.1
      → Grows state.1 (translate_from j state messages).1 (blocks_of j messages)
  unfolding translate_from blocks_of
  translate_from-Grows state [] b a = unchanged state.1 b a
  translate_from-Grows state (m ∷ messages) b a =
      let one = translate_one-Grows state.0 state.1 m b a in
      let rest = translate_from-Grows (translate_one j state m) messages one.built one.alternates in
      record {
        built = rest.built;
        alternates = rest.alternates;
        grows =
            rest.grows
            ∙ ap (λ ts. ts ++ blocks_of j messages) one.grows
            ∙ append_assoc (turns j state.1) (block_of j m) (blocks_of j messages);
      }

  -- Whatever messages a run holds, every message sent to the API has a role, and no two neighbours
  -- have the same one: a lawful JSON assumed.
  pub translate-AlternatesFrom :
      (messages : List Value) → AlternatesFrom j none (translate j messages).1
  unfolding translate
  translate-AlternatesFrom messages = (translate_from-Grows (none, []) messages tt tt).alternates

  -- The messages sent to the API hold the blocks of all messages that are not system messages, each
  -- once, in their order and under its role: a lawful JSON assumed.
  pub turns-translate :
      (messages : List Value) → turns j (translate j messages).1 ≡ blocks_of j messages
  unfolding translate
  turns-translate messages = (translate_from-Grows (none, []) messages tt tt).grows
