-- ===== src/Providers/OpenAi/Chunks.antt =====
-- crates/sa-providers/src/openai.rs: the stream of a reply and the chunks it comes in.
use Prim.Native.Char.{Char, code}
use Prim.Native.String.{◌++◌ as text_append}
use text.Mathlib.TextLemmas.{nil-append, cons-append, append-nil, append_assoc}
use secretagent_rust_agent.Base.{
  String, ◌≡◌, refl, sym, ap, ◌∙◌, true, false, List, [], ◌∷◌, ◌++◌, map, Outcome, ok, Bool-cases,
  inl, inr, nat_eq, Option, none, some, format,
}
use secretagent_rust_agent.Json.{Json}
use secretagent_rust_agent.Providers.OpenAi.{
  drain_lines, deltas_of, stream_from, yielded, parse_sse_line,
}
use secretagent_rust_agent.Text.Words.{trim_end}

drain_newline :
    (line : String) (c : Char) (s : String)
    → nat_eq (code c) 10 ≡ true
    → drain_lines line (String.◌∷◌ c s)
      ≡ (text_append line (String.◌∷◌ c "") ∷ (drain_lines "" s).0, (drain_lines "" s).1)
unfolding drain_lines
drain_newline line c s e = rw (e, drain_lines) refl

drain_char :
    (line : String) (c : Char) (s : String)
    → nat_eq (code c) 10 ≡ false
    → drain_lines line (String.◌∷◌ c s) ≡ drain_lines (text_append line (String.◌∷◌ c "")) s
unfolding drain_lines
drain_char line c s e = rw (e, drain_lines) refl

-- Lines taken from a text in two parts are those taken from the whole.
drain_lines-append :
    (line s t : String)
    → drain_lines line (text_append s t) ≡ (
      (drain_lines line s).0 ++ (drain_lines (drain_lines line s).1 t).0,
      (drain_lines (drain_lines line s).1 t).1,
    )
unfolding drain_lines
drain_lines-append line String.[] t = rw nil-append refl
drain_lines-append line (String.◌∷◌ c s) t = elim (Bool-cases (nat_eq (code c) 10)) [
  | inl e ↦
      rw
        (
          cons-append,
          drain_newline line c s e,
          drain_newline line c (text_append s t) e,
          drain_lines-append "" s t,
        )
        refl
  | inr e ↦
      rw (cons-append, drain_char line c s e, drain_char line c (text_append s t) e)
        (drain_lines-append (text_append line (String.◌∷◌ c "")) s t)
]

-- What is left behind the last newline holds none.
rest-drain_lines :
    (line s : String)
    → drain_lines "" line ≡ ([], line)
    → drain_lines "" (drain_lines line s).1 ≡ ([], (drain_lines line s).1)
unfolding drain_lines
rest-drain_lines line String.[] h = h
rest-drain_lines line (String.◌∷◌ c s) h = elim (Bool-cases (nat_eq (code c) 10)) [
  | inl e ↦ rw (drain_newline line c s e) (rest-drain_lines "" s refl)
  | inr e ↦ rw (drain_char line c s e) (
      rest-drain_lines (text_append line (String.◌∷◌ c "")) s
        (drain_lines-append "" line (String.◌∷◌ c "") ∙ rw h (drain_char line c "" e)))
]

drain_lines-rest :
    (rest t : String)
    → drain_lines "" rest ≡ ([], rest)
    → drain_lines "" (text_append rest t) ≡ drain_lines rest t
unfolding drain_lines
drain_lines-rest rest t h = drain_lines-append "" rest t ∙ rw h refl

format-cons : (s : String) (ss : List String) → format (s ∷ ss) ≡ text_append s (format ss)
format-cons s [] = sym (append-nil s)
format-cons s (t ∷ ss) = refl

module _ (j : Json) where
  yielded-append :
      (o : Option String) (xs ys : List (Outcome String))
      → yielded j o (xs ++ ys) ≡ yielded j o xs ++ ys
  yielded-append none xs ys = refl
  yielded-append (some d) xs ys = refl

  deltas_of-append :
      (ls ms : List String) → deltas_of j (ls ++ ms) ≡ deltas_of j ls ++ deltas_of j ms
  unfolding deltas_of
  deltas_of-append [] ms = refl
  deltas_of-append (l ∷ ls) ms =
      ap (yielded j (parse_sse_line j (trim_end l))) (deltas_of-append ls ms)
      ∙ yielded-append (parse_sse_line j (trim_end l)) (deltas_of j ls) (deltas_of j ms)

  -- The buffer behind whole texts, whatever the chunks they come in.
  stream_from-format :
      (buf : String) (chunks : List String)
      → drain_lines "" buf ≡ ([], buf)
      → stream_from j buf (map ok chunks)
        ≡ deltas_of j (drain_lines "" (text_append buf (format chunks))).0
  unfolding stream_from deltas_of
  stream_from-format buf [] h = rw (append-nil buf, h) refl
  stream_from-format buf (c ∷ chunks) h =
      let whole = text_append buf c in
      ap (λ ds. deltas_of j (drain_lines "" whole).0 ++ ds)
        (stream_from-format (drain_lines "" whole).1 chunks (rest-drain_lines "" whole refl))
      ∙ rw
          (
            drain_lines-rest (drain_lines "" whole).1 (format chunks)
                (rest-drain_lines "" whole refl),
            format-cons c chunks,
            sym (append_assoc buf c (format chunks)),
            drain_lines-append "" whole (format chunks),
          )
          (sym (
            deltas_of-append (drain_lines "" whole).0
              (drain_lines (drain_lines "" whole).1 (format chunks)).0))

  -- The deltas of a reply are those of the lines of its whole text, whatever the chunks it comes in,
  -- when each chunk is a text of its own.
  pub stream_from-chunks :
      (chunks : List String)
      → stream_from j "" (map ok chunks) ≡ deltas_of j (drain_lines "" (format chunks)).0
  unfolding drain_lines
  stream_from-chunks chunks = stream_from-format "" chunks refl ∙ rw nil-append refl
