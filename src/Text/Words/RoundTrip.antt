-- ===== src/Text/Words/RoundTrip.antt =====
-- std's `split_whitespace` and `join(" ")` on words.
use Prim.Native.String.{◌++◌ as text_append}
use text.Mathlib.TextLemmas.{cons-append, nil-append}
use secretagent_rust_agent.Base.{
  String, ◌≡◌, refl, ap, ◌∙◌, false, List, [], ◌∷◌, All, Bool-cases, inl, inr,
}
use secretagent_rust_agent.Text.{is_whitespace}
use secretagent_rust_agent.Text.Words.{is_empty, push_word, words_from, split_whitespace, join}

abbrev pub HasNoSpace : String → Type 0
HasNoSpace String.[] = Unit {0}
HasNoSpace (String.◌∷◌ c s) = (is_whitespace c ≡ false) × HasNoSpace s

abbrev pub IsWord : String → Type 0
IsWord w = HasNoSpace w × (is_empty w ≡ false)

push_word-IsWord :
    (w : String) (ws : List String) → HasNoSpace w → All IsWord ws → All IsWord (push_word w ws)
push_word-IsWord String.[] ws h a = a
push_word-IsWord (String.◌∷◌ c w) ws h a = ((h, refl), a)

words_from-IsWord : (s : String) → HasNoSpace (words_from s).0 × All IsWord (words_from s).1
unfolding words_from
words_from-IsWord String.[] = (tt, tt)
words_from-IsWord (String.◌∷◌ c s) = elim (Bool-cases (is_whitespace c)) [
  | inl e ↦
      let (p, a) = words_from-IsWord s in
      rw e (tt, push_word-IsWord (words_from s).0 (words_from s).1 p a)
  | inr e ↦ let (p, a) = words_from-IsWord s in rw e ((e, p), a)
]

pub split_whitespace-IsWord : (s : String) → All IsWord (split_whitespace s)
unfolding split_whitespace
split_whitespace-IsWord s =
    let (p, a) = words_from-IsWord s in push_word-IsWord (words_from s).0 (words_from s).1 p a

words_from-word : (w : String) → HasNoSpace w → words_from w ≡ (w, [])
unfolding words_from
words_from-word String.[] h = refl
words_from-word (String.◌∷◌ c w) h = rw (h.0, words_from-word w h.1)

words_from-space :
    (w s : String)
    → HasNoSpace w
    → words_from (text_append w (text_append " " s)) ≡ (w, split_whitespace s)
unfolding words_from split_whitespace
words_from-space String.[] s h = rw (nil-append, cons-append, nil-append)
words_from-space (String.◌∷◌ c w) s h = rw (cons-append, h.0, words_from-space w s h.1)

push_word-word : (w : String) (ws : List String) → is_empty w ≡ false → push_word w ws ≡ w ∷ ws
push_word-word w ws e = rw e

pub split_whitespace-join : (ws : List String) → All IsWord ws → split_whitespace (join " " ws) ≡ ws
unfolding join split_whitespace
split_whitespace-join [] a = refl
split_whitespace-join (w ∷ []) a = rw (words_from-word w a.0.0) (push_word-word w [] a.0.1)
split_whitespace-join (w ∷ v ∷ ws) a =
    rw (words_from-space w (join " " (v ∷ ws)) a.0.0)
      (push_word-word w _ a.0.1 ∙ ap (λ l. w ∷ l) (split_whitespace-join (v ∷ ws) a.1))
