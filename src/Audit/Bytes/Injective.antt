-- ===== src/Audit/Bytes/Injective.antt =====
-- Two texts with the same bytes are equal, and a byte string splits in one way at a given length.
use Prim.Native.Char.{code}
use mathlib.Core.Path.{ap₂}
use text.Mathlib.TextEquality.{Char-path}
use secretagent_rust_agent.Base.{ℕ, String, ◌≡◌, refl, List, [], ◌∷◌, ◌++◌, arith, length}
use secretagent_rust_agent.Audit.Bytes.{utf8_char, as_bytes}

utf8_char_split : (m n : ℕ) (s t : List ℕ) → utf8_char m ++ s ≡ utf8_char n ++ t → (m ≡ n) × (s ≡ t)
utf8_char_split m n s t h = ground arith

pub as_bytes_inj : (s t : String) → as_bytes s ≡ as_bytes t → s ≡ t
unfolding as_bytes
as_bytes_inj String.[] String.[] h = refl
as_bytes_inj String.[] (String.◌∷◌ d t) h = ground arith
as_bytes_inj (String.◌∷◌ c s) String.[] h = ground arith
as_bytes_inj (String.◌∷◌ c s) (String.◌∷◌ d t) h =
    let (same, rest) = utf8_char_split (code c) (code d) (as_bytes s) (as_bytes t) h in
    ap₂ String.◌∷◌ (Char-path c d same) (as_bytes_inj s t rest)

pub append_split :
    (xs ys us vs : List ℕ) → length xs ≡ length ys → xs ++ us ≡ ys ++ vs → (xs ≡ ys) × (us ≡ vs)
append_split [] [] us vs e h = (refl, h)
append_split [] (y ∷ ys) us vs e h = absurd (omega arith)
append_split (x ∷ xs) [] us vs e h = absurd (omega arith)
append_split (x ∷ xs) (y ∷ ys) us vs e h = ground (arith, append_split xs ys us vs)
