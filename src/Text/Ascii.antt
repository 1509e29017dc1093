-- ===== src/Text/Ascii.antt =====
-- Texts as code points: ASCII case, `str::contains` and runs of alphanumerics.
use Prim.Native.Char.{code}
use secretagent_rust_agent.Base.{
  ℕ, suc, ◌+◌, String, ◌≡◌, refl, Bool, true, false, ◌&&◌, ◌||◌, List, [], ◌∷◌, ◌++◌, leb, nat_eq,
  if◌then◌else◌, arith,
}

abbrev pub codes : String → List ℕ
codes String.[] = []
codes (String.◌∷◌ c s) = code c ∷ codes s

-- `to_ascii_lowercase` of one code point
unfoldable pub lower : ℕ → ℕ
lower c = if leb b'A' c && leb c b'Z' then c + 32 else c

pub lower_idem : (c : ℕ) → lower (lower c) ≡ lower c
unfolding lower
lower_idem c = ground arith

-- `char::is_ascii_alphanumeric`
unfoldable pub is_ascii_alphanumeric : ℕ → Bool
is_ascii_alphanumeric c =
    leb b'0' c && leb c b'9' || leb b'A' c && leb c b'Z' || leb b'a' c && leb c b'z'

unfoldable pub has_prefix : List ℕ → List ℕ → Bool
has_prefix s [] = true
has_prefix [] (p ∷ ps) = false
has_prefix (c ∷ s) (p ∷ ps) = nat_eq c p && has_prefix s ps

-- `s.contains(part)`
unfoldable pub has_part : List ℕ → List ℕ → Bool
unfolding has_prefix
has_part [] part = has_prefix [] part
has_part (c ∷ s) part = has_prefix (c ∷ s) part || has_part s part

-- `take_while(is_ascii_alphanumeric).count()`
unfoldable pub run_length : List ℕ → ℕ
unfolding is_ascii_alphanumeric
run_length [] = 0
run_length (c ∷ s) = let rest = run_length s in if is_ascii_alphanumeric c then suc rest else 0

pub has_prefix_self : (p s : List ℕ) → has_prefix (p ++ s) p ≡ true
unfolding has_prefix
has_prefix_self [] s = refl
has_prefix_self (c ∷ p) s = ground (arith, has_prefix_self p s)

-- A text contains each of its parts.
pub has_part-append : (before p after : List ℕ) → has_part (before ++ (p ++ after)) p ≡ true
unfolding has_part
has_part-append [] [] [] = refl
has_part-append [] [] (c ∷ s) = ground (arith, has_prefix_self [] (c ∷ s))
has_part-append [] (c ∷ p) after = ground (arith, has_prefix_self (c ∷ p) after)
has_part-append (c ∷ s) p after = ground (arith, has_part-append s p after)
