-- ===== src/Memory/Secrets.antt =====
-- `looks_like_secret`: the detector of recognisable secrets.
use Prim.Native.Nat.{pred}
use secretagent_rust_agent.Base.{
  ℕ, zero, suc, ◌≤◌, String, ◌≡◌, refl, Bool, true, false, ◌||◌, List, [], ◌∷◌, ◌++◌, map, leb, any,
  drop, length, Any, arith, ◌⊎◌, inl, inr,
}
use secretagent_rust_agent.Text.Ascii.{
  codes, lower, lower_idem, has_prefix, has_part, run_length, has_part-append,
}

abbrev pub markers : List String
markers = "secret=" ∷ "secret =" ∷ "api_key=" ∷ "api_key =" ∷ "-----begin" ∷ "age-secret-key-" ∷ []

abbrev pub token_prefixes : List String
token_prefixes = "ghp_" ∷ "gho_" ∷ "ghs_" ∷ "github_pat_" ∷ "xoxb-" ∷ "xoxp-" ∷ "xapp-" ∷ []

-- The loop over `match_indices(prefix)`: some match is followed by `least` alphanumerics. Matches do
-- not overlap, so `skip` characters behind a match start none.
unfoldable pub key_from : List ℕ → ℕ → ℕ → List ℕ → Bool
unfolding has_prefix run_length
key_from prefix least skip [] = false
key_from prefix least (suc skip) (c ∷ s) = key_from prefix least skip s
key_from prefix least zero (c ∷ s) = elim (has_prefix (c ∷ s) prefix) [
  | false ↦ key_from prefix least zero s
  | true ↦ elim (leb least (run_length (drop (length prefix) (c ∷ s)))) [
    | true ↦ true
    | false ↦ key_from prefix least (pred (length prefix)) s
  ]
]

unfoldable pub looks_like_secret_codes : List ℕ → Bool
unfolding has_part key_from
looks_like_secret_codes l =
    any (λ m. has_part l (codes m)) markers
    || (key_from (codes "sk-") 8 0 l
        || (key_from (codes "akia") 12 0 l || any (λ p. has_part l (codes p)) token_prefixes))

unfoldable pub looks_like_secret : String → Bool
unfolding lower looks_like_secret_codes
looks_like_secret s = looks_like_secret_codes (map lower (codes s))

map-lower_idem : (l : List ℕ) → map lower (map lower l) ≡ map lower l
map-lower_idem [] = refl
map-lower_idem (c ∷ l) = cc (lower_idem c, map-lower_idem l)

-- The detector looks at a text without its case.
pub looks_like_secret_lower :
    (l : List ℕ)
    → looks_like_secret_codes (map lower (map lower l)) ≡ looks_like_secret_codes (map lower l)
looks_like_secret_lower l = rw (map-lower_idem l)

any_here :
    (q : String → Bool) (ms : List String) (m : String)
    → Any (λ t. t ≡ m) ms
    → q m ≡ true
    → any q ms ≡ true
any_here q [] m h e = absurd h
any_here q (t ∷ ms) m (inl same) e = rw (same, e)
any_here q (t ∷ ms) m (inr h) e = ground (arith, any_here q ms m h e)

-- A text, given by the codes of its lower case, that has a marker or a token prefix anywhere in it is
-- taken for a secret.
pub marker_is_secret :
    (before after : List ℕ) (m : String)
    → Any (λ t. t ≡ m) markers ⊎ Any (λ t. t ≡ m) token_prefixes
    → looks_like_secret_codes (before ++ (codes m ++ after)) ≡ true
unfolding looks_like_secret_codes
marker_is_secret before after m (inl h) = ground (
  arith,
  any_here (λ t. has_part (before ++ (codes m ++ after)) (codes t)) markers m h
      (has_part-append before (codes m) after),
)
marker_is_secret before after m (inr h) = ground (
  arith,
  any_here (λ t. has_part (before ++ (codes m ++ after)) (codes t)) token_prefixes m h
      (has_part-append before (codes m) after),
)

key_from_found :
    (before after : List ℕ) (skip : ℕ)
    → 8 ≤ run_length after
    → skip ≤ length before
    → key_from (codes "sk-") 8 skip (before ++ (codes "sk-" ++ after)) ≡ true
unfolding key_from
key_from_found [] after zero h k = ground arith
key_from_found [] after (suc n) h k = absurd (omega arith)
key_from_found (c ∷ b) after (suc n) h k = key_from_found b after n h (omega arith)
key_from_found (c ∷ []) after zero h k = ground (arith, key_from_found [] after 0 h)
key_from_found (c ∷ d ∷ []) after zero h k = ground (arith, key_from_found (d ∷ []) after 0 h)
key_from_found (c ∷ d ∷ e ∷ b) after zero h k =
    ground (arith, key_from_found (d ∷ e ∷ b) after 0 h, key_from_found (d ∷ e ∷ b) after 2 h)

-- A text, given by the codes of its lower case, that has "sk-" with at least eight alphanumerics behind
-- it is taken for a secret, wherever that stands.
pub sk_key_is_secret :
    (before after : List ℕ)
    → 8 ≤ run_length after
    → looks_like_secret_codes (before ++ (codes "sk-" ++ after)) ≡ true
unfolding looks_like_secret_codes
sk_key_is_secret before after h = ground (arith, key_from_found before after 0 h)
