-- ===== src/SelfUpdate/Version.antt =====
-- secretagent/src/self_update.rs: versions x.y.z and their order.
use Prim.Native.Char.{code}
use secretagent_rust_agent.Base.{
  ℕ, ◌+◌, ◌*◌, ◌-◌, ◌^◌, String, Bool, true, false, ◌&&◌, ◌||◌, List, [], ◌∷◌, Option, none, some,
  Outcome, ok, err, ◌>>=◌, ok_or, ltb, leb, nat_eq, if◌then◌else◌, format,
}
use secretagent_rust_agent.Text.Words.{is_empty}

abbrev pub is_one_of : List ℕ → ℕ → Bool
is_one_of [] c = false
is_one_of (d ∷ ds) c = nat_eq c d || is_one_of ds c

-- The first piece of a text that is split at these characters, and the other pieces.
unfoldable pub split_at : List ℕ → String → String × List String
split_at stops String.[] = ("", [])
split_at stops (String.◌∷◌ c s) =
    let (piece, pieces) = split_at stops s in
    if is_one_of stops (code c) then ("", piece ∷ pieces) else (String.◌∷◌ c piece, pieces)

abbrev pub push_digit : Option ℕ → ℕ → Option ℕ
push_digit none c = none
push_digit (some n) c =
    if leb b'0' c && leb c b'9' && ltb (10 * n + (c - b'0')) (2 ^ 64)
    then some (10 * n + (c - b'0'))
    else none

unfoldable pub digits_from : Option ℕ → String → Option ℕ
digits_from n String.[] = n
digits_from n (String.◌∷◌ c s) = digits_from (push_digit n (code c)) s

-- `parse::<u64>` of a text without a sign
unfoldable pub parse_u64 : String → Option ℕ
unfolding digits_from
parse_u64 s = if is_empty s then none else digits_from (some 0) s

pub record Version : Type 0 where
  pub major : ℕ
  pub minor : ℕ
  pub patch : ℕ

abbrev pub numeric : String → String → Outcome ℕ
unfolding parse_u64
numeric v s = ok_or (parse_u64 s) (format ("non-numeric version field in " ∷ v ∷ []))

abbrev pub three_parts : String → List String → Outcome Version
unfolding numeric
three_parts v (a ∷ b ∷ c ∷ []) = numeric v a >>= λ major. numeric v b >>= λ minor.
    numeric v c >>= λ patch. ok (record { major = major; minor = minor; patch = patch })
three_parts v _ = err (format ("not an x.y.z version: " ∷ v ∷ []))

unfoldable pub parse_semver : String → Outcome Version
unfolding split_at three_parts
parse_semver v =
    let (core, suffixes) = split_at (b'-' ∷ b'+' ∷ []) v in
    let (first, rest) = split_at (b'.' ∷ []) core in three_parts v (first ∷ rest)

-- The order of triples.
unfoldable pub is_newer : Version → Version → Bool
is_newer cand cur =
    ltb cur.major cand.major
    || nat_eq cur.major cand.major
      && (ltb cur.minor cand.minor || nat_eq cur.minor cand.minor && ltb cur.patch cand.patch)

unfoldable pub ensure_upgrade : String → String → Outcome (Unit {0})
unfolding parse_semver is_newer
ensure_upgrade current candidate = parse_semver current >>= λ cur.
    parse_semver candidate >>= λ cand. elim (is_newer cand cur) [
      | true ↦ ok tt
      | false ↦ err (
          format (
            "refusing a non-upgrade: candidate " ∷ candidate ∷ " is not newer than current "
            ∷ current ∷ []))
    ]
