-- ===== src/Schedule.antt =====
-- crates/sa-core/src/schedule.rs: cron texts. The crate `cron` is a parameter: `parse` reads its
-- form with six fields, and `upcoming s t n` is the first `n` times of `s` after `t`, in seconds.
mod Tests
use Prim.Native.Char.{Char, code}
use Prim.Native.String.{◌++◌ as text_append}
use secretagent_rust_agent.Base.{
  ℕ, ◌+◌, ◌-◌, ◌≤◌, String, ◌≡◌, refl, ap, ◌∙◌, Bool, true, false, ◌||◌, ◌&&◌, List, [], ◌∷◌, map,
  reverse, find, length, Option, none, some, Outcome, ok, err, nat_eq, ltb, if◌then◌else◌, format,
  unwrap_or, All, Bool-cases, Option-cases, inl, inr, arith,
}
use secretagent_rust_agent.Text.Words.{is_empty, trim, split_whitespace, join, decimal}
use secretagent_rust_agent.Text.Words.RoundTrip.{split_whitespace-join, split_whitespace-IsWord}
use secretagent_rust_agent.Audit.Bytes.{lines}
use mathlib.Core.Path.{subst}

abbrev pub min_interval_secs : ℕ
min_interval_secs = 300

-- `windows(2)` with the difference of each pair
abbrev pub gaps : List ℕ → List ℕ
gaps [] = []
gaps (a ∷ []) = []
gaps (a ∷ b ∷ rest) = (b - a) ∷ gaps (b ∷ rest)

-- `min().unwrap_or(0)`
abbrev pub least : List ℕ → ℕ
least [] = 0
least (g ∷ []) = g
least (g ∷ k ∷ rest) = let m = least (k ∷ rest) in if ltb m g then m else g

abbrev pub is_quote : Char → Bool
is_quote c = nat_eq (code c) b'`' || (nat_eq (code c) b'"' || nat_eq (code c) 39)

-- `trim_matches` of the quotes, the start first
abbrev pub unquote_start : String → String
unquote_start String.[] = ""
unquote_start (String.◌∷◌ c s) =
    let rest = unquote_start s in if is_quote c then rest else String.◌∷◌ c s

abbrev pub unquote_end : String → String
unquote_end String.[] = ""
unquote_end (String.◌∷◌ c s) =
    let rest = unquote_end s in if is_quote c && is_empty rest then "" else String.◌∷◌ c rest

abbrev pub clean : String → String
clean line = trim (unquote_end (unquote_start (trim line)))

abbrev pub has_five_fields : String → Bool
has_five_fields line = nat_eq (length (split_whitespace line)) 5

-- The line of the reply that is taken for the cron text.
unfoldable pub candidate : String → String
unfolding trim
candidate reply = unwrap_or (find has_five_fields (map clean (lines reply))) (trim reply)

module _ {Schedule : Type 0} (parse : String → Option Schedule)
    (upcoming : Schedule → ℕ → ℕ → List ℕ) where
  abbrev pub schedule_of : String → Option Schedule → Outcome Schedule
  schedule_of expr none = err (format ("unparseable cron: " ∷ expr ∷ []))
  schedule_of expr (some s) = ok s

  abbrev pub from_fields : String → List String → Outcome Schedule
  from_fields expr fields =
      if nat_eq (length fields) 5
      then schedule_of expr (parse (format ("0 " ∷ join " " fields ∷ [])))
      else err (
          format
            ("expected a 5-field cron expression, got " ∷ decimal (length fields) ∷ " fields" ∷ []))

  unfoldable pub to_schedule : String → Outcome Schedule
  to_schedule expr = from_fields expr (split_whitespace expr)

  abbrev pub check_gaps : String → List ℕ → Outcome String
  check_gaps expr fires =
      if ltb (length fires) 2
      then err "cron expression never fires"
      else if ltb (least (gaps fires)) min_interval_secs
      then err (
          format (
            "schedule fires every "
            ∷ decimal (least (gaps fires))
            ∷ "s — below the 300s minimum"
            ∷ []))
      else ok (join " " (split_whitespace expr))

  abbrev pub validate : String → Outcome Schedule → Outcome String
  validate expr (err e) = err e
  validate expr (ok s) = check_gaps expr (upcoming s 0 11)

  unfoldable pub validate_cron : String → Outcome String
  validate_cron expr = validate expr (to_schedule expr)

  abbrev pub first_time : List ℕ → Outcome ℕ
  first_time [] = err "cron expression has no next fire"
  first_time (t ∷ rest) = ok t

  abbrev pub next_of : ℕ → Outcome Schedule → Outcome ℕ
  next_of after (err e) = err e
  next_of after (ok s) = first_time (upcoming s after 1)

  unfoldable pub next_fire_unix : String → ℕ → Outcome ℕ
  next_fire_unix expr after = next_of after (to_schedule expr)

  -- The model proposes and the validator decides; the reply is an error or a text.
  abbrev pub gate : Outcome String → Outcome String
  gate (err e) = err e
  gate (ok reply) = validate_cron (candidate reply)

  least_bound : (n : ℕ) (gs : List ℕ) → n ≤ least gs → All (λ g. n ≤ g) gs
  least_bound n [] h = tt
  least_bound n (g ∷ []) h = (h, tt)
  least_bound n (g ∷ k ∷ rest) h = (ground (arith, h), least_bound n (k ∷ rest) (ground (arith, h)))

  -- What a validated text stands for.
  pub record Validated (canonical : String) : Type 0 where
    pub schedule : Schedule
    pub reads : to_schedule canonical ≡ ok schedule
    pub fires_twice : 2 ≤ length (upcoming schedule 0 11)
    pub apart : All (λ g. min_interval_secs ≤ g) (gaps (upcoming schedule 0 11))

  check_gaps_cases :
      (Q : Outcome String → Type 0) (expr : String) (fires : List ℕ)
      → ((e : String) → Q (err e))
      → (2 ≤ length fires
          → min_interval_secs ≤ least (gaps fires)
          → Q (ok (join " " (split_whitespace expr))))
      → Q (check_gaps expr fires)
  check_gaps_cases Q expr fires f k = elim (Bool-cases (ltb (length fires) 2)) [
    | inl e ↦ rw e (f _)
    | inr e ↦ elim (Bool-cases (ltb (least (gaps fires)) min_interval_secs)) [
      | inl l ↦ rw (e, l) (f _)
      | inr l ↦ rw (e, l) (k (ground (arith, e)) (ground (arith, l)))
    ]
  ]

  schedule_of_same :
      (expr other : String) (o : Option Schedule) (s : Schedule)
      → schedule_of expr o ≡ ok s
      → schedule_of other o ≡ ok s
  schedule_of_same expr other none s h = cc
  schedule_of_same expr other (some t) s h = h

  from_fields_same :
      (expr other : String) (fields : List String) (s : Schedule)
      → from_fields expr fields ≡ ok s
      → from_fields other fields ≡ ok s
  from_fields_same expr other fields s = elim (Bool-cases (nat_eq (length fields) 5)) [
    | inl e ↦ rw e (schedule_of_same expr other (parse (format ("0 " ∷ join " " fields ∷ []))) s)
    | inr e ↦ rw e (λ h. cc)
  ]

  canonical-to_schedule :
      (expr : String) (s : Schedule)
      → to_schedule expr ≡ ok s
      → to_schedule (join " " (split_whitespace expr)) ≡ ok s
  unfolding to_schedule
  canonical-to_schedule expr s h =
      rw (split_whitespace-join (split_whitespace expr) (split_whitespace-IsWord expr))
        (from_fields_same expr (join " " (split_whitespace expr)) (split_whitespace expr) s h)

  ok_injective : (a b : String) → ok a ≡ ok b → a ≡ b
  ok_injective a b e = cc

  validate-Validated :
      (expr canonical : String) (r : Outcome Schedule)
      → to_schedule expr ≡ r
      → validate expr r ≡ ok canonical
      → Validated canonical
  validate-Validated expr canonical (err e) q = λ h. cc
  validate-Validated expr canonical (ok s) q =
      check_gaps_cases (λ x. x ≡ ok canonical → Validated canonical) expr (upcoming s 0 11)
        (λ e h. cc)
        (λ two apart h. record {
          schedule = s;
          reads =
              subst (λ t. to_schedule t ≡ ok s) (ok_injective _ canonical h)
                (canonical-to_schedule expr s q);
          fires_twice = two;
          apart = least_bound min_interval_secs _ apart;
        })

  -- Whatever the model replies, a cron text that comes out of the gate is read by the parser in its
  -- stored form, as a schedule with at least two of its first eleven times, each pair of which in a row
  -- is at least 300 seconds apart.
  pub gate-Validated :
      (reply : Outcome String) (canonical : String)
      → gate reply ≡ ok canonical
      → Validated canonical
  unfolding validate_cron
  gate-Validated (err e) canonical h = cc
  gate-Validated (ok reply) canonical h =
      validate-Validated (candidate reply) canonical (to_schedule (candidate reply)) refl h
