-- ===== src/Agent/Eval.antt =====
-- crates/sa-core/src/eval.rs: the trajectory of a task, its score, and the skill drafted from it.
-- A trajectory has no field for tool output. Scores are in hundredths.
use Prim.Native.Char.{Char, code}
use secretagent_rust_agent.Base.{
  ℕ, ◌-◌, ◌*◌, String, Bool, true, false, ◌&&◌, not, List, [], ◌∷◌, map, reverse, filter, Option,
  leb, nat_eq, if◌then◌else◌, length, format,
}
use secretagent_rust_agent.Text.Ascii.{is_ascii_alphanumeric}
use secretagent_rust_agent.Text.Words.{is_empty, trim, join, take_chars}

pub record Trajectory : Type 0 where
  pub task : String
  pub tool_names : List String
  pub steps : ℕ
  pub tool_errors : ℕ
  pub denied : Bool
  pub assistant_spans : List String
  pub answered : Bool
  pub reused_skill : Option String

pub record EvalResult : Type 0 where
  pub success : Bool
  pub score : ℕ

pub record SkillDraft : Type 0 where
  pub name : String
  pub description : String
  pub body : String

-- Penalties of 15 for an error, 30 for a denial and 5 for each step after the first; subtraction
-- on ℕ stops at 0, which is the clamp.
unfoldable pub skill_eval_score : ℕ → ℕ → Bool → Bool → ℕ
skill_eval_score steps tool_errors denied answered =
    if not answered
    then 0
    else 100 - 15 * tool_errors - (if denied then 30 else 0) - 5 * (steps - 1)

unfoldable pub evaluate : Trajectory → ℕ → EvalResult
unfolding skill_eval_score
evaluate t max_tool_steps = record {
  success = t.answered && (nat_eq t.tool_errors 0 && leb t.steps max_tool_steps);
  score = skill_eval_score t.steps t.tool_errors t.denied t.answered;
}

abbrev pub hyphen : Char
hyphen = "-"

-- One character of the loop of `slug`; `out` has its last character first.
unfoldable pub slug_step : Char → List Char × Bool → List Char × Bool
slug_step c (out, prev_hyphen) =
    if is_ascii_alphanumeric (code c)
    then (c ∷ out, false)
    else if not (nat_eq (length out) 0) && not prev_hyphen
    then (hyphen ∷ out, true)
    else (out, prev_hyphen)

-- `out` holds ASCII characters only, so its bytes are its characters.
unfoldable pub slug_loop : String → List Char → Bool → List Char
unfolding slug_step
slug_loop String.[] out prev_hyphen = out
slug_loop (String.◌∷◌ c s) out prev_hyphen =
    let (out', prev') = slug_step c (out, prev_hyphen) in
    let rest = slug_loop s out' prev' in if leb 64 (length out') then out' else rest

abbrev pub strip_hyphens : List Char → List Char
strip_hyphens [] = []
strip_hyphens (c ∷ cs) =
    let rest = strip_hyphens cs in if nat_eq (code c) b'-' then rest else c ∷ cs

abbrev pub text_of : List Char → String
text_of [] = ""
text_of (c ∷ cs) = String.◌∷◌ c (text_of cs)

abbrev pub lowercase : (Char → String) → String → String
lowercase to_lower String.[] = ""
lowercase to_lower (String.◌∷◌ c s) = format (to_lower c ∷ lowercase to_lower s ∷ [])

-- `trim_matches('-')` at both ends, the end of the text first.
unfoldable pub slug : (Char → String) → String → String
unfolding slug_loop
slug to_lower raw =
    let trimmed =
      strip_hyphens (reverse (strip_hyphens (slug_loop (lowercase to_lower raw) [] false))) in
    if nat_eq (length trimmed) 0 then "skill" else text_of trimmed

unfoldable pub build_skill_draft : (Char → String) → Trajectory → SkillDraft
unfolding slug trim join
build_skill_draft to_lower t =
    let name = slug to_lower t.task in
    let description = take_chars 1024 (trim t.task) in
    let tools = if nat_eq (length t.tool_names) 0 then "(none)" else join ", " t.tool_names in
    let spans = filter (λ (s : String). not (is_empty s)) (map trim t.assistant_spans) in
    let joined = join "\n" (map (λ (s : String). format ("- " ∷ s ∷ [])) spans) in
    let reasoning = if is_empty joined then "- (no recorded reasoning)" else joined in
    record {
      name = name;
      description = description;
      body = format (
          "# " ∷ name ∷ "\n\n## Task\n" ∷ description ∷ "\n\n## Tools used (in order)\n" ∷ tools
          ∷ "\n\n## Approach\n" ∷ reasoning ∷ "\n" ∷ []);
    }
