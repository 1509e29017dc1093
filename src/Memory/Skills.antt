-- ===== src/Memory/Skills.antt =====
-- Learned skills and the lineage of their bodies.
pub mod Laws
use Prim.Native.Char.{Char}
use Prim.Native.Nat.{Ordering}
use Prim.Native.String.{compare, len}
use secretagent_rust_agent.Text.Words.{split_whitespace, join, filter_chars}
use secretagent_rust_agent.Base.{
  ℕ, ◌+◌, String, Bool, true, false, ◌&&◌, List, [], ◌∷◌, ◌++◌, map, filter, take, any, find,
  Option, none, some, Outcome, ok, err, ◌==◌, nat_eq, leb, if◌then◌else◌, format,
}
use secretagent_rust_agent.Memory.{Skill, SkillVersion, Store, next_rowid, max_of}
use secretagent_rust_agent.Memory.Secrets.{looks_like_secret}

pub record ActiveSkill : Type 0 where
  pub name : String
  pub body : String

unfoldable pub get_skill_by_name : String → Store → Option Skill
get_skill_by_name name st = find (λ (s : Skill). s.name == name) st.skills

-- The name is unique, and the first version is recorded with the row.
unfoldable pub create_skill :
    String → String → String → String → String → ℕ → Store → Outcome (Store × ℕ)
unfolding get_skill_by_name
create_skill name description body prov session score st =
    if looks_like_secret body
    then err "refusing to persist a skill body that looks like it contains a secret"
    else elim (get_skill_by_name name st) [
      | some s ↦ err "UNIQUE constraint failed: skills.name"
      | none ↦
          let id = next_rowid (λ (s : Skill). s.id) st.skills in
          ok (
            record st {
              skills =
                  st.skills
                  ++ record {
                    id = id;
                    name = name;
                    description = description;
                    body = body;
                    status = "draft";
                    provenance = prov;
                    score = score;
                    runs = 0;
                    created_from_session = session;
                  }
                    ∷ [];
              skill_versions =
                  st.skill_versions
                  ++ record { skill_id = id; version = 1; body = body; eval_score = score } ∷ [];
            },
            id,
          )
    ]

-- `sort` and `dedup` of a list of texts
unfoldable pub insert_term : String → List String → List String
insert_term t [] = t ∷ []
insert_term t (u ∷ rest) =
    let later = insert_term t rest in
    elim (compare t u) [
      | Ordering.lt ↦ t ∷ u ∷ rest
      | Ordering.eq ↦ u ∷ rest
      | Ordering.gt ↦ u ∷ later
    ]

unfoldable pub sort_dedup : List String → List String
unfolding insert_term
sort_dedup [] = []
sort_dedup (t ∷ rest) = insert_term t (sort_dedup rest)

-- The alphanumerics of a word; words of fewer than three bytes do not count.
unfoldable pub significant_words : (Char → Bool) → String → List String
unfolding split_whitespace
significant_words is_alphanumeric query =
    filter (λ (w : String). leb 3 (len w))
      (map (filter_chars is_alphanumeric) (split_whitespace query))

-- The terms of the full-text query: quoted, sorted, at most 32.
unfoldable pub recall_terms : (Char → Bool) → String → List String
unfolding significant_words sort_dedup
recall_terms is_alphanumeric query = take 32 (
    sort_dedup (map (λ w. format ("\"" ∷ w ∷ "\"" ∷ [])) (significant_words is_alphanumeric query)))

-- `matches` is the full-text search over names and descriptions, best first.
unfoldable pub recall_skills :
    (Char → Bool) → (String → List Skill → List Skill) → String → ℕ → Store → List Skill
unfolding recall_terms join
recall_skills is_alphanumeric matches query n st = elim (recall_terms is_alphanumeric query) [
  | [] ↦ []
  | t ∷ terms ↦ take n (matches (join " OR " (t ∷ terms)) st.skills)
]

abbrev pub is_active : Skill → Bool
is_active s = s.status == "active" && s.provenance == "{\"kind\":\"trusted\"}"

unfoldable pub active_matching_skills :
    (Char → Bool) → (String → List Skill → List Skill) → String → ℕ → Store → List ActiveSkill
unfolding recall_skills
active_matching_skills is_alphanumeric matches query n st =
    map (λ (s : Skill). record { name = s.name; body = s.body })
      (filter is_active (recall_skills is_alphanumeric matches query n st))

abbrev pub activate_row : String → String → Skill → Skill
activate_row name trusted s =
    if s.name == name then record s { status = "active"; provenance = trusted } else s

abbrev pub count : (Skill → Bool) → List Skill → ℕ
count p [] = 0
count p (s ∷ rows) = let rest = count p rows in if p s then rest + 1 else rest

-- The number of rows that changed comes second.
unfoldable pub activate_skill : String → String → Store → Store × ℕ
activate_skill name trusted st = (
  record st { skills = map (activate_row name trusted) st.skills },
  count (λ (s : Skill). s.name == name) st.skills,
)

abbrev pub versions_of : ℕ → List SkillVersion → List SkillVersion
versions_of id rows = filter (λ (v : SkillVersion). nat_eq v.skill_id id) rows

abbrev pub use_row : ℕ → ℕ → Skill → Skill
use_row id score s = if nat_eq s.id id then record s { runs = s.runs + 1; score = score } else s

unfoldable pub record_skill_use : String → String → ℕ → Store → Outcome Store
unfolding get_skill_by_name
record_skill_use name new_body score st =
    if looks_like_secret new_body
    then err "refusing to record a skill refinement whose body looks like a secret"
    else elim (get_skill_by_name name st) [
      | none ↦ err "Query returned no rows"
      | some s ↦
          let next =
            max_of (λ (v : SkillVersion). v.version) (versions_of s.id st.skill_versions) + 1 in
          ok (record st {
            skill_versions =
                st.skill_versions
                ++ record { skill_id = s.id; version = next; body = new_body; eval_score = score }
                  ∷ [];
            skills = map (use_row s.id score) st.skills;
          })
    ]

-- `ORDER BY name`, by insertion.
unfoldable pub insert_by_name : Skill → List Skill → List Skill
insert_by_name s [] = s ∷ []
insert_by_name s (t ∷ rows) =
    let rest = insert_by_name s rows in
    elim (compare s.name t.name) [ Ordering.gt ↦ t ∷ rest | _ ↦ s ∷ t ∷ rows ]

abbrev pub sort_by_name : List Skill → List Skill
unfolding insert_by_name
sort_by_name [] = []
sort_by_name (s ∷ rows) = insert_by_name s (sort_by_name rows)

unfoldable pub list_skills : Store → List Skill
unfolding sort_by_name
list_skills st = sort_by_name st.skills
