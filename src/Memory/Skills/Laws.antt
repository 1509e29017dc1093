-- ===== src/Memory/Skills/Laws.antt =====
-- crates/sa-memory/src/lib.rs: what a statement on skills that succeeds has changed.
use secretagent_rust_agent.Base.{
  ℕ, ◌+◌, String, ◌≡◌, refl, false, List, [], ◌∷◌, ◌++◌, map, none, some, Outcome, ok, err, ◌==◌,
  nat_eq, if◌then◌else◌, Bool-cases, Option-cases, inl, inr, All, ap,
}
use secretagent_rust_agent.Memory.{Skill, SkillVersion, Store, next_rowid, max_of}
use secretagent_rust_agent.Memory.Secrets.{looks_like_secret}
use secretagent_rust_agent.Memory.Skills.{
  get_skill_by_name, create_skill, record_skill_use, is_active, use_row, versions_of, activate_row,
}

-- The row of a new skill: a draft.
abbrev pub draft_row : ℕ → String → String → String → String → String → ℕ → Skill
draft_row id name description body prov session score = record {
  id = id;
  name = name;
  description = description;
  body = body;
  status = "draft";
  provenance = prov;
  score = score;
  runs = 0;
  created_from_session = session;
}

-- A predicate of the store holds after every way in which a creation ends, if it holds after the one
-- that goes through.
pub create_skill_cases :
    (Q : Outcome (Store × ℕ) → Type 0) (name description body prov session : String) (score : ℕ)
    (st : Store)
    → ((e : String) → Q (err e))
    → (looks_like_secret body ≡ false
        → get_skill_by_name name st ≡ none
        → Q (
            ok (
              record st {
                skills =
                    st.skills
                    ++ draft_row
                        (next_rowid (λ (s : Skill). s.id) st.skills)
                        name
                        description
                        body
                        prov
                        session
                        score
                      ∷ [];
                skill_versions =
                    st.skill_versions
                    ++ record {
                      skill_id = next_rowid (λ (s : Skill). s.id) st.skills;
                      version = 1;
                      body = body;
                      eval_score = score;
                    }
                      ∷ [];
              },
              next_rowid (λ (s : Skill). s.id) st.skills,
            )))
    → Q (create_skill name description body prov session score st)
unfolding create_skill
create_skill_cases Q name description body prov session score st f k =
    elim (Bool-cases (looks_like_secret body)) [
      | inl e ↦ rw e (f _)
      | inr e ↦ elim (Option-cases (get_skill_by_name name st)) [
        | inl g ↦ rw (e, g) (k e g)
        | inr (s, g) ↦ rw (e, g) (f _)
      ]
    ]

pub record_skill_use_cases :
    (Q : Outcome Store → Type 0) (name body : String) (score : ℕ) (st : Store)
    → ((e : String) → Q (err e))
    → ((s : Skill)
        → looks_like_secret body ≡ false
        → get_skill_by_name name st ≡ some s
        → Q (
            ok (record st {
              skill_versions =
                  st.skill_versions
                  ++ record {
                    skill_id = s.id;
                    version =
                        max_of
                          (λ (v : SkillVersion). v.version)
                          (versions_of s.id st.skill_versions)
                        + 1;
                    body = body;
                    eval_score = score;
                  }
                    ∷ [];
              skills = map (use_row s.id score) st.skills;
            })))
    → Q (record_skill_use name body score st)
unfolding record_skill_use
record_skill_use_cases Q name body score st f k = elim (Bool-cases (looks_like_secret body)) [
  | inl e ↦ rw e (f _)
  | inr e ↦ elim (Option-cases (get_skill_by_name name st)) [
    | inl g ↦ rw (e, g) (f _)
    | inr (s, g) ↦ rw (e, g) (k s e g)
  ]
]

-- The names and bodies of the active skills, which are what a later run may be told.
abbrev pub live : List Skill → List (String × String)
live [] = []
live (s ∷ rows) = let rest = live rows in if is_active s then (s.name, s.body) ∷ rest else rest

pub live-draft :
    (rows : List Skill) (id : ℕ) (name description body prov session : String) (score : ℕ)
    → live (rows ++ draft_row id name description body prov session score ∷ []) ≡ live rows
live-draft [] id name description body prov session score = refl
live-draft (s ∷ rows) id name description body prov session score =
    ap (λ l. if is_active s then (s.name, s.body) ∷ l else l)
      (live-draft rows id name description body prov session score)

use_row-live :
    (id score : ℕ) (s : Skill) (rest : List (String × String))
    → (if is_active (use_row id score s)
        then ((use_row id score s).name, (use_row id score s).body) ∷ rest
        else rest)
      ≡ (if is_active s then (s.name, s.body) ∷ rest else rest)
use_row-live id score s rest = elim (Bool-cases (nat_eq s.id id)) [ inl e ↦ rw e | inr e ↦ rw e ]

pub live-use : (id score : ℕ) (rows : List Skill) → live (map (use_row id score) rows) ≡ live rows
live-use id score [] = refl
live-use id score (s ∷ rows) = rw (live-use id score rows, use_row-live id score s (live rows))

-- No body of a skill or of one of its versions looks like a secret.
abbrev pub HasNoSecrets : Store → Type 0
HasNoSecrets st =
    All (λ (s : Skill). looks_like_secret s.body ≡ false) st.skills
    × All (λ (v : SkillVersion). looks_like_secret v.body ≡ false) st.skill_versions

pub All-use :
    (id score : ℕ) (rows : List Skill)
    → All (λ (s : Skill). looks_like_secret s.body ≡ false) rows
    → All (λ (s : Skill). looks_like_secret s.body ≡ false) (map (use_row id score) rows)
All-use id score [] a = tt
All-use id score (s ∷ rows) (p, a) = (
  elim (Bool-cases (nat_eq s.id id)) [ inl e ↦ rw e p | inr e ↦ rw e p ],
  All-use id score rows a,
)

pub All-activate :
    (name prov : String) (rows : List Skill)
    → All (λ (s : Skill). looks_like_secret s.body ≡ false) rows
    → All (λ (s : Skill). looks_like_secret s.body ≡ false) (map (activate_row name prov) rows)
All-activate name prov [] a = tt
All-activate name prov (s ∷ rows) (p, a) = (
  elim (Bool-cases (s.name == name)) [ inl e ↦ rw e p | inr e ↦ rw e p ],
  All-activate name prov rows a,
)
