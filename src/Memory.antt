-- ===== src/Memory.antt =====
-- crates/sa-memory/src/lib.rs: the SQLite store, a list of rows for each table in the order of its
-- rowids. A full-text query (FTS5) is a parameter where it is used.
pub mod Secrets
pub mod Messages
pub mod Preferences
pub mod Skills
pub mod Cron
pub mod Migrations
mod Tests
use secretagent_rust_agent.Base.{
  ℕ, zero, suc, ◌+◌, String, Bool, List, [], ◌∷◌, Option, ltb, if◌then◌else◌,
}

pub record MessageRow : Type 0 where
  pub id : ℕ
  pub session_id : String
  pub role : String
  pub content : String
  pub provenance : String

pub record Preference : Type 0 where
  pub dimension : String
  pub value : String
  pub provenance : String
  pub source_session : String

-- Scores are in hundredths.
pub record Skill : Type 0 where
  pub id : ℕ
  pub name : String
  pub description : String
  pub body : String
  pub status : String
  pub provenance : String
  pub score : ℕ
  pub runs : ℕ
  pub created_from_session : String

pub record SkillVersion : Type 0 where
  pub skill_id : ℕ
  pub version : ℕ
  pub body : String
  pub eval_score : ℕ

pub record Summary : Type 0 where
  pub through_id : ℕ
  pub text : String

-- Times are in Unix seconds from 1970 on.
pub record CronJob : Type 0 where
  pub id : ℕ
  pub nl_spec : String
  pub cron_expr : String
  pub action : String
  pub target_connector : String
  pub target_chat : String
  pub allowed_tools : String
  pub last_run : Option ℕ
  pub next_run : ℕ
  pub enabled : Bool

pub record Store : Type 0 where
  pub messages : List MessageRow
  pub user_model : List Preference
  pub skills : List Skill
  pub skill_versions : List SkillVersion
  pub summaries : List (String × Summary)
  pub cron_jobs : List CronJob

abbrev pub empty_store : Store
empty_store = record {
  messages = [];
  user_model = [];
  skills = [];
  skill_versions = [];
  summaries = [];
  cron_jobs = [];
}

-- The rowid that SQLite gives to a new row: one more than the largest.
abbrev pub max_of {ℓ} : {A : Type ℓ} → (A → ℕ) → List A → ℕ
max_of key [] = 0
max_of key (r ∷ rows) = let rest = max_of key rows in if ltb rest (key r) then key r else rest

abbrev pub next_rowid {ℓ} : {A : Type ℓ} → (A → ℕ) → List A → ℕ
next_rowid key rows = max_of key rows + 1
