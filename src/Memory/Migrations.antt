-- ===== src/Memory/Migrations.antt =====
-- crates/sa-memory/src/lib.rs, `Store::migrate`: the versions of the schema. A database is known by
-- its objects and the rows of `schema_meta`; columns are not modelled.
pub mod Upgraded
use secretagent_rust_agent.Base.{
  ℕ, String, Bool, true, false, List, [], ◌∷◌, ◌++◌, Option, none, some, Outcome, ok, err, ◌>>=◌,
  contains, ltb, leb, if◌then◌else◌, format,
}

-- A `CREATE` of a table, an index or a trigger, with or without `IF NOT EXISTS`.
pub record Create : Type 0 where
  pub object : String
  pub if_not_exists : Bool

pub record Database : Type 0 where
  pub objects : List String
  pub versions : List ℕ

abbrev pub existing_or_new : List String → List Create
existing_or_new [] = []
existing_or_new (o ∷ os) = (record { object = o; if_not_exists = true }) ∷ existing_or_new os

abbrev pub all_new : List String → List Create
all_new [] = []
all_new (o ∷ os) = (record { object = o; if_not_exists = false }) ∷ all_new os

abbrev pub migrations : List (ℕ × List Create)
migrations =
    (1, existing_or_new ("messages" ∷ "idx_messages_session" ∷ "messages_fts" ∷ "messages_ai" ∷ []))
    ∷ (2, all_new ("user_model" ∷ []))
    ∷ (
      3,
      all_new (
          "skills" ∷ "skill_versions" ∷ "idx_skill_versions_skill" ∷ "skills_fts" ∷ "skills_ai"
          ∷ []),
    )
    ∷ (4, all_new ("session_summaries" ∷ []))
    ∷ (5, all_new ("cron_jobs" ∷ "idx_cron_due" ∷ "connectors_state" ∷ []))
    ∷ []

-- `MIGRATIONS.last()`
abbrev pub last_version : List (ℕ × List Create) → ℕ
last_version [] = 0
last_version ((v, sql) ∷ []) = v
last_version ((v, sql) ∷ m ∷ rest) = last_version (m ∷ rest)

abbrev pub latest : ℕ
latest = last_version migrations

-- How each statement of the migration ends, apart from what it does.
pub record Answers : Type 0 where
  pub create_meta : Outcome (Unit {0})
  pub read_version : Outcome (Unit {0})
  pub begin : Outcome (Unit {0})
  pub batch : ℕ → Outcome (Unit {0})
  pub delete : Outcome (Unit {0})
  pub insert : Outcome (Unit {0})
  pub commit : Outcome (Unit {0})

abbrev pub create_when : Bool → Create → Database → Outcome Database
create_when true c db =
    if c.if_not_exists then ok db else err (format ("already exists: " ∷ c.object ∷ []))
create_when false c db = ok (record db { objects = db.objects ++ (c.object ∷ []) })

unfoldable pub execute_batch : List Create → Database → Outcome Database
execute_batch [] db = ok db
execute_batch (c ∷ cs) db =
    create_when (contains db.objects c.object) c db >>= λ next. execute_batch cs next

-- The loop over the migrations, in the transaction.
unfoldable pub apply_after : Answers → ℕ → List (ℕ × List Create) → Database → Outcome Database
unfolding execute_batch
apply_after a current [] db = ok db
apply_after a current ((v, sql) ∷ rest) db =
    (if ltb current v then (a.batch v >>= λ u. execute_batch sql db) else ok db) >>= λ next.
    apply_after a current rest next

abbrev pub current_of : List ℕ → ℕ
current_of [] = 0
current_of (v ∷ rest) = v

-- The transaction as a whole: the database that it commits.
abbrev pub committed : Answers → ℕ → Database → Outcome Database
unfolding apply_after
committed a current db = a.begin >>= λ b. apply_after a current migrations db >>= λ next.
    a.delete >>= λ d.
    a.insert >>= λ i. a.commit >>= λ c. ok (record next { versions = latest ∷ [] })

-- A transaction that does not commit leaves the database as it was.
abbrev pub kept : Database → Outcome Database → Outcome (Unit {0}) × Database
kept db (err e) = (err e, db)
kept db (ok next) = (ok tt, next)

abbrev pub with_meta : Answers → Database → Outcome (Unit {0}) × Database
unfolding committed
with_meta a db = kept db (
    a.read_version >>= λ r.
    if leb latest (current_of db.versions) then ok db else committed a (current_of db.versions) db)

abbrev pub meta_created : Answers → Database → Outcome Database → Outcome (Unit {0}) × Database
unfolding with_meta
meta_created a db (err e) = (err e, db)
meta_created a db (ok next) = with_meta a next

unfoldable pub migrate : Answers → Database → Outcome (Unit {0}) × Database
unfolding meta_created execute_batch
migrate a db =
    meta_created a db
      (a.create_meta >>= λ u. execute_batch (existing_or_new ("schema_meta" ∷ [])) db)
