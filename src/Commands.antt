-- ===== src/Commands.antt =====
-- secretagent/src/schedule.rs, pref.rs and skill.rs: the operator's commands on the store. What a
-- command prints is its result; how the configuration, the provider, the store and the log answer is a
-- parameter.
pub mod Armed
mod Tests
use secretagent_rust_agent.Base.{
  ℕ, ◌/◌, ◌%◌, String, Bool, true, false, List, [], ◌∷◌, map, Option, none, some, Outcome, ok, err,
  ◌>>=◌, ltb, nat_eq, if◌then◌else◌, format,
}
use secretagent_rust_agent.Text.Words.{decimal, join}
use secretagent_rust_agent.Audit.{AuditEvent}
use secretagent_rust_agent.Memory.{Store, CronJob, Preference, Skill}
use secretagent_rust_agent.Memory.Cron.{add_cron_job, list_cron_jobs, remove_cron_job}
use secretagent_rust_agent.Memory.Preferences.{preferences, set_preference}
use secretagent_rust_agent.Memory.Skills.{list_skills, activate_skill}
use secretagent_rust_agent.Agent.{Fault, fine, lost, unsynced}
use secretagent_rust_agent.Schedule.{gate, next_fire_unix}

-- The lines that were printed, or the code and the message of an exit.
pub data Report : Type 0 where
  printed : List String → Report
  exited : ℕ → String → Report

-- What a command leaves: the store, and the records of the log, the last one first.
pub record Kept : Type 0 where
  pub store : Store
  pub log : List AuditEvent

pub record Answers : Type 0 where
  pub load_config : Outcome (Unit {0})
  pub build_provider : Outcome (Unit {0})
  pub reply : Outcome String
  pub open_store : Outcome (Unit {0})
  pub open_audit : Outcome (Unit {0})
  pub statement : Outcome (Unit {0})
  pub append : Fault

-- `context`
abbrev pub with_context {ℓ} : {A : Type ℓ} → String → Outcome A → Outcome A
with_context message (ok a) = ok a
with_context message (err e) = err message

-- A statement on the store, by what the store answers to it.
abbrev pub stated :
    Outcome (Unit {0}) → Kept → (Unit {0} → Outcome Report × Kept) → Outcome Report × Kept
stated (err e) s k = (err e, s)
stated (ok u) s k = k u

abbrev pub grant_line : List String → String
unfolding join
grant_line [] = "  no tool grant (read-only run)"
grant_line (t ∷ tools) = format ("  frozen tool grant: " ∷ join ", " (t ∷ tools) ∷ [])

abbrev pub armed_lines : ℕ → String → String → ℕ → List String → List String
unfolding grant_line
armed_lines id cron_expr connector next tools =
    format (
      "scheduled job "
      ∷ decimal id
      ∷ ": `"
      ∷ cron_expr
      ∷ "` (UTC) -> "
      ∷ connector
      ∷ "; next fire at unix "
      ∷ decimal next
      ∷ [])
    ∷ grant_line tools
    ∷ []

module _ {Schedule : Type 0} (parse : String → Option Schedule)
    (upcoming : Schedule → ℕ → ℕ → List ℕ) where
  -- The cron text of a request and its next time, up to the store.
  unfoldable pub proposed : Answers → ℕ → Outcome (String × ℕ)
  unfolding next_fire_unix
  proposed a now = a.load_config >>= λ c. a.build_provider >>= λ p.
      with_context "the model did not propose a valid cron expression" (gate parse upcoming a.reply)
      >>= λ cron_expr. next_fire_unix parse upcoming cron_expr now >>= λ next.
          a.open_store >>= λ o. ok (cron_expr, next)

  unfoldable pub armed :
      (List String → String)
      → Answers
      → String
      → String
      → String
      → List String
      → Kept
      → Outcome (String × ℕ)
      → Outcome Report × Kept
  unfolding add_cron_job armed_lines
  armed to_string a request connector chat tools s (err e) = (err e, s)
  armed to_string a request connector chat tools s (ok (cron_expr, next)) =
      let r =
        add_cron_job request cron_expr request connector chat (to_string tools) next s.store in
      stated a.statement s (λ u.
        (ok (printed (armed_lines r.1 cron_expr connector next tools)), record s { store = r.0 }))

  -- `schedule add`; `to_string` is the JSON of a list of texts.
  unfoldable pub schedule_add :
      (List String → String)
      → Answers
      → ℕ
      → String
      → String
      → String
      → List String
      → Kept
      → Outcome Report × Kept
  unfolding armed proposed
  schedule_add to_string a now request connector chat tools s =
      armed to_string a request connector chat tools s (proposed a now)

abbrev pub last_text : Option ℕ → String
last_text none = "never"
last_text (some t) = decimal t

abbrev pub job_line : CronJob → String
job_line j = format (
    "["
    ∷ decimal j.id
    ∷ "] "
    ∷ j.nl_spec
    ∷ " `"
    ∷ j.cron_expr
    ∷ "` -> "
    ∷ j.target_connector
    ∷ " (next "
    ∷ decimal j.next_run
    ∷ ", last "
    ∷ last_text j.last_run
    ∷ ", "
    ∷ (if j.enabled then "enabled" else "disabled")
    ∷ ")"
    ∷ [])

abbrev pub jobs_report : List CronJob → Report
jobs_report [] = printed ("no scheduled jobs" ∷ [])
jobs_report (j ∷ jobs) = printed (map job_line (j ∷ jobs))

-- `schedule list`
unfoldable pub schedule_list : Answers → Kept → Outcome Report
unfolding list_cron_jobs
schedule_list a s =
    a.open_store >>= λ o. a.statement >>= λ u. ok (jobs_report (list_cron_jobs s.store))

abbrev pub removed : ℕ → Kept → Store × ℕ → Outcome Report × Kept
removed id s (st, n) =
    if nat_eq n 0
    then (ok (exited 2 (format ("no such job: " ∷ decimal id ∷ []))), record s { store = st })
    else (ok (printed (format ("removed job " ∷ decimal id ∷ []) ∷ [])), record s { store = st })

-- `schedule remove`
unfoldable pub schedule_remove : Answers → ℕ → Kept → Outcome Report × Kept
unfolding remove_cron_job
schedule_remove a id s =
    stated (a.open_store >>= λ o. a.statement) s (λ u. removed id s (remove_cron_job id s.store))

-- `pref set`; `trusted` is the JSON of the provenance.
unfoldable pub pref_set : Answers → String → String → String → Kept → Outcome Report × Kept
unfolding set_preference
pref_set a trusted dimension value s = stated (a.open_store >>= λ o. a.statement) s (λ u. (
  ok (printed (format ("remembered " ∷ dimension ∷ ": " ∷ value ∷ []) ∷ [])),
  record s { store = set_preference dimension value trusted "cli" s.store },
))

abbrev pub pref_line : Preference → String
pref_line p = format (p.dimension ∷ ": " ∷ p.value ∷ [])

-- `pref list`
unfoldable pub pref_list : Answers → Kept → Outcome Report
pref_list a s =
    a.open_store >>= λ o. a.statement >>= λ u. ok (printed (map pref_line (preferences s.store)))

-- `{:.2}` of a score, which is in hundredths.
abbrev pub two_places : ℕ → String
two_places n =
    format
      (decimal (n / 100) ∷ "." ∷ (if ltb (n % 100) 10 then "0" else "") ∷ decimal (n % 100) ∷ [])

abbrev pub skill_line : Skill → String
skill_line k =
    format (
      k.name ∷ "  [" ∷ k.status ∷ "]  runs=" ∷ decimal k.runs ∷ " score=" ∷ two_places k.score ∷ [])

-- `skill list`
unfoldable pub skill_list : Answers → Kept → Outcome Report
skill_list a s =
    a.open_store >>= λ o. a.statement >>= λ u. ok (printed (map skill_line (list_skills s.store)))

abbrev pub activation : String → AuditEvent
activation name = record { action = "skill.activate"; key_id = name; principal = some "operator" }

-- The skill is active when its record is written; a record that is not synced is in the log.
abbrev pub recorded : Fault → String → Kept → Outcome Report × Kept
recorded fine name s = (
  ok (printed (format ("activated skill: " ∷ name ∷ []) ∷ [])),
  record s { log = activation name ∷ s.log },
)
recorded lost name s = (err "write failed", s)
recorded unsynced name s = (err "sync failed", record s { log = activation name ∷ s.log })

abbrev pub activated : Answers → String → Kept → Store × ℕ → Outcome Report × Kept
activated a name s (st, n) =
    if nat_eq n 0
    then (ok (exited 2 (format ("no such skill: " ∷ name ∷ []))), record s { store = st })
    else recorded a.append name (record s { store = st })

-- `skill activate`
unfoldable pub skill_activate : Answers → String → String → Kept → Outcome Report × Kept
unfolding activate_skill
skill_activate a trusted name s =
    stated (a.open_store >>= λ o. a.open_audit >>= λ u. a.statement) s
      (λ u. activated a name s (activate_skill name trusted s.store))
