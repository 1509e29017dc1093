-- ===== src/Memory/Cron.antt =====
-- Scheduled jobs.
use secretagent_rust_agent.Base.{
  ℕ, String, Bool, true, ◌&&◌, not, List, [], ◌∷◌, ◌++◌, map, filter, none, some, leb, nat_eq,
  if◌then◌else◌, length,
}
use secretagent_rust_agent.Memory.{CronJob, Store, next_rowid}

unfoldable pub add_cron_job :
    String → String → String → String → String → String → ℕ → Store → Store × ℕ
add_cron_job nl_spec cron_expr action connector chat tools next_run st =
    let id = next_rowid (λ (j : CronJob). j.id) st.cron_jobs in
    (
      record st {
        cron_jobs =
            st.cron_jobs
            ++ record {
              id = id;
              nl_spec = nl_spec;
              cron_expr = cron_expr;
              action = action;
              target_connector = connector;
              target_chat = chat;
              allowed_tools = tools;
              last_run = none;
              next_run = next_run;
              enabled = true;
            }
              ∷ [];
      },
      id,
    )

abbrev pub is_due : ℕ → CronJob → Bool
is_due now j = j.enabled && leb j.next_run now

-- `ORDER BY next_run`, by insertion
unfoldable pub insert_job : CronJob → List CronJob → List CronJob
insert_job j [] = j ∷ []
insert_job j (i ∷ rows) =
    let rest = insert_job j rows in if leb j.next_run i.next_run then j ∷ i ∷ rows else i ∷ rest

unfoldable pub sort_jobs : List CronJob → List CronJob
unfolding insert_job
sort_jobs [] = []
sort_jobs (j ∷ rows) = insert_job j (sort_jobs rows)

unfoldable pub due_jobs : ℕ → Store → List CronJob
unfolding sort_jobs
due_jobs now st = sort_jobs (filter (is_due now) st.cron_jobs)

abbrev pub fired_row : ℕ → ℕ → ℕ → CronJob → CronJob
fired_row id last next j =
    if nat_eq j.id id then record j { last_run = some last; next_run = next } else j

unfoldable pub mark_fired : ℕ → ℕ → ℕ → Store → Store
mark_fired id last next st = record st { cron_jobs = map (fired_row id last next) st.cron_jobs }

-- `ORDER BY id` is the order of the rows.
unfoldable pub list_cron_jobs : Store → List CronJob
list_cron_jobs st = st.cron_jobs

-- The number of rows that were deleted comes second.
unfoldable pub remove_cron_job : ℕ → Store → Store × ℕ
remove_cron_job id st = (
  record st { cron_jobs = filter (λ (j : CronJob). not (nat_eq j.id id)) st.cron_jobs },
  length (filter (λ (j : CronJob). nat_eq j.id id) st.cron_jobs),
)
