-- ===== src/Gateway/Tick.antt =====
-- secretagent/src/gateway.rs, `tick_scheduler`: the jobs that are due before and after a tick.
use secretagent_rust_agent.Base.{
  ℕ, ◌<◌, String, ◌≡◌, refl, sym, true, List, [], ◌∷◌, map, filter, find, Option, none, some,
  Outcome, ok, err, ok_inj, ◌==◌, nat_eq, leb, All, Any, inl, inr, arith, Bool-cases,
}
use mathlib.Core.Path.{subst}
use secretagent_rust_agent.Memory.{Store, CronJob}
use secretagent_rust_agent.Memory.Cron.{
  is_due, insert_job, sort_jobs, due_jobs, fired_row, mark_fired,
}
use secretagent_rust_agent.Agent.{fine, Host}
use secretagent_rust_agent.Agent.Effects.{State, continue, query, update}
use secretagent_rust_agent.Connectors.{OutboundMsg}
use secretagent_rust_agent.Schedule.{first_time, next_of, next_fire_unix, to_schedule}
use secretagent_rust_agent.Gateway.{
  ConnectorConfig, fire_job, fire_on, try_fire, next_run_after, advance, fire_all, tick_scheduler,
}
use secretagent_rust_agent.Gateway.Boundary.{All-map, fire_job-Confined}

-- Each row that is due has the id of one of the jobs.
abbrev Covered : ℕ → List CronJob → List CronJob → Type 0
Covered now jobs rows =
    All (λ (j : CronJob). is_due now j ≡ true → Any (λ (k : CronJob). k.id ≡ j.id) jobs) rows

advance-Covered :
    (now next : ℕ) (job : CronJob) (jobs rows : List CronJob)
    → now < next
    → Covered now (job ∷ jobs) rows
    → Covered now jobs (map (fired_row job.id now next) rows)
advance-Covered now next job jobs [] h c = tt
advance-Covered now next job jobs (j ∷ rows) h c = elim (Bool-cases (nat_eq j.id job.id)) [
  | inl e ↦
      rw e ((λ due. absurd (ground (arith, due, h))), advance-Covered now next job jobs rows h c.1)
  | inr e ↦ rw e (
    (λ due. elim (c.0 due) [ inl same ↦ absurd (ground (arith, same, e)) | inr a ↦ a ]),
    advance-Covered now next job jobs rows h c.1,
  )
]

insert-Any :
    (P : CronJob → Type 0) (j : CronJob) (rows : List CronJob)
    → Any P (j ∷ rows)
    → Any P (insert_job j rows)
unfolding insert_job
insert-Any P j [] a = a
insert-Any P j (i ∷ rows) a = elim (Bool-cases (leb j.next_run i.next_run)) [
  | inl e ↦ rw e a
  | inr e ↦ rw e (elim a [
    | inl here ↦ inr (insert-Any P j rows (inl here))
    | inr (inl first) ↦ inl first
    | inr (inr later) ↦ inr (insert-Any P j rows (inr later))
  ])
]

sort-Any : (P : CronJob → Type 0) (rows : List CronJob) → Any P rows → Any P (sort_jobs rows)
unfolding sort_jobs
sort-Any P [] a = a
sort-Any P (j ∷ rows) (inl here) = insert-Any P j (sort_jobs rows) (inl here)
sort-Any P (j ∷ rows) (inr later) = insert-Any P j (sort_jobs rows) (inr (sort-Any P rows later))

filter-here :
    (now : ℕ) (j : CronJob) (rows : List CronJob)
    → is_due now j ≡ true
    → Any (λ (k : CronJob). k.id ≡ j.id) (filter (is_due now) (j ∷ rows))
filter-here now j rows e = rw e (inl refl)

filter-later :
    (P : CronJob → Type 0) (now : ℕ) (j : CronJob) (rows : List CronJob)
    → Any P (filter (is_due now) rows)
    → Any P (filter (is_due now) (j ∷ rows))
filter-later P now j rows a = elim (Bool-cases (is_due now j)) [
  | inl e ↦ rw e (inr a)
  | inr e ↦ rw e a
]

filter-Covered : (now : ℕ) (rows : List CronJob) → Covered now (filter (is_due now) rows) rows
filter-Covered now [] = tt
filter-Covered now (j ∷ rows) = (
  filter-here now j rows,
  All-map _ _ (λ i f due. filter-later (λ (k : CronJob). k.id ≡ i.id) now j rows (f due)) rows
      (filter-Covered now rows),
)

due-Covered : (now : ℕ) (st : Store) → Covered now (due_jobs now st) st.cron_jobs
unfolding due_jobs
due-Covered now st =
    All-map _ _ (λ j f due. sort-Any _ (filter (is_due now) st.cron_jobs) (f due)) st.cron_jobs
      (filter-Covered now st.cron_jobs)

none_due : (now : ℕ) (rows : List CronJob) → Covered now [] rows → filter (is_due now) rows ≡ []
none_due now [] c = refl
none_due now (j ∷ rows) c = elim (Bool-cases (is_due now j)) [
  | inl e ↦ absurd (c.0 e)
  | inr e ↦ rw e (none_due now rows c.1)
]

next_run_later :
    (now : ℕ) (o : Outcome ℕ) → ((n : ℕ) → o ≡ ok n → now < n) → now < next_run_after now o
next_run_later now (ok n) k = k n refl
next_run_later now (err e) k = omega arith

module _ {Value World : Type 0} (h : Host Value World) where
  module _ (parse_tools : String → Option (List String))
      (send : String → OutboundMsg → World → Outcome (Unit {0}) × World)
      (construct : ConnectorConfig → Outcome (Option String))
      (next_fire_unix : String → ℕ → Outcome ℕ) where
    -- A firing, whatever becomes of it, leaves the jobs as they were.
    fired_jobs :
        (job : CronJob) (connector : String) (s : State Value World)
        → (fire_job h parse_tools send construct next_fire_unix job connector s).1.store.cron_jobs
          ≡ s.store.cron_jobs
    fired_jobs job connector s =
        (fire_job-Confined h parse_tools send construct next_fire_unix job connector s).1.4

    -- An attempt to fire ends well, and leaves the jobs as they were.
    abbrev LeavesJobs : List CronJob → Outcome (Unit {0}) × State Value World → Type 0
    LeavesJobs jobs r = (r.0 ≡ ok tt) × (r.1.store.cron_jobs ≡ jobs)

    fire_on-LeavesJobs :
        (job : CronJob) (built : Outcome (Option String)) (s : State Value World)
        → LeavesJobs s.store.cron_jobs
            (fire_on h parse_tools send construct next_fire_unix job built s)
    fire_on-LeavesJobs job (ok none) s = (refl, refl)
    fire_on-LeavesJobs job (err e) s = (refl, refl)
    fire_on-LeavesJobs job (ok (some connector)) s = (refl, fired_jobs job connector s)

    try_fire-LeavesJobs :
        (job : CronJob) (binding : Option ConnectorConfig) (s : State Value World)
        → LeavesJobs s.store.cron_jobs
            (try_fire h parse_tools send construct next_fire_unix job binding s)
    try_fire-LeavesJobs job none s = (refl, refl)
    try_fire-LeavesJobs job (some binding) s = fire_on-LeavesJobs job _ s

    -- Where the statements of the store succeed and the next run is later.
    module _ (works : (n : ℕ) → h.fault n ≡ fine)
        (later : (expr : String) (t n : ℕ) → next_fire_unix expr t ≡ ok n → t < n) where
      fired_step :
          (bindings : List ConnectorConfig) (now : ℕ) (job : CronJob) (jobs : List CronJob)
          (r : Outcome (Unit {0}) × State Value World)
          → ((t : State Value World)
              → Covered now jobs t.store.cron_jobs
              → Covered now []
                  (fire_all h parse_tools send construct next_fire_unix bindings now jobs
                    t).1.store.cron_jobs)
          → r.0 ≡ ok tt
          → Covered now (job ∷ jobs) r.1.store.cron_jobs
          → Covered now []
              (continue
                (λ _. fire_all h parse_tools send construct next_fire_unix bindings now jobs)
                (continue
                  (λ _. update h (advance h parse_tools send construct next_fire_unix now job))
                  r)).1.store.cron_jobs
      unfolding update mark_fired
      fired_step bindings now job jobs (ok tt, t) ih e c = rw (works t.calls) (
          ih _ (
            advance-Covered now _ job jobs t.store.cron_jobs
              (next_run_later now (next_fire_unix job.cron_expr now) (later job.cron_expr now)) c))
      fired_step bindings now job jobs (err m, t) ih e c = cc

      fire_all-Covered :
          (bindings : List ConnectorConfig) (now : ℕ) (jobs : List CronJob) (s : State Value World)
          → Covered now jobs s.store.cron_jobs
          → Covered now []
              (fire_all h parse_tools send construct next_fire_unix bindings now jobs
                s).1.store.cron_jobs
      unfolding fire_all
      fire_all-Covered bindings now [] s c = c
      fire_all-Covered bindings now (job ∷ jobs) s c =
          let kept =
            try_fire-LeavesJobs job
              (find (λ (b : ConnectorConfig). b.name == job.target_connector) bindings) s in
          fired_step bindings now job jobs _ (fire_all-Covered bindings now jobs) kept.0
            (subst (Covered now (job ∷ jobs)) (sym kept.1) c)

      due_jobs_after :
          (bindings : List ConnectorConfig) (now : ℕ) (s : State Value World)
          → due_jobs now
              (tick_scheduler h parse_tools send construct next_fire_unix bindings now s).1.store
            ≡ []
      unfolding tick_scheduler query due_jobs sort_jobs
      due_jobs_after bindings now s = rw (works s.calls) (
          rw
            (none_due now _
              (fire_all-Covered bindings now (due_jobs now s.store) _ (due-Covered now s.store)))
            refl)

module _ {Schedule : Type 0} (parse : String → Option Schedule)
    (upcoming : Schedule → ℕ → ℕ → List ℕ) where
  first_time-later :
      (t n : ℕ) (times : List ℕ)
      → All (λ (x : ℕ). t < x) times
      → first_time parse upcoming times ≡ ok n
      → t < n
  first_time-later t n [] a e = cc
  first_time-later t n (x ∷ times) a e = subst (λ y. t < y) (ok_inj x n e) a.0

  next_of-later :
      ((s : Schedule) (t n : ℕ) → All (λ (x : ℕ). t < x) (upcoming s t n))
      → (t n : ℕ) (o : Outcome Schedule) → next_of parse upcoming t o ≡ ok n
      → t < n
  next_of-later after t n (err e) h = cc
  next_of-later after t n (ok s) h = first_time-later t n (upcoming s t 1) (after s t 1) h

  next_fire_unix-later :
      ((s : Schedule) (t n : ℕ) → All (λ (x : ℕ). t < x) (upcoming s t n))
      → (expr : String) (t n : ℕ) → next_fire_unix parse upcoming expr t ≡ ok n
      → t < n
  unfolding next_fire_unix
  next_fire_unix-later after expr t n h =
      next_of-later after t n (to_schedule parse upcoming expr) h

  -- A tick leaves no job due, whatever the runs, the connectors and the deliveries do, and whatever job
  -- names an unknown connector, fails or is undeliverable: provided that no call of the store and no
  -- call of the audit log fails, and that the times which the crate cron gives for a schedule after a
  -- time are later than it.
  pub tick-due_jobs :
      {Value World : Type 0} (h : Host Value World) (parse_tools : String → Option (List String))
      (send : String → OutboundMsg → World → Outcome (Unit {0}) × World)
      (construct : ConnectorConfig → Outcome (Option String)) (bindings : List ConnectorConfig)
      (now : ℕ) (s : State Value World)
      → ((n : ℕ) → h.fault n ≡ fine)
      → ((c : Schedule) (t n : ℕ) → All (λ (x : ℕ). t < x) (upcoming c t n))
      → due_jobs now
          (tick_scheduler h parse_tools send construct
            (next_fire_unix parse upcoming)
            bindings
            now
            s).1.store
        ≡ []
  tick-due_jobs h parse_tools send construct bindings now s works after =
      due_jobs_after h parse_tools send construct (next_fire_unix parse upcoming) works
        (next_fire_unix-later after) bindings now s
