-- ===== src/Commands/Armed.antt =====
-- secretagent/src/schedule.rs and gateway.rs: a job that the operator arms, and the run it is fired in.
use mathlib.Core.Path.{subst}
use secretagent_rust_agent.Base.{
  ℕ, String, ◌≡◌, refl, true, ◌⊎◌, inl, inr, List, [], ◌∷◌, ◌++◌, Option, some, Outcome, ok, err,
  bind-ok, ok_inj,
}
use secretagent_rust_agent.Text.Words.{decimal}
use secretagent_rust_agent.Principal.{remote_run}
use secretagent_rust_agent.Memory.{CronJob}
use secretagent_rust_agent.Memory.Cron.{add_cron_job}
use secretagent_rust_agent.Schedule.{gate, next_fire_unix, Validated, gate-Validated}
use secretagent_rust_agent.Agent.{Host}
use secretagent_rust_agent.Connectors.{OutboundMsg}
use secretagent_rust_agent.Gateway.{ConnectorConfig, job_context}
use secretagent_rust_agent.Commands.{Kept, Answers, schedule_add, proposed, armed, with_context}

with_context-ok :
    {A : Type 0} (message : String) (o : Outcome A) (a : A)
    → with_context message o ≡ ok a
    → o ≡ ok a
with_context-ok message (ok x) a h = h
with_context-ok message (err e) a h = cc

module _ {Schedule : Type 0} (parse : String → Option Schedule)
    (upcoming : Schedule → ℕ → ℕ → List ℕ) (to_string : List String → String) {Value World : Type 0}
    (h : Host Value World) (parse_tools : String → Option (List String))
    (send : String → OutboundMsg → World → Outcome (Unit {0}) × World)
    (construct : ConnectorConfig → Outcome (Option String)) where
  -- One job more, and nothing else: the validator accepted its cron text, its next time is the first
  -- behind `now`, it does the request, and it runs with the operator's grant and no other tool.
  pub record IsArmed (now : ℕ) (request connector chat : String) (tools : List String)
      (before after : Kept) : Type 0 where
    pub job : CronJob
    pub added : after ≡ record before {
      store = record before.store { cron_jobs = before.store.cron_jobs ++ (job ∷ []) };
    }
    pub accepted : Validated parse upcoming job.cron_expr
    pub next_is : next_fire_unix parse upcoming job.cron_expr now ≡ ok job.next_run
    pub action_is : job.action ≡ request
    pub target_is : (job.target_connector ≡ connector) × (job.target_chat ≡ chat)
    pub is_enabled : job.enabled ≡ true
    pub context_is :
        job_context h parse_tools send construct (next_fire_unix parse upcoming) job
        ≡ remote_run "cron" (decimal job.id) tools

  proposed-Validated :
      (a : Answers) (now : ℕ) (q : String × ℕ)
      → proposed parse upcoming a now ≡ ok q
      → Validated parse upcoming q.0 × (next_fire_unix parse upcoming q.0 now ≡ ok q.1)
  unfolding proposed
  proposed-Validated a now q p =
      let (c, loaded, p1) = bind-ok a.load_config _ q p in
      let (v, built, p2) = bind-ok a.build_provider _ q p1 in
      let (cron_expr, gated, p3) =
        bind-ok
          (with_context "the model did not propose a valid cron expression"
            (gate parse upcoming a.reply))
          _ q p2 in
      let (next, fires, p4) = bind-ok (next_fire_unix parse upcoming cron_expr now) _ q p3 in
      let (o, opened, same) = bind-ok a.open_store _ q p4 in
      subst
        (λ (x : String × ℕ).
          Validated parse upcoming x.0 × (next_fire_unix parse upcoming x.0 now ≡ ok x.1))
        (ok_inj (cron_expr, next) q same)
        (
          gate-Validated parse upcoming a.reply cron_expr (with_context-ok _ _ cron_expr gated),
          fires,
        )

  armed-IsArmed :
      (a : Answers) (now : ℕ) (request connector chat : String) (tools : List String) (s : Kept)
      (o : Outcome (String × ℕ)) (answer : Outcome (Unit {0}))
      → proposed parse upcoming a now ≡ o
      → parse_tools (to_string tools) ≡ some tools
      → let r =
          armed parse upcoming to_string
            (record a { statement = answer })
            request
            connector
            chat
            tools
            s
            o in
        ((e : String) × (r.0 ≡ err e) × (r.1 ≡ s)) ⊎ IsArmed now request connector chat tools s r.1
  unfolding armed add_cron_job
  armed-IsArmed a now request connector chat tools s (err e) answer p reads = inl (e, refl, refl)
  armed-IsArmed a now request connector chat tools s (ok q) (err e) p reads = inl (e, refl, refl)
  armed-IsArmed a now request connector chat tools s (ok q) (ok u) p reads =
      let (accepted, next_is) = proposed-Validated a now q p in
      inr (record {
        job = _;
        added = refl;
        accepted = accepted;
        next_is = next_is;
        action_is = refl;
        target_is = (refl, refl);
        is_enabled = refl;
        context_is = rw reads refl;
      })

  -- Whatever the model replies and whichever call fails: the command fails and leaves the store and
  -- the log as they were, or it adds one job, whose cron text the validator accepted, whose next time
  -- is the first behind now, and which the gateway runs as a remote context with exactly the tools
  -- that the operator granted, where the JSON of this list reads back.
  pub schedule_add-IsArmed :
      (a : Answers) (now : ℕ) (request connector chat : String) (tools : List String) (s : Kept)
      → parse_tools (to_string tools) ≡ some tools
      → ((e : String) × ((schedule_add parse upcoming to_string a now request connector chat tools
              s).0
            ≡ err e)
          × ((schedule_add parse upcoming to_string a now request connector chat tools s).1 ≡ s))
        ⊎ IsArmed now request connector chat tools s
            (schedule_add parse upcoming to_string a now request connector chat tools s).1
  unfolding schedule_add
  schedule_add-IsArmed a now request connector chat tools s reads =
      armed-IsArmed a now request connector chat tools s (proposed parse upcoming a now) a.statement
        refl reads
