-- ===== src/Agent/Tests.antt =====
-- crates/sa-core/src/lib.rs: runs of a sample program, whose model follows a script.
use secretagent_rust_agent.Base.{String, ◌≡◌, refl, true, false, [], Outcome, All}
use secretagent_rust_agent.Principal.{operator_run, may_persist, may_auto_activate_skill}
use secretagent_rust_agent.Memory.{empty_store, Store, MessageRow}
use secretagent_rust_agent.Agent.Effects.{State}
use secretagent_rust_agent.Agent.Run.Tasks.{run_task}
use secretagent_rust_agent.Agent.Run.Prelude.{task}
use secretagent_rust_agent.Agent.Run.Recursion.{run_task_recursion}
use secretagent_rust_agent.Agent.Safety.Tools.{
  IsPermitted, IsRecorded, IsNotOperators, dispatch-IsPermitted, dispatch-IsRecorded,
  no_record_claims_operator,
}
use secretagent_rust_agent.Agent.Safety.Conversation.{IsGuarded, output_is_data}
use secretagent_rust_agent.Agent.Safety.Memory.{
  remote_run_changes_messages_only, no_activation_without_approval, run_stores_no_secret,
}
use secretagent_rust_agent.Memory.Skills.Laws.{live, HasNoSecrets}
use secretagent_rust_agent.Agent.Sample.{sample, start, delegating, sender, Script}
use secretagent_rust_agent.Memory.Messages.{
  StoredMsg, add_message, summary, set_summary, all_messages,
}
use secretagent_rust_agent.Text.Words.{trim}
use secretagent_rust_agent.Agent.Effects.{query, update}
use secretagent_rust_agent.Agent.Learn.{new_message}
use secretagent_rust_agent.Agent.Chat.{to_summarize, summarize_session}
use secretagent_rust_agent.Agent.Chat.{ChatMsg, assemble_context}
use secretagent_rust_agent.Agent.Chat.Twice.{assemble_context-add_message}
use secretagent_rust_agent.Base.{◌++◌, Bool}
use Prim.Native.Char.{Char}
use secretagent_rust_agent.Agent.Chat.Summaries.{Step, said, summarized, fold_all}
use secretagent_rust_agent.Base.{ok, List, ◌∷◌, map}

dispatch-IsPermitted_example :
    All
      (IsPermitted (operator_run true))
      (run_task sample "s" "keep notes" (operator_run true) (start delegating)).1.trace
dispatch-IsPermitted_example =
    dispatch-IsPermitted sample (operator_run true) "s" "keep notes" (start delegating) tt

dispatch-IsRecorded_example :
    IsRecorded
      (operator_run true)
      (run_task sample "s" "keep notes" (operator_run true) (start delegating)).1.trace
dispatch-IsRecorded_example =
    dispatch-IsRecorded sample (operator_run true) "s" "keep notes" (start delegating) tt

output_is_data_example :
    All
      (IsGuarded sample (operator_run true) empty_store)
      (run_task sample "s" "keep notes" (operator_run true) (start delegating)).1.trace
output_is_data_example =
    output_is_data sample (operator_run true) "s" "keep notes" (start delegating)
      (λ Q query rows a. a) tt

sender_may_not_persist : may_persist sender ≡ false
unfolding may_persist
sender_may_not_persist = refl

no_record_claims_operator_example :
    All IsNotOperators (run_task sample "s" "keep notes" sender (start delegating)).1.trace
no_record_claims_operator_example =
    no_record_claims_operator sample sender "s" "keep notes" (start delegating)
      sender_may_not_persist tt

run_task_recursion_example :
    run_task sample "s" "keep notes" (operator_run true) (start delegating)
    ≡ task sample (run_task sample) "s" "keep notes" (operator_run true) (start delegating)
run_task_recursion_example =
    run_task_recursion sample "s" "keep notes" (operator_run true) (start delegating)

run_stores_no_secret_example :
    HasNoSecrets (run_task sample "s" "keep notes" (operator_run true) (start delegating)).1.store
run_stores_no_secret_example =
    run_stores_no_secret sample (operator_run true) "s" "keep notes" (start delegating) (tt, tt)

remote_run_changes_messages_only_example :
    let st = (run_task sample "s" "keep notes" sender (start delegating)).1.store in
    (st.skills ≡ [])
    × (st.skill_versions ≡ [])
    × (st.user_model ≡ [])
    × (st.summaries ≡ [])
    × (st.cron_jobs ≡ [])
remote_run_changes_messages_only_example =
    remote_run_changes_messages_only sample sender "s" "keep notes" (start delegating)
      sender_may_not_persist

strict_may_not_activate : may_auto_activate_skill (operator_run false) ≡ false
unfolding may_auto_activate_skill
strict_may_not_activate = refl

no_activation_without_approval_example :
    live (run_task sample "s" "keep notes" (operator_run false) (start delegating)).1.store.skills
    ≡ []
no_activation_without_approval_example =
    no_activation_without_approval sample (operator_run false) "s" "keep notes" (start delegating)
      strict_may_not_activate

-- The run with a subagent.
abbrev delegated : Outcome String × State String Script
delegated = run_task sample "s" "keep notes" (operator_run true) (start delegating)

-- Eight messages of a session, two summaries of it, and messages of another session between them.
abbrev eight : List Step
eight =
    said "s" "user" "one" "{}"
    ∷ said "s" "assistant" "two" "{}"
    ∷ said "t" "user" "other" "{}"
    ∷ said "s" "user" "three" "{}"
    ∷ said "s" "assistant" "four" "{}"
    ∷ said "s" "user" "five" "{}"
    ∷ said "s" "assistant" "six" "{}"
    ∷ said "s" "user" "seven" "{}"
    ∷ summarized "s"
    ∷ said "s" "assistant" "eight" "{}"
    ∷ summarized "t"
    ∷ summarized "s"
    ∷ []

abbrev summarizing : List Step → List StoredMsg × State String Script
summarizing xs =
    fold_all sample (λ query rows. rows) (λ ctx. ok []) (λ prompt. ok "short") "s" xs (start [])

-- The two summaries fold the first two messages.
two_folded : map (λ (m : StoredMsg). m.content) (summarizing eight).0 ≡ "one" ∷ "two" ∷ []
unfolding fold_all summarize_session query update to_summarize summary set_summary all_messages trim
    new_message add_message
two_folded = refl

abbrev every : Char → Bool
every c = true

abbrev all_rows : String → List MessageRow → List MessageRow
all_rows query rows = rows

-- A session with one message before.
abbrev one_message : Store
one_message = (add_message "s" "assistant" "hello" "{}" empty_store).0

assemble_context-add_message_example :
    (before : List ChatMsg) × (assemble_context every all_rows "s" "keep notes"
        (add_message "s" "user" "keep notes" "{}" one_message).0
      ≡ before
        ++ record { role = "user"; content = "keep notes" }
          ∷ record { role = "user"; content = "keep notes" }
          ∷ [])
assemble_context-add_message_example =
    assemble_context-add_message every all_rows "s" "keep notes" one_message (λ Q query rows a. a)
