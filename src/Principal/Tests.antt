-- ===== src/Principal/Tests.antt =====
-- crates/sa-core-types/src/principal.rs: sample contexts.
use secretagent_rust_agent.Base.{◌≡◌, [], ◌∷◌}
use secretagent_rust_agent.Principal.{RunContext, remote_run, subagent_of, may_run_side_effect}
use secretagent_rust_agent.Principal.Authority.{self, child, Descends-may_run_side_effect}

abbrev sender : RunContext
sender = remote_run "slack" "U1" ("write_file" ∷ [])

Descends-may_run_side_effect_example :
    may_run_side_effect (subagent_of (subagent_of sender)) "fs::write_file"
    ≡ may_run_side_effect sender "fs::write_file"
Descends-may_run_side_effect_example =
    Descends-may_run_side_effect sender (subagent_of (subagent_of sender)) "fs::write_file"
      (child (child self))
