-- ===== src/Tools/Tests.antt =====
-- crates/sa-tools/src/lib.rs: the built-in tools on a sample system.
use secretagent_rust_agent.Base.{String, refl, true, [], ◌∷◌, Option, none, some, ok, inr, All}
use secretagent_rust_agent.Policy.{FilePath, Policy, normal, root_dir}
use secretagent_rust_agent.Exec.{System, docker, is_local}
use secretagent_rust_agent.Tools.Builtin.{run_read_file, run_write_file, run_execute_code}
use secretagent_rust_agent.Tools.Execution.{RunsAt, execute_code-RunsAt}
use secretagent_rust_agent.Tools.Confined.{IsWithin, fresh, files_stay_in_policy}

abbrev root : FilePath
root = root_dir ∷ normal "work" ∷ []

abbrev sample_policy : Policy
sample_policy = record { egress_allow = []; read_roots = root ∷ []; write_roots = root ∷ [] }

-- Every operation succeeds, the disk is empty, and any text stands for the same file.
abbrev sample : System (Unit {0})
sample = record {
  perform = λ op policy w. (ok "done", w);
  disk = λ w path. none;
  to_path = λ s. root_dir ∷ normal "work" ∷ normal "notes" ∷ [];
  to_str = λ path. some "/work";
}

abbrev field : String → String → Option String
field v k = some v

abbrev as_text : String → Option String
as_text v = some v

abbrev schema : String → String
schema name = name

files_stay_in_policy_example :
    All
      (IsWithin sample sample_policy tt)
      (run_read_file sample field as_text schema "notes" sample_policy (fresh sample tt)).1.ops
    × All
        (IsWithin sample sample_policy tt)
        (run_write_file sample field as_text schema "notes" sample_policy (fresh sample tt)).1.ops
files_stay_in_policy_example =
    files_stay_in_policy sample field as_text schema "notes" sample_policy tt

execute_code-RunsAt_example :
    All
      (RunsAt sample (docker "alpine") sample_policy (some "ls"))
      (run_execute_code sample field as_text schema
        (docker "alpine")
        true
        "ls"
        sample_policy
        (fresh sample tt)).1.ops
unfolding is_local
execute_code-RunsAt_example =
    execute_code-RunsAt sample field as_text schema (docker "alpine") true "ls" sample_policy tt
      (inr refl)
