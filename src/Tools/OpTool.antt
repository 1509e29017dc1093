-- ===== src/Tools/OpTool.antt =====
-- crates/sa-tools/src/tools/op_tool.rs and shell.rs: a command that the operator fixed, of which the
-- model gives the last argument, and the shell on the operator's backend.
use secretagent_rust_agent.Base.{
  String, ◌≡◌, refl, ap, false, ◌⊎◌, inl, inr, List, [], ◌∷◌, ◌++◌, Option, none, some, Outcome, ok,
  err, format, unwrap_or, if◌then◌else◌,
}
use secretagent_rust_agent.Text.Words.{is_empty}
use secretagent_rust_agent.Json.{Json, get_str}
use secretagent_rust_agent.Policy.{Policy}
use secretagent_rust_agent.Exec.{System, Logged, Io, Backend, spawn, perform}
use secretagent_rust_agent.Tools.Builtin.{execute}

-- The program is the first part of `cmd`, which is not empty.
pub record OpTool : Type 0 where
  pub name : String
  pub program : String
  pub flags : List String
  pub description : String

abbrev pub described : String → Option String → String
described name description = unwrap_or description (
    format (
      "Operator-configured external tool '" ∷ name ∷ "'. You provide only the input argument."
      ∷ []))

abbrev pub with_cmd : String → Option String → List String → Outcome OpTool
with_cmd name description [] =
    err (format ("op_tool '" ∷ name ∷ "': cmd must contain at least the program (argv[0])" ∷ []))
with_cmd name description (program ∷ flags) = ok (record {
  name = name;
  program = program;
  flags = flags;
  description = described name description;
})

unfoldable pub op_tool : String → List String → Option String → Outcome OpTool
op_tool name cmd description =
    if is_empty name then err "op_tool: name is required" else with_cmd name description cmd

unfoldable pub build_argv : OpTool → String → List String
build_argv t input = t.program ∷ t.flags ++ (input ∷ [])

module _ (j : Json) {World : Type 0} (sys : System World) where
  open j use {Value, string, object}

  abbrev pub spawned : OpTool → Outcome String × Logged World → Outcome String × Logged World
  spawned t (ok out, s) = (ok out, s)
  spawned t (err e, s) =
      (err (format ("op_tool '" ∷ t.name ∷ "': failed to spawn '" ∷ t.program ∷ "': " ∷ e ∷ [])), s)

  abbrev pub with_input : OpTool → Option String → Policy → Io World
  unfolding perform build_argv
  with_input t none policy s = (err (format ("op_tool '" ∷ t.name ∷ "': missing 'input'" ∷ [])), s)
  with_input t (some input) policy s =
      spawned t (perform sys (spawn (build_argv t input) "") policy s)

  -- The standard output and error of the program are the text of `spawn`.
  unfoldable pub run : OpTool → Value → Policy → Io World
  unfolding with_input
  run t args policy s = with_input t (get_str j args "input") policy s

  abbrev pub with_command : Backend → Option String → Policy → Io World
  with_command backend none policy s = (err "shell: missing 'command'", s)
  with_command backend (some command) policy s =
      execute sys backend false (get_str j (object (("code", string command) ∷ [])) "code") policy s

  unfoldable pub run_shell : Backend → Value → Policy → Io World
  run_shell backend args policy s = with_command backend (get_str j args "command") policy s

  spawned-same : (t : OpTool) (r : Outcome String × Logged World) → (spawned t r).1 ≡ r.1
  spawned-same t (ok out, s) = refl
  spawned-same t (err e, s) = refl

  with_input-build_argv :
      (t : OpTool) (args : Value) (policy : Policy) (s : Logged World) (o : Option String)
      → get_str j args "input" ≡ o
      → let after = (with_input t o policy s).1 in
        (after.ops ≡ s.ops)
        ⊎ ((input : String) × (get_str j args "input" ≡ some input)
            × (after.ops ≡ spawn (t.program ∷ t.flags ++ (input ∷ [])) "" ∷ s.ops))
  unfolding with_input perform build_argv
  with_input-build_argv t args policy s none e = inl refl
  with_input-build_argv t args policy s (some input) e = inr (
    input,
    e,
    ap (λ (l : Logged World). l.ops)
        (spawned-same t (perform sys (spawn (build_argv t input) "") policy s)),
  )

  -- An operator's command is started at most once in a run, as the operator wrote it, with the
  -- model's text as its one last argument and no input; nothing else is asked of the system.
  pub run-build_argv :
      (t : OpTool) (args : Value) (policy : Policy) (s : Logged World)
      → let after = (run t args policy s).1 in
        (after.ops ≡ s.ops)
        ⊎ ((input : String) × (get_str j args "input" ≡ some input)
            × (after.ops ≡ spawn (t.program ∷ t.flags ++ (input ∷ [])) "" ∷ s.ops))
  unfolding run
  run-build_argv t args policy s =
      with_input-build_argv t args policy s (get_str j args "input") refl
