-- ===== src/Tools/Builtin.antt =====
-- crates/sa-tools/src/lib.rs: the tools `fetch`, `read_file`, `write_file` and `execute_code`. JSON is
-- a parameter, `egress_get` is an operation of the system here.
use Prim.Native.String.{len}
use secretagent_rust_agent.Base.{
  String, Bool, true, false, ◌&&◌, [], ◌∷◌, reverse, Option, none, some, Outcome, ok, err, format,
  unwrap_or,
}
use secretagent_rust_agent.Text.Words.{decimal}
use secretagent_rust_agent.Policy.{FilePath, Policy, path_allowed, pop}
use secretagent_rust_agent.Exec.{
  egress, read, make_dirs, write, unconfined, System, Logged, Io, Backend, is_local, perform,
  run_backend,
}
use secretagent_rust_agent.Tools.{Tool, Registry, register}

-- `Path::parent`
abbrev pub parent : FilePath → Option FilePath
parent path = elim (pop (reverse path)) [ none ↦ none | some rest ↦ some (reverse rest) ]

-- The report of a write that succeeded.
abbrev pub wrote :
    {World : Type 0}
    → String
    → String
    → Outcome String × Logged World
    → Outcome String × Logged World
wrote path content (ok out, s) =
    (ok (format ("wrote " ∷ decimal (len content) ∷ " bytes to " ∷ path ∷ [])), s)
wrote path content (err e, s) = (err e, s)

module _ {World : Type 0} (sys : System World) where
  abbrev pub fetch_url : Option String → Policy → Io World
  fetch_url none policy s = (err "fetch: missing 'url'", s)
  fetch_url (some url) policy s = perform sys (egress url) policy s

  abbrev pub read_if : Bool → String → FilePath → Policy → Io World
  read_if false path file policy s = (err (format ("path denied: " ∷ path ∷ [])), s)
  read_if true path file policy s = perform sys (read file) policy s

  abbrev pub read_at : Option String → Policy → Io World
  read_at none policy s = (err "read_file: missing 'path'", s)
  read_at (some path) policy s =
      read_if (path_allowed (sys.disk s.world) policy (sys.to_path path) false) path
        (sys.to_path path) policy s

  -- The write itself, once the folder is there.
  abbrev pub write_then :
      String
      → String
      → FilePath
      → Policy
      → Outcome String × Logged World
      → Outcome String × Logged World
  write_then path content file policy (ok out, s) =
      wrote path content (perform sys (write file content) policy s)
  write_then path content file policy (err e, s) = (err e, s)

  abbrev pub create_parent : Option FilePath → Policy → Io World
  create_parent none policy s = (ok "", s)
  create_parent (some folder) policy s = perform sys (make_dirs folder) policy s

  abbrev pub write_if : Bool → String → String → FilePath → Policy → Io World
  write_if false path content file policy s = (err (format ("path denied: " ∷ path ∷ [])), s)
  write_if true path content file policy s =
      write_then path content file policy (create_parent (parent file) policy s)

  abbrev pub write_at : Option String → String → Policy → Io World
  write_at none content policy s = (err "write_file: missing 'path'", s)
  write_at (some path) content policy s =
      write_if (path_allowed (sys.disk s.world) policy (sys.to_path path) true) path content
        (sys.to_path path) policy s

  -- The override applies to the local backend only; any other refusal stands.
  abbrev pub after_refusal :
      Bool → String → Policy → Outcome String × Logged World → Outcome String × Logged World
  after_refusal overridden code policy (ok out, s) = (ok out, s)
  after_refusal false code policy (err e, s) = (err e, s)
  after_refusal true code policy (err e, s) = perform sys (unconfined code) policy s

  abbrev pub execute : Backend → Bool → Option String → Policy → Io World
  execute backend allow none policy s = (err "execute_code: missing 'code'", s)
  execute backend allow (some code) policy s =
      after_refusal (allow && is_local backend) code policy (run_backend sys backend code policy s)

module _ {Value World : Type 0} (sys : System World) (get : Value → String → Option Value)
    (as_str : Value → Option String) (schema : String → Value) where
  -- `args.get(key).and_then(|v| v.as_str())`
  abbrev pub text_arg : Value → String → Option String
  text_arg args key = elim (get args key) [ none ↦ none | some v ↦ as_str v ]

  unfoldable pub run_fetch : Value → Policy → Io World
  run_fetch args policy = fetch_url sys (text_arg args "url") policy

  unfoldable pub run_read_file : Value → Policy → Io World
  run_read_file args policy = read_at sys (text_arg args "path") policy

  unfoldable pub run_write_file : Value → Policy → Io World
  run_write_file args policy =
      write_at sys (text_arg args "path") (unwrap_or (text_arg args "content") "") policy

  unfoldable pub run_execute_code : Backend → Bool → Value → Policy → Io World
  run_execute_code backend allow args policy =
      execute sys backend allow (text_arg args "code") policy

  abbrev pub fetch : Tool Value (Logged World)
  fetch = record {
    name = "fetch";
    description = "HTTP GET an allow-listed URL; returns the body (untrusted).";
    parameters = schema "fetch";
    run = run_fetch;
  }

  abbrev pub read_file : Tool Value (Logged World)
  read_file = record {
    name = "read_file";
    description = "Read a file within an allowed read root (untrusted).";
    parameters = schema "read_file";
    run = run_read_file;
  }

  abbrev pub write_file : Tool Value (Logged World)
  write_file = record {
    name = "write_file";
    description = "Write a file within an allowed write root (requires approval).";
    parameters = schema "write_file";
    run = run_write_file;
  }

  abbrev pub execute_code : Backend → Bool → Tool Value (Logged World)
  execute_code backend allow = record {
    name = "execute_code";
    description =
        "Run a shell snippet on the operator-configured execution backend, confined to the policy's file roots. The backend (local landlock / docker / ssh) is operator-set, never chosen here.";
    parameters = schema "execute_code";
    run = run_execute_code backend allow;
  }

  unfoldable pub default_tools : Registry Value (Logged World)
  default_tools = register (register (register (record { tools = [] }) fetch) read_file) write_file
