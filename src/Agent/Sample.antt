-- ===== src/Agent/Sample.antt =====
-- crates/sa-core/src/lib.rs: a sample program, whose model follows a script.
use secretagent_rust_agent.Base.{
  String, true, List, [], ◌∷◌, Option, none, some, Outcome, ok, err, ◌==◌, if◌then◌else◌,
}
use secretagent_rust_agent.Types.{Provenance, trusted, untrusted}
use secretagent_rust_agent.Principal.{RunContext, remote_run}
use secretagent_rust_agent.Policy.{Policy}
use secretagent_rust_agent.Memory.{empty_store}
use secretagent_rust_agent.Tools.{Tool}
use secretagent_rust_agent.Agent.{
  ChatMessage, ToolSpec, ProviderAction, text, tool_call, fine, Host,
}
use secretagent_rust_agent.Agent.Effects.{State}

-- The arguments of a sample call are one text, and the script is what the model will do.
abbrev pub Script : Type 0
Script = List (ProviderAction String)

abbrev pub follow :
    List ChatMessage → List (ToolSpec String) → Script → Outcome (ProviderAction String) × Script
follow messages specs [] = (err "no more actions", [])
follow messages specs (a ∷ rest) = (ok a, rest)

abbrev pub echo : String → Tool String Script
echo name = record {
  name = name;
  description = "";
  parameters = "";
  run = λ args policy w. (ok args, w);
}

abbrev pub sample_policy : Policy
sample_policy = record { read_roots = []; write_roots = []; egress_allow = [] }

abbrev pub json_of : Provenance → String
json_of trusted = "{\"kind\":\"trusted\"}"
json_of (untrusted source) = "{\"kind\":\"untrusted\"}"

abbrev pub parsed : String → Option Provenance
parsed s = if s == "{\"kind\":\"trusted\"}" then some trusted else none

abbrev pub sample : Host String Script
sample = record {
  get = λ v k. some v;
  as_str = λ v. some v;
  dump = λ v. v;
  subagent_schema = "";
  act = follow;
  registry = record {
    tools = ("read_file", echo "read_file") ∷ ("write_file", echo "write_file") ∷ [];
  };
  policy = sample_policy;
  fault = λ n. fine;
  provenance_json = json_of;
  parse_provenance = parsed;
  match_skills = λ query rows. rows;
  is_alphanumeric = λ c. true;
  to_lowercase = λ c. String.◌∷◌ c "";
  soul = "";
  context = "";
}

abbrev pub start : Script → State String Script
start script = record { store = empty_store; trace = []; calls = 0; world = script }

-- The model starts a subagent, which writes a file; then the run answers.
abbrev pub delegating : Script
delegating =
    tool_call "1" "subagent" "write the notes"
    ∷ tool_call "2" "write_file" "notes"
    ∷ text "written"
    ∷ text "all done"
    ∷ []

abbrev pub sender : RunContext
sender = remote_run "slack" "U1" ("read_file" ∷ [])
