-- ===== src/Commands/Tests.antt =====
-- secretagent/src/schedule.rs and pref.rs: a job that is armed.
use secretagent_rust_agent.Base.{
  ℕ, zero, suc, ◌+◌, String, ◌≡◌, refl, ◌⊎◌, List, [], ◌∷◌, Option, none, some, Outcome, ok, err,
  ◌==◌, if◌then◌else◌, format,
}
use secretagent_rust_agent.Text.Words.{join}
use secretagent_rust_agent.Memory.Preferences.{
  set_preference, upsert, preferences, sort_by_dimension, insert_by_dimension,
}
use secretagent_rust_agent.Agent.{lost}
use secretagent_rust_agent.Agent.Sample.{Script, sample, start}
use secretagent_rust_agent.Connectors.{OutboundMsg}
use secretagent_rust_agent.Gateway.{ConnectorConfig}
use secretagent_rust_agent.Commands.{Answers, Kept, printed, schedule_add, pref_set, pref_list}
use secretagent_rust_agent.Commands.Armed.{IsArmed, schedule_add-IsArmed}

abbrev hourly : ℕ → ℕ → List ℕ
hourly t zero = []
hourly t (suc n) = (t + 3600) ∷ hourly (t + 3600) n

abbrev every_hour : Unit {0} → ℕ → ℕ → List ℕ
every_hour s t n = hourly t n

abbrev read_all : String → Option (Unit {0})
read_all s = some tt

abbrev tools_json : List String → String
unfolding join
tools_json ts = format ("[\"" ∷ join "\",\"" ts ∷ "\"]" ∷ [])

abbrev tools_of : String → Option (List String)
tools_of s = if s == "[\"read_file\"]" then some ("read_file" ∷ []) else none

abbrev no_send : String → OutboundMsg → Script → Outcome (Unit {0}) × Script
no_send name out w = (ok tt, w)

abbrev no_connector : ConnectorConfig → Outcome (Option String)
no_connector c = ok none

abbrev answers : Answers
answers = record {
  load_config = ok tt;
  build_provider = ok tt;
  reply = ok "`0 * * * *`";
  open_store = ok tt;
  open_audit = ok tt;
  statement = ok tt;
  append = lost;
}

abbrev empty : Kept
empty = record { store = (start []).store; log = [] }

schedule_add-IsArmed_example :
    ((e : String) × ((schedule_add read_all every_hour tools_json answers 100 "tidy up" "slack" "C1"
          ("read_file" ∷ [])
          empty).0
        ≡ err e)
      × ((schedule_add read_all every_hour tools_json answers 100 "tidy up" "slack" "C1"
            ("read_file" ∷ [])
            empty).1
          ≡ empty))
    ⊎ IsArmed read_all every_hour tools_json sample tools_of no_send no_connector 100 "tidy up"
        "slack" "C1"
        ("read_file" ∷ [])
        empty
        (schedule_add read_all every_hour tools_json answers 100 "tidy up" "slack" "C1"
          ("read_file" ∷ [])
          empty).1
unfolding join
schedule_add-IsArmed_example =
    schedule_add-IsArmed read_all every_hour tools_json sample tools_of no_send no_connector answers
      100 "tidy up" "slack" "C1" ("read_file" ∷ []) empty refl

remembered :
    pref_list answers (pref_set answers "{}" "editor" "vim" empty).1
    ≡ ok (printed ("editor: vim" ∷ []))
unfolding pref_list pref_set set_preference upsert preferences sort_by_dimension insert_by_dimension
remembered = refl
