-- ===== src/Schedule/Tests.antt =====
-- crates/sa-core/src/schedule.rs: a sample parser, which reads every text as every hour.
use secretagent_rust_agent.Base.{
  ℕ, zero, suc, ◌+◌, String, ◌≡◌, refl, List, [], ◌∷◌, Option, some, ok,
}
use secretagent_rust_agent.Text.Words.{
  trim, trim_start, trim_end, split_whitespace, words_from, join,
}
use secretagent_rust_agent.Audit.Bytes.{lines}
use secretagent_rust_agent.Schedule.{
  candidate, to_schedule, validate_cron, gate, Validated, gate-Validated,
}

abbrev hourly : ℕ → ℕ → List ℕ
hourly t zero = []
hourly t (suc n) = (t + 3600) ∷ hourly (t + 3600) n

abbrev every_hour : Unit {0} → ℕ → ℕ → List ℕ
every_hour s t n = hourly t n

abbrev read_all : String → Option (Unit {0})
read_all s = some tt

-- a test: the first line with five fields, without its quotes
accepted : gate read_all every_hour (ok "Sure:\n`0  * * * *`\n") ≡ ok "0 * * * *"
unfolding validate_cron to_schedule candidate lines trim trim_start trim_end split_whitespace
    words_from join
accepted = refl

gate-Validated_example : Validated read_all every_hour "0 * * * *"
gate-Validated_example =
    gate-Validated read_all every_hour (ok "Sure:\n`0  * * * *`\n") "0 * * * *" accepted
