-- ===== src/Audit/Tests.antt =====
-- Tests and instances for the audit log.
use secretagent_rust_agent.Base.{
  String, ◌≡◌, refl, true, false, none, some, [], ◌∷◌, ◌++◌, ok, err, ◌⊎◌, length,
}
use secretagent_rust_agent.Audit.{
  AuditEvent, Audit, full, append, append_synced, open_log, verify_chain, read_events,
}
use secretagent_rust_agent.Audit.Bytes.{lines, le_bytes, as_bytes}
use secretagent_rust_agent.Audit.Log.{
  IsSound, ReadsBack, append_all, new_log, append-IsSound, append_all-ReadsBack, new_log-IsSound,
}
use secretagent_rust_agent.Audit.Tamper.{HasCollision, tamper_evident}
use secretagent_rust_agent.Audit.Torn.{torn_log, torn_tolerated, torn_then_two_appends}
use secretagent_rust_agent.Audit.Sample.{sample, sample-IsLawful, IsTorn-fragment}

abbrev set_key : AuditEvent
set_key = record { action = "vault.set"; key_id = "API_KEY"; principal = none }

abbrev get_key : AuditEvent
get_key = record { action = "vault.get"; key_id = "API_KEY"; principal = some "operator" }

running : Unit {0}
unfolding sample append_all append append_synced open_log verify_chain read_events lines le_bytes
    as_bytes
running = tt

abbrev one_record : Audit
one_record = (append sample full new_log set_key).0

abbrev two_records : Audit
two_records = append_all sample new_log (set_key ∷ get_key ∷ [])

lines_test : lines "a\r\nb\n\nc" ≡ "a" ∷ "b" ∷ "" ∷ "c" ∷ []
unfolding running
lines_test = refl

sequence_test : two_records.seq ≡ 2
unfolding running
sequence_test = refl

verify_test : verify_chain sample two_records.content ≡ true
unfolding running
verify_test = refl

failed_sync_test : (append_synced sample full false new_log set_key).1 ≡ err "sync failed"
unfolding running
failed_sync_test = refl

append_all-ReadsBack_example :
    (open_log sample none ≡ ok new_log)
    × ReadsBack sample (append_all sample new_log (set_key ∷ get_key ∷ [])) (set_key ∷ get_key ∷ [])
append_all-ReadsBack_example = append_all-ReadsBack sample (set_key ∷ get_key ∷ []) sample-IsLawful

one_record-IsSound : IsSound sample one_record (set_key ∷ [])
one_record-IsSound =
    append-IsSound sample sample-IsLawful new_log [] set_key (new_log-IsSound sample)

opened_test : open_log sample (some one_record.content) ≡ ok one_record
unfolding running
opened_test = refl

one_verifies : verify_chain sample one_record.content ≡ true
unfolding running
one_verifies = refl

-- Another event, whose digest is the same under the weak hash of the tests.
abbrev other_key : AuditEvent
other_key = record { action = "vault.set"; key_id = "API_KYE"; principal = none }

abbrev other_record : Audit
other_record = (append sample full new_log other_key).0

other_verifies : verify_chain sample other_record.content ≡ true
unfolding running
other_verifies = refl

other_opened : open_log sample (some other_record.content) ≡ ok other_record
unfolding running
other_opened = refl

same_last : one_record.last_hash ≡ other_record.last_hash
unfolding running
same_last = refl

same_length : length (lines one_record.content) ≡ length (lines other_record.content)
unfolding running
same_length = refl

tamper_evident_example :
    HasCollision sample (lines one_record.content) (lines other_record.content)
    ⊎ (read_events sample (some one_record.content)
        ≡ read_events sample (some other_record.content))
tamper_evident_example =
    tamper_evident sample one_record.content other_record.content one_record other_record
      sample-IsLawful one_verifies other_verifies opened_test other_opened same_length same_last

truncated_test :
    (last : String) × (lines two_records.content ≡ lines one_record.content ++ last ∷ [])
unfolding running
truncated_test = (_, refl)

torn_tolerated_example :
    (open_log sample (some (torn_log one_record "{").content) ≡ ok (torn_log one_record "{"))
    × (read_events sample (some (torn_log one_record "{").content) ≡ ok (set_key ∷ []))
torn_tolerated_example =
    torn_tolerated sample one_record (set_key ∷ []) "{" one_record-IsSound IsTorn-fragment

abbrev poisoned : Audit
poisoned = (append sample full (append sample full (torn_log one_record "{") get_key).0 get_key).0

torn_then_two_appends_example :
    (open_log sample (some poisoned.content) ≡ err "malformed entry")
    × (read_events sample (some poisoned.content) ≡ err "malformed entry")
torn_then_two_appends_example =
    torn_then_two_appends sample one_record (set_key ∷ []) "{" get_key get_key sample-IsLawful
      one_record-IsSound IsTorn-fragment
