-- ===== src/SelfUpdate/Tests.antt =====
-- secretagent/src/self_update.rs: a release that is signed, with a key for the tests.
use secretagent_rust_agent.Base.{
  String, ◌≡◌, refl, true, false, List, [], ◌∷◌, none, some, Outcome, ok, err, ◌==◌, if◌then◌else◌,
}
use secretagent_rust_agent.Text.Words.{trim}
use secretagent_rust_agent.SelfUpdate.Version.{
  ensure_upgrade, parse_semver, split_at, parse_u64, digits_from, is_newer,
}
use secretagent_rust_agent.SelfUpdate.{
  Crypto, Manifest, Response, Act, run, pinned_minisign_pubkey_b64, stage, make_executable,
  open_log, record_update, swap, read_body, same_lower,
}
use secretagent_rust_agent.SelfUpdate.Swap.{
  Answers, Install, IsSwapped, atomic_replace, atomic_replace-IsSwapped,
}
use secretagent_rust_agent.SelfUpdate.Verified.{IsSafe, run-IsSafe}

-- Windows refuses the rename of the new program and the way back.
abbrev refused : Answers
refused = record {
  remove_old = err "no such file";
  move_aside = ok tt;
  rename_new = err "in use";
  roll_back = err "denied";
  remove_last = ok tt;
}

abbrev staged : Install String
staged = record { target = some "v1"; temp = some "v2"; old = none }

atomic_replace-IsSwapped_example :
    IsSwapped true refused staged (atomic_replace true refused staged)
atomic_replace-IsSwapped_example = atomic_replace-IsSwapped true refused staged "v2" refl

abbrev release : Manifest
release = record {
  version = "1.2.0";
  artifacts = ("x86_64", record { url = "/bin"; sha256 = "ab" }) ∷ [];
}

abbrev crypto : Crypto
crypto = record {
  verify = λ bytes sig key. if key == "K" then ok tt else err "bad signature";
  from_slice = λ bytes. ok release;
  sha256_hex = λ bytes. "ab";
  from_utf8 = λ bytes. ok "sig";
}

abbrev mirror : String → Outcome Response
mirror url = ok (record { content_length = none; chunks = ok (1 ∷ 2 ∷ []) ∷ [] })

abbrev works : List Act → Act → Outcome (Unit {0})
works acts act = ok tt

newer_release : ensure_upgrade "1.1.9" "1.2.0" ≡ ok tt
unfolding ensure_upgrade parse_semver split_at parse_u64 digits_from is_newer
newer_release = refl

-- The program as it stands has no key.
inert :
    (run crypto mirror
      (some "https://releases")
      "1.1.9"
      "x86_64"
      pinned_minisign_pubkey_b64
      works
      false).1
    ≡ []
unfolding run trim
inert = refl

updated :
    (run crypto mirror (some "https://releases") "1.1.9" "x86_64" "K" works false).1
    ≡ swap ∷ record_update "1.2.0" ∷ open_log ∷ make_executable ∷ stage (1 ∷ 2 ∷ []) ∷ []
unfolding run trim ensure_upgrade parse_semver split_at parse_u64 digits_from is_newer read_body
    same_lower
updated = refl

run-IsSafe_example :
    IsSafe crypto "K" "1.1.9" "x86_64"
      (run crypto mirror (some "https://releases") "1.1.9" "x86_64" "K" works false).1
run-IsSafe_example =
    run-IsSafe crypto "K" "1.1.9" "x86_64" mirror works (some "https://releases") false
