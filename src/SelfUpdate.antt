-- ===== src/SelfUpdate.antt =====
-- secretagent/src/self_update.rs: replacing the program by a newer signed release. The signature
-- scheme, the hash, the parser of the manifest and the answers of the server are parameters; what is
-- done to the disk and the log is recorded, the last act first.
pub mod Version
pub mod Verified
pub mod Swap
mod Tests
use Prim.Native.Char.{code}
use secretagent_rust_agent.Base.{
  ℕ, zero, suc, ◌+◌, ◌*◌, ◌-◌, ◌^◌, String, Bool, true, false, not, ◌&&◌, ◌||◌, List, [], ◌∷◌, ◌++◌,
  length, Option, none, some, Outcome, ok, err, ◌>>=◌, ok_or, ltb, leb, nat_eq, ◌==◌, if◌then◌else◌,
  format,
}
use secretagent_rust_agent.Text.Ascii.{codes, lower}
use secretagent_rust_agent.Text.Words.{is_empty, trim, decimal}
use secretagent_rust_agent.SelfUpdate.Version.{ensure_upgrade}

abbrev pub pinned_minisign_pubkey_b64 : String
pinned_minisign_pubkey_b64 = ""

abbrev pub manifest_cap : ℕ
manifest_cap = 256 * 1024

abbrev pub binary_cap : ℕ
binary_cap = 256 * (1024 * 1024)

pub record Artifact : Type 0 where
  pub url : String
  pub sha256 : String

pub record Manifest : Type 0 where
  pub version : String
  pub artifacts : List (String × Artifact)

pub record Crypto : Type 0 where
  pub verify : List ℕ → String → String → Outcome (Unit {0})
  pub from_slice : List ℕ → Outcome Manifest
  pub sha256_hex : List ℕ → String
  pub from_utf8 : List ℕ → Outcome String

unfoldable pub is_pinned : String → Bool
unfolding trim
is_pinned pinned = not (is_empty (trim pinned))

unfoldable pub pinned_pubkey_b64 : String → Outcome String
unfolding trim
pinned_pubkey_b64 pinned =
    if is_empty (trim pinned)
    then err
        "self-update is not configured: pin your minisign public key in self_update.rs (PINNED_MINISIGN_PUBKEY_B64) — the operator-gated finish, see docs/RELEASE.md"
    else ok (trim pinned)

-- `eq_ignore_ascii_case`
unfoldable pub same_lower : List ℕ → List ℕ → Bool
unfolding lower
same_lower [] [] = true
same_lower [] (d ∷ ds) = false
same_lower (c ∷ cs) [] = false
same_lower (c ∷ cs) (d ∷ ds) = nat_eq (lower c) (lower d) && same_lower cs ds

unfoldable pub select_artifact : Manifest → String → Outcome Artifact
select_artifact m target =
    ok_or (found m.artifacts)
      (format ("the signed manifest has no artifact for this target (" ∷ target ∷ ")" ∷ []))
  where
    found : List (String × Artifact) → Option Artifact
    found [] = none
    found ((t, a) ∷ rest) = let later = found rest in if t == target then some a else later

-- `trim_end_matches('/')`
unfoldable pub trim_slashes : String → String
trim_slashes String.[] = ""
trim_slashes (String.◌∷◌ c s) =
    let rest = trim_slashes s in
    if nat_eq (code c) b'/' && is_empty rest then "" else String.◌∷◌ c rest

-- The answer of the server: its declared length and the chunks of the body.
pub record Response : Type 0 where
  pub content_length : Option ℕ
  pub chunks : List (Outcome (List ℕ))

abbrev pub over : String → String → ℕ → Outcome (List ℕ)
over url what max =
    err (format ("GET " ∷ url ∷ ": " ∷ what ∷ " exceeds the " ∷ decimal max ∷ "-byte cap" ∷ []))

unfoldable pub read_body : String → ℕ → List ℕ → List (Outcome (List ℕ)) → Outcome (List ℕ)
read_body url max buf [] = ok buf
read_body url max buf (err e ∷ chunks) = err e
read_body url max buf (ok chunk ∷ chunks) = elim (leb (length buf + length chunk) max) [
  | true ↦ read_body url max (buf ++ chunk) chunks
  | false ↦ over url "body" max
]

abbrev pub is_declared_over : Option ℕ → ℕ → Bool
is_declared_over none max = false
is_declared_over (some len) max = not (leb len max)

unfoldable pub fetch : (String → Outcome Response) → String → ℕ → Outcome (List ℕ)
unfolding read_body
fetch server url max = server url >>= λ resp.
    (if is_declared_over resp.content_length max
      then over url "declared bytes" max
      else read_body url max [] resp.chunks)

-- What is done to the disk and the log. Staging finds the program, creates a new file beside it and
-- writes the binary there.
pub data Act : Type 0 where
  stage : List ℕ → Act
  make_executable : Act
  open_log : Act
  record_update : String → Act
  swap : Act
  remove_staged : Act

module _ (k : Crypto) where
  open k use {verify, from_slice, sha256_hex, from_utf8}

  -- The bytes are read as a manifest only behind the check of the signature.
  unfoldable pub verify_manifest : List ℕ → String → String → Outcome Manifest
  verify_manifest bytes minisig pubkey = verify bytes minisig pubkey >>= λ u. from_slice bytes

  unfoldable pub ensure_sha256 : List ℕ → String → Outcome (Unit {0})
  unfolding same_lower trim
  ensure_sha256 bytes expected_hex =
      if same_lower (codes (sha256_hex bytes)) (codes (trim expected_hex))
      then ok tt
      else err (
          format (
            "downloaded binary sha256 "
            ∷ sha256_hex bytes
            ∷ " != signed manifest "
            ∷ trim expected_hex
            ∷ " — refusing"
            ∷ []))

  module _ (server : String → Outcome Response) (base pubkey current target : String) where
    -- Steps 1 and 2: the signed manifest of a newer version.
    unfoldable pub newer_manifest : Outcome Manifest
    unfolding fetch verify_manifest ensure_upgrade
    newer_manifest = fetch server (format (base ∷ "/latest.json" ∷ [])) manifest_cap >>= λ bytes.
        fetch server (format (base ∷ "/latest.json.minisig" ∷ [])) manifest_cap >>= λ sig.
        from_utf8 sig >>= λ minisig.
        verify_manifest bytes minisig pubkey >>= λ m. ensure_upgrade current m.version >>= λ u. ok m

    -- Step 3: the binary of the target, bound to the manifest.
    unfoldable pub download : Manifest → Outcome (List ℕ)
    unfolding select_artifact fetch ensure_sha256
    download m = select_artifact m target >>= λ art.
        fetch server art.url binary_cap >>= λ bin. ensure_sha256 bin art.sha256 >>= λ u. ok bin

    -- `perform` is how an act ends after those before it.
    module _ (perform : List Act → Act → Outcome (Unit {0})) where
      abbrev pub Done : Type 0
      Done = Outcome String × List Act

      abbrev pub on_failure : Outcome (Unit {0}) → List Act → Done → Done
      on_failure (err e) failed later = (err e, failed)
      on_failure (ok u) failed later = later

      -- Step 6, whose failure removes the staged file.
      abbrev pub swap_in : Manifest → List Act → Done
      swap_in m acts =
          on_failure (perform acts swap) (remove_staged ∷ swap ∷ acts)
            (ok (format ("updated to " ∷ m.version ∷ [])), swap ∷ acts)

      -- Step 5, before the swap; a log that does not open leaves the staged file.
      abbrev pub record_then_swap : Manifest → List Act → Done
      record_then_swap m acts = on_failure (perform acts open_log) (open_log ∷ acts) (
          on_failure (perform (open_log ∷ acts) (record_update m.version))
            (remove_staged ∷ record_update m.version ∷ open_log ∷ acts)
            (swap_in m (record_update m.version ∷ open_log ∷ acts)))

      -- Step 4.
      unfoldable pub install : Manifest → List ℕ → Done
      install m bin = on_failure (perform [] (stage bin)) (stage bin ∷ []) (
          on_failure (perform (stage bin ∷ []) make_executable) (make_executable ∷ stage bin ∷ [])
            (record_then_swap m (make_executable ∷ stage bin ∷ [])))

      abbrev pub install_downloaded : Manifest → Outcome (List ℕ) → Done
      unfolding install
      install_downloaded m (err e) = (err e, [])
      install_downloaded m (ok bin) = install m bin

      abbrev pub update_to : Bool → Outcome Manifest → Done
      unfolding install_downloaded download
      update_to check_only (err e) = (err e, [])
      update_to true (ok m) = (ok (format ("update available: " ∷ m.version ∷ [])), [])
      update_to false (ok m) = install_downloaded m (download m)

  abbrev pub with_key :
      (String → Outcome Response)
      → String
      → String
      → String
      → (List Act → Act → Outcome (Unit {0}))
      → Bool
      → Outcome String
      → Outcome String × List Act
  unfolding update_to newer_manifest
  with_key server base current target perform check_only (err e) = (err e, [])
  with_key server base current target perform check_only (ok pubkey) =
      update_to server base pubkey current target perform check_only
        (newer_manifest server base pubkey current target)

  abbrev pub with_base :
      (String → Outcome Response)
      → Option String
      → String
      → String
      → String
      → (List Act → Act → Outcome (Unit {0}))
      → Bool
      → Outcome String × List Act
  unfolding with_key pinned_pubkey_b64
  with_base server none current target pinned perform check_only =
      (err "self-update is not configured: set [update] base_url in config.toml", [])
  with_base server (some base) current target pinned perform check_only =
      if is_empty base
      then (err "self-update is not configured: set [update] base_url in config.toml", [])
      else with_key server (trim_slashes base) current target perform check_only
          (pinned_pubkey_b64 pinned)

  -- The command, for a program of this version and target.
  unfoldable pub run :
      (String → Outcome Response)
      → Option String
      → String
      → String
      → String
      → (List Act → Act → Outcome (Unit {0}))
      → Bool
      → Outcome String × List Act
  unfolding with_base
  run server base_url current target pinned perform check_only =
      with_base server base_url current target pinned perform check_only
