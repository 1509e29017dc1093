-- ===== src/SelfUpdate/Verified.antt =====
-- secretagent/src/self_update.rs: what stands before a swap of the program.
use mathlib.Core.Path.{subst}
use secretagent_rust_agent.Base.{
  ℕ, String, ◌≡◌, refl, Bool, true, false, ◌⊎◌, inl, inr, List, [], ◌∷◌, Option, none, some,
  Outcome, ok, err, bind-ok, ok_inj, Any, All, format, Bool-cases,
}
use secretagent_rust_agent.Text.Words.{is_empty}
use secretagent_rust_agent.SelfUpdate.Version.{ensure_upgrade}
use secretagent_rust_agent.SelfUpdate.{
  Crypto, Manifest, Artifact, Response, Act, stage, make_executable, open_log, record_update, swap,
  remove_staged, pinned_pubkey_b64, trim_slashes, fetch, select_artifact, verify_manifest,
  ensure_sha256, newer_manifest, download, install, on_failure, update_to, install_downloaded,
  with_key, with_base, run, manifest_cap, binary_cap,
}

-- The acts of an update that went as far as the swap.
abbrev pub swapped : Manifest → List ℕ → List Act
swapped m bin = swap ∷ record_update m.version ∷ open_log ∷ make_executable ∷ stage bin ∷ []

none_is_swap : (acts : List Act) → All (λ a. a ≡ swap → ⊥) acts → Any (λ a. a ≡ swap) acts → ⊥
none_is_swap [] h a = a
none_is_swap (x ∷ acts) (other, h) (inl e) = other e
none_is_swap (x ∷ acts) (other, h) (inr a) = none_is_swap acts h a

module _ (k : Crypto) (pinned current target : String) where
  -- The binary of a manifest that the pinned key signs, of a newer version, with the hash that the
  -- manifest has for this target.
  pub record IsVerified (m : Manifest) (bin : List ℕ) : Type 0 where
    pub key : String
    pub key_is : pinned_pubkey_b64 pinned ≡ ok key
    pub bytes : List ℕ
    pub minisig : String
    pub signed : verify_manifest k bytes minisig key ≡ ok m
    pub newer : ensure_upgrade current m.version ≡ ok tt
    pub artifact : Artifact
    pub chosen : select_artifact m target ≡ ok artifact
    pub bound : ensure_sha256 k bin artifact.sha256 ≡ ok tt

  -- No swap was begun, or one of a verified binary, whose staging and record stand before it.
  abbrev pub IsSafe : List Act → Type 0
  IsSafe acts =
      (Any (λ a. a ≡ swap) acts → ⊥)
      ⊎ ((m : Manifest) × (bin : List ℕ) × (IsVerified m bin)
          × ((acts ≡ swapped m bin) ⊎ (acts ≡ remove_staged ∷ swapped m bin)))

  module _ (server : String → Outcome Response) (base key : String)
      (key_is : pinned_pubkey_b64 pinned ≡ ok key) where
    record IsSigned (m : Manifest) : Type 0 where
      bytes : List ℕ
      minisig : String
      signed : verify_manifest k bytes minisig key ≡ ok m
      newer : ensure_upgrade current m.version ≡ ok tt

    newer_manifest-IsSigned :
        (m : Manifest) → newer_manifest k server base key current target ≡ ok m → IsSigned m
    unfolding newer_manifest
    newer_manifest-IsSigned m h =
        let (bytes, e1, h1) =
          bind-ok (fetch server (format (base ∷ "/latest.json" ∷ [])) manifest_cap) _ m h in
        let (sig, e2, h2) =
          bind-ok (fetch server (format (base ∷ "/latest.json.minisig" ∷ [])) manifest_cap) _ m
            h1 in
        let (minisig, e3, h3) = bind-ok (k.from_utf8 sig) _ m h2 in
        let (n, signed, h4) = bind-ok (verify_manifest k bytes minisig key) _ m h3 in
        let (u, newer, same) = bind-ok (ensure_upgrade current n.version) _ m h4 in
        subst IsSigned (ok_inj n m same)
          (record { bytes = bytes; minisig = minisig; signed = signed; newer = newer })

    download-IsVerified :
        (m : Manifest) (bin : List ℕ)
        → newer_manifest k server base key current target ≡ ok m
        → download k server base key current target m ≡ ok bin
        → IsVerified m bin
    unfolding download
    download-IsVerified m bin found h =
        let s = newer_manifest-IsSigned m found in
        let (art, chosen, h1) = bind-ok (select_artifact m target) _ bin h in
        let (b, fetched, h2) = bind-ok (fetch server art.url binary_cap) _ bin h1 in
        let (u, bound, same) = bind-ok (ensure_sha256 k b art.sha256) _ bin h2 in
        subst (IsVerified m) (ok_inj b bin same) (record {
          key = key;
          key_is = key_is;
          bytes = s.bytes;
          minisig = s.minisig;
          signed = s.signed;
          newer = s.newer;
          artifact = art;
          chosen = chosen;
          bound = bound;
        })

    module _ (perform : List Act → Act → Outcome (Unit {0})) where
      install-IsSafe :
          (m : Manifest) (bin : List ℕ)
          → IsVerified m bin
          → IsSafe (install k server base key current target perform m bin).1
      unfolding install
      install-IsSafe m bin v =
          let staged = make_executable ∷ stage bin ∷ [] in
          let opened = open_log ∷ staged in
          either (perform [] (stage bin)) _ _ (inl (none_is_swap (stage bin ∷ []) (is_stage, tt))) (
            either (perform (stage bin ∷ []) make_executable) _ _
              (inl (none_is_swap staged (is_mode, (is_stage, tt))))
              (either (perform staged open_log) _ _
                (inl (none_is_swap opened (is_opening, (is_mode, (is_stage, tt)))))
                (either (perform opened (record_update m.version)) _ _
                  (inl (
                    none_is_swap (remove_staged ∷ record_update m.version ∷ opened)
                      (is_removal, (is_record, (is_opening, (is_mode, (is_stage, tt)))))))
                  (either (perform (record_update m.version ∷ opened) swap) _ _
                    (inr (m, bin, v, inr refl)) (inr (m, bin, v, inl refl))))))
        where
          is_stage : stage bin ≡ swap → ⊥
          is_stage e = cc e

          is_mode : make_executable ≡ swap → ⊥
          is_mode e = cc e

          is_opening : open_log ≡ swap → ⊥
          is_opening e = cc e

          is_record : record_update m.version ≡ swap → ⊥
          is_record e = cc e

          is_removal : remove_staged ≡ swap → ⊥
          is_removal e = cc e

          either :
              (o : Outcome (Unit {0})) (failed : List Act) (later : Outcome String × List Act)
              → IsSafe failed
              → IsSafe later.1
              → IsSafe (on_failure k server base key current target perform o failed later).1
          either (err e) failed later f l = f
          either (ok u) failed later f l = l

      no_swap : IsSafe []
      no_swap = inl (λ a. a)

      install_downloaded-IsSafe :
          (m : Manifest) (o : Outcome (List ℕ))
          → newer_manifest k server base key current target ≡ ok m
          → download k server base key current target m ≡ o
          → IsSafe (install_downloaded k server base key current target perform m o).1
      unfolding install_downloaded
      install_downloaded-IsSafe m (err e) found h = no_swap
      install_downloaded-IsSafe m (ok bin) found h =
          install-IsSafe m bin (download-IsVerified m bin found h)

      update_to-IsSafe :
          (check_only : Bool) (o : Outcome Manifest)
          → newer_manifest k server base key current target ≡ o
          → IsSafe (update_to k server base key current target perform check_only o).1
      unfolding update_to
      update_to-IsSafe check_only (err e) h = no_swap
      update_to-IsSafe true (ok m) h = no_swap
      update_to-IsSafe false (ok m) h =
          install_downloaded-IsSafe m (download k server base key current target m) h refl

  module _ (server : String → Outcome Response)
      (perform : List Act → Act → Outcome (Unit {0})) where
    nothing : IsSafe []
    nothing = inl (λ a. a)

    with_key-IsSafe :
        (base : String) (check_only : Bool) (o : Outcome String)
        → pinned_pubkey_b64 pinned ≡ o
        → IsSafe (with_key k server base current target perform check_only o).1
    unfolding with_key
    with_key-IsSafe base check_only (err e) h = nothing
    with_key-IsSafe base check_only (ok key) h =
        update_to-IsSafe server base key h perform check_only
          (newer_manifest k server base key current target) refl

    with_base-IsSafe :
        (base_url : Option String) (check_only : Bool)
        → IsSafe (with_base k server base_url current target pinned perform check_only).1
    unfolding with_base
    with_base-IsSafe none check_only = nothing
    with_base-IsSafe (some base) check_only = elim (Bool-cases (is_empty base)) [
      | inl e ↦ rw e nothing
      | inr e ↦
          rw e (with_key-IsSafe (trim_slashes base) check_only (pinned_pubkey_b64 pinned) refl)
    ]

    -- Whatever the server answers and whichever act fails: the program is swapped, if at all, for a
    -- binary with the hash of a manifest that the pinned key signs and whose version is newer, behind
    -- its staging and its record in the log, in this order.
    pub run-IsSafe :
        (base_url : Option String) (check_only : Bool)
        → IsSafe (run k server base_url current target pinned perform check_only).1
    unfolding run
    run-IsSafe base_url check_only = with_base-IsSafe base_url check_only
