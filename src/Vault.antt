-- ===== src/Vault.antt =====
-- crates/sa-vault/src: the file of secrets, which age encrypts. age and serde_json are parameters, as
-- is how each operation of the file system ends; a write that fails leaves some other contents. What is in
-- a file is a type of bytes.
pub mod Sorted
pub mod Stored
pub mod Reopened
mod Tests
use secretagent_rust_agent.Base.{
  ℕ, String, List, [], ◌∷◌, Option, none, some, Outcome, ok, err, ◌>>=◌, ok_or, unwrap_or, format,
}
use secretagent_rust_agent.Text.Words.{trim}
use secretagent_rust_agent.Vault.Sorted.{Map, insert, lookup}

-- A store is encrypted to identities, which one then decrypts, or to a passphrase.
pub data Decryptor (Identity Bytes : Type 0) : Type 0 where
  recipients : (Identity → Outcome Bytes) → Decryptor Identity Bytes
  passphrase : Decryptor Identity Bytes

-- An encryptor takes a plaintext to the ciphertext that its wrapped output has at the end; its
-- randomness is a number.
pub record Age : Type 1 where
  pub Bytes : Type 0
  pub Identity : Type 0
  pub Recipient : Type 0
  pub to_public : Identity → Recipient
  pub parse : String → Outcome Identity
  pub to_string : Identity → String
  pub with_recipients : List Recipient → ℕ → Option (Bytes → Outcome Bytes)
  pub decryptor : Bytes → Outcome (Decryptor Identity Bytes)
  pub to_vec : Map → Bytes
  pub from_slice : Bytes → Option Map

-- The identity file, the store and the file that `flush` writes first.
pub record Disk (Bytes : Type 0) : Type 0 where
  pub identity : Option String
  pub store : Option Bytes
  pub tmp : Option Bytes

-- How a write ends: with the contents, or with an error and what is then in the file.
pub data Write (A : Type 0) : Type 0 where
  done : Write A
  torn : Option A → String → Write A

unfoldable pub written : {A : Type 0} → Write A → A → Outcome (Unit {0}) × Option A
written done a = (ok tt, some a)
written (torn left e) a = (err e, left)

module _ (age : Age) where
  open age use {
    Bytes, Identity, to_public, parse, to_string, with_recipients, decryptor, to_vec, from_slice,
  }

  pub record AgeFileVault : Type 0 where
    pub identity : Identity
    pub map : Map

  -- What the system does in `open_or_init`, and the identity that is generated.
  pub record Opening : Type 0 where
    pub create_dir_all : Outcome (Unit {0})
    pub read_identity : Outcome (Unit {0})
    pub generated : Identity
    pub write_identity : Write String
    pub read_store : Outcome (Unit {0})

  -- What it does in `flush`.
  pub record Flushing : Type 0 where
    pub randomness : ℕ
    pub write_tmp : Write Bytes
    pub rename : Outcome (Unit {0})

  unfoldable pub encrypt : Identity → ℕ → Bytes → Outcome Bytes
  encrypt identity randomness plaintext =
      ok_or (with_recipients (to_public identity ∷ []) randomness) "no recipients" >>= λ enc.
      enc plaintext

  abbrev pub opened_by : Identity → Decryptor Identity Bytes → Outcome Bytes
  opened_by identity (recipients dec) = dec identity
  opened_by identity passphrase = err "expected recipients-encrypted store"

  unfoldable pub decrypt : Identity → Bytes → Outcome Bytes
  decrypt identity ct = decryptor ct >>= opened_by identity

  abbrev pub parsed : Outcome Identity → Outcome Identity
  parsed (ok identity) = ok identity
  parsed (err e) = err (format ("bad identity file: " ∷ e ∷ []))

  abbrev pub generated_as :
      Identity → Disk Bytes → Outcome (Unit {0}) × Option String → Outcome Identity × Disk Bytes
  generated_as identity d (ok u, file) = (ok identity, record d { identity = file })
  generated_as identity d (err e, file) = (err "writing identity", record d { identity = file })

  abbrev pub identity_of : Opening → Disk Bytes → Option String → Outcome Identity × Disk Bytes
  unfolding trim written
  identity_of io d none =
      generated_as io.generated d (written io.write_identity (to_string io.generated))
  identity_of io d (some s) = (io.read_identity >>= λ u. parsed (parse (trim s)), d)

  abbrev pub map_of : Opening → Identity → Option Bytes → Outcome Map
  unfolding decrypt
  map_of io identity none = ok []
  map_of io identity (some ct) =
      io.read_store >>= λ u. decrypt identity ct >>= λ pt. ok (unwrap_or (from_slice pt) [])

  abbrev pub opened_with :
      Opening → Outcome Identity × Disk Bytes → Outcome AgeFileVault × Disk Bytes
  opened_with io (err e, d) = (err e, d)
  opened_with io (ok identity, d) =
      (map_of io identity d.store >>= λ map. ok (record { identity = identity; map = map }), d)

  abbrev pub behind_dir :
      Opening → Disk Bytes → Outcome (Unit {0}) → Outcome AgeFileVault × Disk Bytes
  behind_dir io d (err e) = (err e, d)
  behind_dir io d (ok u) = opened_with io (identity_of io d d.identity)

  unfoldable pub open_or_init : Opening → Disk Bytes → Outcome AgeFileVault × Disk Bytes
  open_or_init io d = behind_dir io d io.create_dir_all

  -- A rename puts the whole file in the place of the store.
  abbrev pub renamed : Disk Bytes → Outcome (Unit {0}) → Outcome (Unit {0}) × Disk Bytes
  renamed d (err e) = (err e, d)
  renamed d (ok u) = (ok tt, record d { store = d.tmp; tmp = none })

  abbrev pub rename_from :
      Flushing → Disk Bytes → Outcome (Unit {0}) × Option Bytes → Outcome (Unit {0}) × Disk Bytes
  rename_from io d (err e, file) = (err e, record d { tmp = file })
  rename_from io d (ok u, file) = renamed (record d { tmp = file }) io.rename

  abbrev pub flushed : Flushing → Disk Bytes → Outcome Bytes → Outcome (Unit {0}) × Disk Bytes
  unfolding written
  flushed io d (err e) = (err e, d)
  flushed io d (ok ct) = rename_from io d (written io.write_tmp ct)

  unfoldable pub flush : Flushing → AgeFileVault → Disk Bytes → Outcome (Unit {0}) × Disk Bytes
  unfolding encrypt
  flush io v d = flushed io d (encrypt v.identity io.randomness (to_vec v.map))

  -- The map in memory has the secret also where the flush fails.
  unfoldable pub set :
      Flushing
      → String
      → String
      → AgeFileVault
      → Disk Bytes
      → Outcome (Unit {0}) × Disk Bytes × AgeFileVault
  unfolding flush insert
  set io key value v d =
      let w = record v { map = insert key value v.map } in let r = flush io w d in (r.0, r.1, w)

  unfoldable pub get : AgeFileVault → String → Outcome (Option String)
  unfolding lookup
  get v key = ok (lookup key v.map)
