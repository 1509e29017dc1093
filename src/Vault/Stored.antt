-- ===== src/Vault/Stored.antt =====
-- crates/sa-vault/src/age_file.rs: a file that has the secrets of a vault, through its operations.
use mathlib.Core.Path.{subst}
use secretagent_rust_agent.Base.{
  ℕ, String, ◌≡◌, refl, List, [], ◌∷◌, Option, none, some, Outcome, ok, err, ◌>>=◌, ok_or,
  unwrap_or, bind-ok, ok_inj,
}
use secretagent_rust_agent.Text.Words.{trim}
use secretagent_rust_agent.Vault.Sorted.{Map, IsSorted, insert}
use secretagent_rust_agent.Vault.{
  Age, recipients, Disk, done, torn, written, AgeFileVault, Opening, Flushing, encrypt, decrypt,
  open_or_init, identity_of, map_of, flush, flushed, renamed, rename_from, set, Write, opened_by,
  opened_with, behind_dir, generated_as, parsed,
}

module _ (age : Age) where
  open age use {
    Bytes, Identity, to_public, parse, to_string, with_recipients, decryptor, to_vec, from_slice,
  }

  -- What age and serde_json document.
  pub record IsLawful : Type 0 where
    pub parse-to_string : (i : Identity) → parse (trim (to_string i)) ≡ ok i
    pub opens :
        (i : Identity) (randomness : ℕ) (enc : Bytes → Outcome Bytes) (pt ct : Bytes)
        → with_recipients (to_public i ∷ []) randomness ≡ some enc
        → enc pt ≡ ok ct
        → (dec : Identity → Outcome Bytes) × (decryptor ct ≡ ok (recipients dec)) × (dec i ≡ ok pt)
    pub from_slice-to_vec : (m : Map) → IsSorted m → from_slice (to_vec m) ≡ some m
    pub from_slice-IsSorted : (pt : Bytes) (m : Map) → from_slice pt ≡ some m → IsSorted m

  -- An opening in which no operation fails.
  abbrev pub undisturbed : Identity → Opening age
  undisturbed i = record {
    create_dir_all = ok tt;
    read_identity = ok tt;
    generated = i;
    write_identity = done;
    read_store = ok tt;
  }

  -- A secret that is set, and what the system does of it.
  pub record Setting : Type 0 where
    pub key : String
    pub value : String
    pub io : Flushing age

  -- The secrets are set one after the other, whatever becomes of each.
  unfoldable pub set_all :
      List Setting → AgeFileVault age → Disk Bytes → List (Outcome (Unit {0})) × Disk Bytes
  unfolding set
  set_all [] v d = ([], d)
  set_all (x ∷ xs) v d =
      let r = set age x.io x.key x.value v d in
      let later = set_all xs r.2 r.1 in (r.0 ∷ later.0, later.1)

  -- The secrets of the vault at the last setting that succeeded; `now` are those in memory.
  abbrev pub saved_by : Outcome (Unit {0}) → Map → Map → Map
  saved_by (ok u) now saved = now
  saved_by (err e) now saved = saved

  abbrev pub saved_after : Map → Map → List Setting → List (Outcome (Unit {0})) → Map
  unfolding insert
  saved_after now saved [] outcomes = saved
  saved_after now saved (x ∷ xs) [] = saved
  saved_after now saved (x ∷ xs) (o ∷ outcomes) =
      let next = insert x.key x.value now in saved_after next (saved_by o next saved) xs outcomes

  pub record IsStored (i : Identity) (m : Map) (d : Disk Bytes) : Type 0 where
    pub file : String
    pub identity : d.identity ≡ some file
    pub parses : parse (trim file) ≡ ok i
    pub reads : map_of age (undisturbed i) i d.store ≡ ok m

  module _ (lawful : IsLawful) where
    decrypt-encrypt :
        (i : Identity) (randomness : ℕ) (pt ct : Bytes)
        → encrypt age i randomness pt ≡ ok ct
        → decrypt age i ct ≡ ok pt
    unfolding encrypt decrypt
    decrypt-encrypt i randomness pt ct h =
        sealed (with_recipients (to_public i ∷ []) randomness) refl h
      where
        sealed :
            (o : Option (Bytes → Outcome Bytes))
            → with_recipients (to_public i ∷ []) randomness ≡ o
            → (ok_or o "no recipients" >>= λ enc. enc pt) ≡ ok ct
            → (decryptor ct >>= opened_by age i) ≡ ok pt
        sealed none e k = cc
        sealed (some enc) e k =
            let (dec, opened, plain) = lawful.opens i randomness enc pt ct e k in rw opened plain

    reads-stored :
        (i : Identity) (randomness : ℕ) (m : Map) (ct : Bytes)
        → IsSorted m
        → encrypt age i randomness (to_vec m) ≡ ok ct
        → map_of age (undisturbed i) i (some ct) ≡ ok m
    unfolding map_of
    reads-stored i randomness m ct sorted h =
        rw (decrypt-encrypt i randomness (to_vec m) ct h, lawful.from_slice-to_vec m sorted) refl

    -- The store has what was flushed, or after a failure what it had.
    pub flush-IsStored :
        (io : Flushing age) (v : AgeFileVault age) (saved : Map) (d : Disk Bytes)
        → IsSorted v.map
        → IsStored v.identity saved d
        → IsStored v.identity (saved_by (flush age io v d).0 v.map saved) (flush age io v d).1
    unfolding flush written
    flush-IsStored io v saved d sorted s =
        by_text (encrypt age v.identity io.randomness (to_vec v.map)) refl
      where
        by_rename :
            (o : Outcome (Unit {0})) (ct : Bytes)
            → encrypt age v.identity io.randomness (to_vec v.map) ≡ ok ct
            → let r = renamed age (record d { tmp = some ct }) o in
              IsStored v.identity (saved_by r.0 v.map saved) r.1
        by_rename (err e) ct h = record {
          file = s.file;
          identity = s.identity;
          parses = s.parses;
          reads = s.reads;
        }
        by_rename (ok u) ct h = record {
          file = s.file;
          identity = s.identity;
          parses = s.parses;
          reads = reads-stored v.identity io.randomness v.map ct sorted h;
        }

        by_write :
            (w : Write Bytes) (ct : Bytes)
            → encrypt age v.identity io.randomness (to_vec v.map) ≡ ok ct
            → let r = rename_from age io d (written w ct) in
              IsStored v.identity (saved_by r.0 v.map saved) r.1
        by_write done ct h = by_rename io.rename ct h
        by_write (torn left e) ct h = record {
          file = s.file;
          identity = s.identity;
          parses = s.parses;
          reads = s.reads;
        }

        by_text :
            (o : Outcome Bytes)
            → encrypt age v.identity io.randomness (to_vec v.map) ≡ o
            → let r = flushed age io d o in IsStored v.identity (saved_by r.0 v.map saved) r.1
        by_text (err e) h = s
        by_text (ok ct) h = by_write io.write_tmp ct h

    unfoldable pub Stored : AgeFileVault age → Disk Bytes → Type 0
    Stored v d = IsStored v.identity v.map d × IsSorted v.map

    read_or_empty :
        (o : Option Map) (pt : Bytes) (m : Map)
        → from_slice pt ≡ o
        → ok (unwrap_or o []) ≡ ok m
        → IsSorted m
    read_or_empty none pt m e h = subst IsSorted (ok_inj [] m h) tt
    read_or_empty (some n) pt m e h =
        subst IsSorted (ok_inj n m h) (lawful.from_slice-IsSorted pt n e)

    -- What was read in an opening is read again and ascends.
    read_again :
        (io : Opening age) (i : Identity) (store : Option Bytes) (m : Map)
        → map_of age io i store ≡ ok m
        → (map_of age (undisturbed i) i store ≡ ok m) × IsSorted m
    unfolding map_of
    read_again io i none m h = (h, subst IsSorted (ok_inj [] m h) tt)
    read_again io i (some ct) m h =
        let (u, read, again) = bind-ok io.read_store _ m h in
        let (pt, plain, last) = bind-ok (decrypt age i ct) _ m again in
        (again, read_or_empty (from_slice pt) pt m refl last)

    stored_with :
        (io : Opening age) (i : Identity) (d : Disk Bytes) (file : String) (v : AgeFileVault age)
        → d.identity ≡ some file
        → parse (trim file) ≡ ok i
        → (opened_with age io (ok i, d)).0 ≡ ok v
        → Stored v d
    unfolding Stored
    stored_with io i d file v present parses h =
        let (m, read, same) = bind-ok (map_of age io i d.store) _ v h in
        let (reads, sorted) = read_again io i d.store m read in
        subst (λ w. Stored w d) (ok_inj _ v same)
          (record { file = file; identity = present; parses = parses; reads = reads }, sorted)

    -- An opened vault is stored: what opening it again reads is what it has in memory.
    pub open_or_init-Stored :
        (io : Opening age) (d : Disk Bytes) (v : AgeFileVault age)
        → (open_or_init age io d).0 ≡ ok v
        → Stored v (open_or_init age io d).1
    unfolding open_or_init identity_of written
    open_or_init-Stored io d v h = by_dir io.create_dir_all h
      where
        by_write :
            (w : Write String)
            → let r =
                opened_with age io
                  (generated_as age io.generated d (written w (to_string io.generated))) in
              r.0 ≡ ok v → Stored v r.1
        by_write done h =
            stored_with io io.generated (record d { identity = some (to_string io.generated) })
              (to_string io.generated) v refl (lawful.parse-to_string io.generated) h
        by_write (torn left e) h = cc

        by_parse :
            (s : String) (o : Outcome Identity)
            → d.identity ≡ some s
            → parse (trim s) ≡ o
            → let r = opened_with age io (parsed age o, d) in r.0 ≡ ok v → Stored v r.1
        by_parse s (ok i) present e h = stored_with io i d s v present e h
        by_parse s (err e) present p h = cc

        by_read :
            (s : String) (o : Outcome (Unit {0}))
            → d.identity ≡ some s
            → let r = opened_with age io ((o >>= λ u. parsed age (parse (trim s))), d) in
              r.0 ≡ ok v → Stored v r.1
        by_read s (ok u) present h = by_parse s (parse (trim s)) present refl h
        by_read s (err e) present h = cc

        by_file :
            (f : Option String)
            → d.identity ≡ f
            → let r = opened_with age io (identity_of age io d f) in r.0 ≡ ok v → Stored v r.1
        by_file none e h = by_write io.write_identity h
        by_file (some s) e h = by_read s io.read_identity e h

        by_dir :
            (o : Outcome (Unit {0})) → let r = behind_dir age io d o in r.0 ≡ ok v → Stored v r.1
        by_dir (err e) h = cc
        by_dir (ok u) h = by_file d.identity refl h
