-- ===== src/Vault/Reopened.antt =====
-- crates/sa-vault/src/age_file.rs: what a vault that is opened again holds.
use secretagent_rust_agent.Base.{String, ◌≡◌, refl, List, [], ◌∷◌, ok, ◌==◌, if◌then◌else◌, some}
use secretagent_rust_agent.Vault.Sorted.{
  Map, IsSorted, insert-IsSorted, lookup-insert, lookup, insert,
}
use secretagent_rust_agent.Vault.{
  Age, Disk, AgeFileVault, Opening, Flushing, open_or_init, identity_of, set, get, map_of, flush,
}
use secretagent_rust_agent.Vault.Stored.{
  IsLawful, undisturbed, Setting, set_all, saved_by, saved_after, IsStored, flush-IsStored, Stored,
  open_or_init-Stored,
}

module _ (age : Age) where
  open age use {Bytes, Identity}

  -- A secret that was set is read back, and every other one is as it was.
  pub get-set :
      (io : Flushing age) (key value d : String) (v : AgeFileVault age) (disk : Disk Bytes)
      → get age (set age io key value v disk).2 d
        ≡ ok (if key == d then some value else lookup d v.map)
  unfolding get set
  get-set io key value d v disk = rw (lookup-insert key value d v.map) refl

  module _ (lawful : IsLawful age) where
    set_all-IsStored :
        (xs : List (Setting age)) (v : AgeFileVault age) (saved : Map) (d : Disk Bytes)
        → IsSorted v.map
        → IsStored age v.identity saved d
        → IsStored age v.identity
            (saved_after age v.map saved xs (set_all age xs v d).0)
            (set_all age xs v d).1
    unfolding set_all set
    set_all-IsStored [] v saved d sorted s = s
    set_all-IsStored (x ∷ xs) v saved d sorted s =
        let w = record v { map = insert x.key x.value v.map } in
        let ascends = insert-IsSorted x.key x.value v.map sorted in
        let r = flush age x.io w d in
        set_all-IsStored xs w (saved_by age r.0 w.map saved) r.1 ascends
          (flush-IsStored age lawful x.io w saved d ascends s)

    reopens :
        (g i : Identity) (m : Map) (d : Disk Bytes)
        → IsStored age i m d
        → open_or_init age (undisturbed age g) d ≡ (ok (record { identity = i; map = m }), d)
    unfolding open_or_init identity_of map_of
    reopens g i m d s = rw (s.identity, s.parses, s.reads) refl

    -- Whatever the disk had when a vault was opened, and whatever fails while secrets are set: the
    -- vault that is opened next has the secrets that stood in memory at the last setting that
    -- succeeded, or else those of the first opening.
    pub open_or_init-saved_after :
        (io : Opening age) (d : Disk Bytes) (v : AgeFileVault age) (g : Identity)
        (xs : List (Setting age))
        → (open_or_init age io d).0 ≡ ok v
        → open_or_init age (undisturbed age g) (set_all age xs v (open_or_init age io d).1).1 ≡ (
          ok (record {
            identity = v.identity;
            map = saved_after age v.map v.map xs (set_all age xs v (open_or_init age io d).1).0;
          }),
          (set_all age xs v (open_or_init age io d).1).1,
        )
    unfolding Stored
    open_or_init-saved_after io d v g xs h =
        let (s, sorted) = open_or_init-Stored age lawful io d v h in
        reopens g v.identity _ _ (set_all-IsStored xs v v.map (open_or_init age io d).1 sorted s)
