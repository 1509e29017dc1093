-- ===== src/Vault/Tests.antt =====
-- crates/sa-vault/src/age_file.rs: two settings, the second of which fails, with a sealing for tests.
use mathlib.Core.Option.{some-injective}
use mathlib.Core.Path.{ap, subst, ◌∙◌}
use secretagent_rust_agent.Base.{
  ℕ, String, ◌≡◌, refl, Bool, true, false, ◌&&◌, ◌||◌, not, List, [], ◌∷◌, Option, none, some,
  Outcome, ok, ok_inj, err, ◌==◌, if◌then◌else◌,
}
use secretagent_rust_agent.Text.Words.{trim}
use secretagent_rust_agent.Vault.Sorted.{Map, IsSorted, insert, insert-IsSorted, insert-first}
use secretagent_rust_agent.Vault.{
  Age, Decryptor, recipients, Disk, done, torn, AgeFileVault, open_or_init, set, flush, encrypt,
  decrypt, identity_of, map_of, written,
}
use secretagent_rust_agent.Vault.Stored.{IsLawful, undisturbed, Setting, set_all, saved_after}
use secretagent_rust_agent.Vault.Reopened.{open_or_init-saved_after}

-- Bytes are a list of pairs, and a sealed text has its identity in front.
ascending : Map → Map
unfolding insert
ascending [] = []
ascending (p ∷ rest) = insert p.0 p.1 (ascending rest)

abbrev key_text : Bool → String
key_text true = "KEY-1"
key_text false = "KEY-0"

abbrev same : Bool → Bool → Bool
same a b = a && b || not a && not b

abbrev seal : List Bool → ℕ → Option (Map → Outcome Map)
seal [] n = none
seal (i ∷ is) n = some (λ pt. ok ((key_text i, "") ∷ pt))

abbrev unseal : Map → Outcome (Decryptor Bool Map)
unseal [] = err "no header"
unseal (p ∷ pt) = ok (recipients (λ i. if key_text i == p.0 then ok pt else err "no matching key"))

abbrev sample_age : Age
sample_age = record {
  Bytes = Map;
  Identity = Bool;
  Recipient = Bool;
  to_public = λ i. i;
  parse = λ s. if s == "KEY-1" then ok true else if s == "KEY-0" then ok false else err "no key";
  to_string = key_text;
  with_recipients = seal;
  decryptor = unseal;
  to_vec = λ m. m;
  from_slice = λ pt. some (ascending pt);
}

ascending-IsSorted : (m : Map) → IsSorted (ascending m)
unfolding ascending
ascending-IsSorted [] = tt
ascending-IsSorted (p ∷ rest) = insert-IsSorted p.0 p.1 (ascending rest) (ascending-IsSorted rest)

ascending_again : (m : Map) → IsSorted m → ascending m ≡ m
unfolding ascending
ascending_again [] h = refl
ascending_again (p ∷ rest) (a, h) = rw (ascending_again rest h) (insert-first p.0 p.1 rest (a, h))

parses : (i : Bool) → sample_age.parse (trim (key_text i)) ≡ ok i
unfolding trim
parses true = refl
parses false = refl

abbrev header_opens : Bool → Map → Bool → Outcome Map
header_opens i pt k = if key_text k == key_text i then ok pt else err "no matching key"

opens_own : (i : Bool) (pt : Map) → header_opens i pt i ≡ ok pt
opens_own true pt = refl
opens_own false pt = refl

unseals :
    (i : Bool) (enc : Map → Outcome Map) (pt ct : Map)
    → some (λ (q : Map). ok ((key_text i, "") ∷ q)) ≡ some enc
    → enc pt ≡ ok ct
    → (dec : Bool → Outcome Map) × (unseal ct ≡ ok (recipients dec)) × (dec i ≡ ok pt)
unseals i enc pt ct h e =
    subst (λ c. (dec : Bool → Outcome Map) × (unseal c ≡ ok (recipients dec)) × (dec i ≡ ok pt))
      (ok_inj ((key_text i, "") ∷ pt) ct (
        ap (λ (f : Map → Outcome Map). f pt)
          (some-injective (λ (q : Map). ok ((key_text i, "") ∷ q)) enc h)
        ∙ e))
      (header_opens i pt, refl, opens_own i pt)

sample_age-IsLawful : IsLawful sample_age
sample_age-IsLawful = record {
  parse-to_string = parses;
  opens = λ i randomness enc pt ct h e. unseals i enc pt ct h e;
  from_slice-to_vec = λ m h. ap some (ascending_again m h);
  from_slice-IsSorted =
      λ pt m h. subst IsSorted (some-injective (ascending pt) m h) (ascending-IsSorted pt);
}

abbrev empty_disk : Disk Map
empty_disk = record { identity = none; store = none; tmp = none }

abbrev settings : List (Setting sample_age)
settings =
    (record {
      key = "slack";
      value = "xoxb";
      io = record { randomness = 7; write_tmp = done; rename = ok tt };
    })
    ∷ (record {
      key = "mail";
      value = "secret";
      io = record { randomness = 8; write_tmp = torn none "disk full"; rename = ok tt };
    })
    ∷ []

abbrev opened : AgeFileVault sample_age
opened = record { identity = true; map = [] }

reopened :
    open_or_init sample_age
      (undisturbed sample_age false)
      (set_all sample_age settings opened
        (open_or_init sample_age (undisturbed sample_age true) empty_disk).1).1
    ≡ (
      ok (record { identity = true; map = ("slack", "xoxb") ∷ [] }),
      record {
        identity = some "KEY-1";
        store = some (("KEY-1", "") ∷ ("slack", "xoxb") ∷ []);
        tmp = none;
      },
    )
unfolding open_or_init set_all set flush encrypt decrypt identity_of map_of written trim insert
    ascending
reopened = refl

open_or_init-saved_after_example :
    open_or_init sample_age
      (undisturbed sample_age false)
      (set_all sample_age settings opened
        (open_or_init sample_age (undisturbed sample_age true) empty_disk).1).1
    ≡ (
      ok (record {
        identity = true;
        map =
            saved_after sample_age [] [] settings
              (set_all sample_age settings opened
                (open_or_init sample_age (undisturbed sample_age true) empty_disk).1).0;
      }),
      (set_all sample_age settings opened
          (open_or_init sample_age (undisturbed sample_age true) empty_disk).1).1,
    )
unfolding open_or_init identity_of map_of written
open_or_init-saved_after_example =
    open_or_init-saved_after sample_age sample_age-IsLawful (undisturbed sample_age true) empty_disk
      opened false settings refl
