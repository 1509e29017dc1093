-- ===== src/Memory/Migrations/Upgraded.antt =====
-- crates/sa-memory/src/lib.rs, `Store::migrate`: a database of any earlier version.
use mathlib.Core.Path.{subst}
use secretagent_rust_agent.Base.{
  ℕ, zero, suc, ◌≤◌, String, ◌≡◌, refl, ap, ◌∙◌, ok_inj, ◌⊎◌, inl, inr, Bool, true, false, List, [],
  ◌∷◌, ◌++◌, Outcome, ok, err, ◌>>=◌, leb, ltb, arith, if◌then◌else◌,
}
use secretagent_rust_agent.Memory.Migrations.{
  Create, Database, Answers, migrations, latest, migrate, apply_after, execute_batch, committed,
  with_meta, meta_created, kept,
}

abbrev pub names : List Create → List String
names [] = []
names (c ∷ cs) = c.object ∷ names cs

-- The objects of the migrations up to a version.
abbrev pub objects_upto : ℕ → List (ℕ × List Create) → List String
objects_upto k [] = []
objects_upto k ((v, sql) ∷ rest) = if leb v k then names sql ++ objects_upto k rest else []

abbrev pub version_rows : ℕ → List ℕ
version_rows zero = []
version_rows (suc k) = suc k ∷ []

-- The database that the release with this version left; version 0 has no row.
abbrev pub at_version : ℕ → Database
at_version k = record {
  objects = "schema_meta" ∷ objects_upto k migrations;
  versions = version_rows k;
}

abbrev pub undisturbed : Answers
undisturbed = record {
  create_meta = ok tt;
  read_version = ok tt;
  begin = ok tt;
  batch = λ v. ok tt;
  delete = ok tt;
  insert = ok tt;
  commit = ok tt;
}

abbrev pub Fails : {A : Type 0} → Outcome A → Type 0
Fails o = (e : String) × (o ≡ err e)

bind-cases :
    (o p : Outcome Database) (f g : Database → Outcome Database)
    → ((o ≡ p) ⊎ Fails o)
    → ((x : Database) → (f x ≡ g x) ⊎ Fails (f x))
    → ((o >>= f) ≡ (p >>= g)) ⊎ Fails (o >>= f)
bind-cases (err e) p f g h k = inr (e, refl)
bind-cases (ok x) p f g (inl h) k = subst (λ q. (f x ≡ (q >>= g)) ⊎ Fails (f x)) h (k x)
bind-cases (ok x) p f g (inr (e, h)) k = cc

batch-cases :
    (runs : Bool) (o : Outcome (Unit {0})) (done db : Outcome Database)
    → ((if runs then (o >>= λ u. done) else db) ≡ (if runs then done else db))
      ⊎ Fails (if runs then (o >>= λ u. done) else db)
batch-cases true (ok u) done db = inl refl
batch-cases true (err e) done db = inr (e, refl)
batch-cases false o done db = inl refl

-- The loop does what it does undisturbed, or fails.
apply_after-cases :
    (a : Answers) (k : ℕ) (ms : List (ℕ × List Create)) (db : Database)
    → (apply_after a k ms db ≡ apply_after undisturbed k ms db) ⊎ Fails (apply_after a k ms db)
unfolding apply_after
apply_after-cases a k [] db = inl refl
apply_after-cases a k ((v, sql) ∷ ms) db =
    bind-cases (if ltb k v then (a.batch v >>= λ u. execute_batch sql db) else ok db)
      (if ltb k v then execute_batch sql db else ok db) (apply_after a k ms)
      (apply_after undisturbed k ms)
      (batch-cases (ltb k v) (a.batch v) (execute_batch sql db) (ok db))
      (λ next. apply_after-cases a k ms next)

-- Undisturbed, the loop makes the objects of the latest version.
apply_after-latest :
    (k : ℕ)
    → k ≤ latest
    → apply_after undisturbed k migrations (at_version k)
      ≡ ok (record (at_version latest) { versions = version_rows k })
unfolding apply_after execute_batch
apply_after-latest zero h = refl
apply_after-latest (suc zero) h = refl
apply_after-latest (suc (suc zero)) h = refl
apply_after-latest (suc (suc (suc zero))) h = refl
apply_after-latest (suc (suc (suc (suc zero)))) h = refl
apply_after-latest (suc (suc (suc (suc (suc zero))))) h = refl
apply_after-latest (suc (suc (suc (suc (suc (suc k)))))) h = absurd (omega (arith, h))

-- What an upgrade of a database leaves: the latest version, or what it was.
abbrev pub IsUpgraded : Database → Outcome (Unit {0}) × Database → Type 0
IsUpgraded db r = ((r.0 ≡ ok tt) × (r.1 ≡ at_version latest)) ⊎ (Fails r.0 × (r.1 ≡ db))

committed-IsUpgraded :
    (a : Answers) (k : ℕ)
    → k ≤ latest
    → IsUpgraded (at_version k) (kept (at_version k) (committed a k (at_version k)))
unfolding committed
committed-IsUpgraded a k h =
    by_begin a.begin (apply_after a k migrations (at_version k)) a.delete a.insert a.commit
      (apply_after-cases a k migrations (at_version k))
  where
    by_begin :
        (b : Outcome (Unit {0})) (o : Outcome Database) (d i c : Outcome (Unit {0}))
        → ((o ≡ apply_after undisturbed k migrations (at_version k)) ⊎ Fails o)
        → IsUpgraded (at_version k) (
            kept (at_version k) (
              b >>= λ u. o >>= λ next.
              d >>= λ u. i >>= λ u. c >>= λ u. ok (record next { versions = latest ∷ [] })))
    by_begin (err e) o d i c r = inr ((e, refl), refl)
    by_begin (ok u) (err e) d i c r = inr ((e, refl), refl)
    by_begin (ok u) (ok next) (err e) i c r = inr ((e, refl), refl)
    by_begin (ok u) (ok next) (ok v) (err e) c r = inr ((e, refl), refl)
    by_begin (ok u) (ok next) (ok v) (ok w) (err e) r = inr ((e, refl), refl)
    by_begin (ok u) (ok next) (ok v) (ok w) (ok x) (inl r) = inl (
      refl,
      ap (λ (n : Database). record n { versions = latest ∷ [] })
          (ok_inj next _ (r ∙ apply_after-latest k h)),
    )
    by_begin (ok u) (ok next) (ok v) (ok w) (ok x) (inr (e, r)) = cc

-- The version is read from the row that the last upgrade left.
with_meta-IsUpgraded :
    (a : Answers) (k : ℕ) (o : Outcome (Unit {0}))
    → k ≤ latest
    → IsUpgraded (at_version k) (with_meta (record a { read_version = o }) (at_version k))
unfolding with_meta committed
with_meta-IsUpgraded a k (err e) h = inr ((e, refl), refl)
with_meta-IsUpgraded a zero (ok u) h = committed-IsUpgraded a 0 h
with_meta-IsUpgraded a (suc zero) (ok u) h = committed-IsUpgraded a 1 h
with_meta-IsUpgraded a (suc (suc zero)) (ok u) h = committed-IsUpgraded a 2 h
with_meta-IsUpgraded a (suc (suc (suc zero))) (ok u) h = committed-IsUpgraded a 3 h
with_meta-IsUpgraded a (suc (suc (suc (suc zero)))) (ok u) h = committed-IsUpgraded a 4 h
with_meta-IsUpgraded a (suc (suc (suc (suc (suc zero))))) (ok u) h = inl (refl, refl)
with_meta-IsUpgraded a (suc (suc (suc (suc (suc (suc k)))))) (ok u) h = absurd (omega (arith, h))

meta-IsUpgraded :
    (a : Answers) (k : ℕ) (o : Outcome (Unit {0}))
    → k ≤ latest
    → IsUpgraded (at_version k) (migrate (record a { create_meta = o }) (at_version k))
unfolding migrate meta_created execute_batch
meta-IsUpgraded a k (err e) h = inr ((e, refl), refl)
meta-IsUpgraded a k (ok u) h = with_meta-IsUpgraded a k a.read_version h

undisturbed-latest :
    (k : ℕ) → k ≤ latest → migrate undisturbed (at_version k) ≡ (ok tt, at_version latest)
unfolding migrate meta_created with_meta committed apply_after execute_batch
undisturbed-latest zero h = refl
undisturbed-latest (suc zero) h = refl
undisturbed-latest (suc (suc zero)) h = refl
undisturbed-latest (suc (suc (suc zero))) h = refl
undisturbed-latest (suc (suc (suc (suc zero)))) h = refl
undisturbed-latest (suc (suc (suc (suc (suc zero))))) h = refl
undisturbed-latest (suc (suc (suc (suc (suc (suc k)))))) h = absurd (omega (arith, h))

-- Whatever fails in the upgrade of a database of any version up to the latest: it succeeds and leaves
-- the latest version with all its objects, or it fails and leaves the database as it was; and an
-- upgrade in which nothing fails, run on what is left, succeeds.
pub migrate-IsUpgraded :
    (a : Answers) (k : ℕ)
    → k ≤ latest
    → IsUpgraded (at_version k) (migrate a (at_version k))
      × (migrate undisturbed (migrate a (at_version k)).1 ≡ (ok tt, at_version latest))
migrate-IsUpgraded a k h =
    let r = meta-IsUpgraded a k a.create_meta h in
    (r, again (migrate a (at_version k)).1 (elim r [ inl x ↦ inl x.1 | inr x ↦ inr x.1 ]))
  where
    again :
        (db : Database)
        → (db ≡ at_version latest) ⊎ (db ≡ at_version k)
        → migrate undisturbed db ≡ (ok tt, at_version latest)
    again db (inl e) = ap (migrate undisturbed) e ∙ undisturbed-latest latest (omega arith)
    again db (inr e) = ap (migrate undisturbed) e ∙ undisturbed-latest k h

abbrev pub new_file : Database
new_file = record { objects = []; versions = [] }

-- A new file that has its `schema_meta` is a database of version 0.
pub migrate-new_file :
    (a : Answers) (o : Outcome (Unit {0}))
    → (Fails (migrate (record a { create_meta = o }) new_file).0
        × ((migrate (record a { create_meta = o }) new_file).1 ≡ new_file))
      ⊎ (migrate (record a { create_meta = o }) new_file
          ≡ migrate (record a { create_meta = o }) (at_version 0))
unfolding migrate meta_created execute_batch
migrate-new_file a (err e) = inl ((e, refl), refl)
migrate-new_file a (ok u) = inr refl
