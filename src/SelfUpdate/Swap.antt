-- ===== src/SelfUpdate/Swap.antt =====
-- secretagent/src/self_update.rs, `atomic_replace`: the renaming of files that puts the new program in
-- the place of the old one, on Unix and on Windows. How each operation ends is a parameter.
use mathlib.Core.Path.{subst}
use secretagent_rust_agent.Base.{
  String, ◌≡◌, refl, sym, Bool, true, false, ◌⊎◌, inl, inr, Option, none, some, Outcome, ok, err,
}

-- The program, the staged file and, on Windows, the program that was moved aside (`.old`).
pub data File : Type 0 where
  target : File
  temp : File
  old : File

pub record Install (Bytes : Type 0) : Type 0 where
  pub target : Option Bytes
  pub temp : Option Bytes
  pub old : Option Bytes

-- What the system answers to the operations, in their order.
pub record Answers : Type 0 where
  pub remove_old : Outcome (Unit {0})
  pub move_aside : Outcome (Unit {0})
  pub rename_new : Outcome (Unit {0})
  pub roll_back : Outcome (Unit {0})
  pub remove_last : Outcome (Unit {0})

module _ {Bytes : Type 0} where
  abbrev pub at : File → Install Bytes → Option Bytes
  at target s = s.target
  at temp s = s.temp
  at old s = s.old

  abbrev pub put : File → Option Bytes → Install Bytes → Install Bytes
  put target b s = record s { target = b }
  put temp b s = record s { temp = b }
  put old b s = record s { old = b }

  abbrev pub moved : File → File → Install Bytes → Option Bytes → Outcome (Unit {0}) × Install Bytes
  moved from to s none = (err "no such file", s)
  moved from to s (some b) = (ok tt, put to (some b) (put from none s))

  unfoldable pub rename :
      File → File → Outcome (Unit {0}) → Install Bytes → Outcome (Unit {0}) × Install Bytes
  rename from to (err e) s = (err e, s)
  rename from to (ok u) s = moved from to s (at from s)

  unfoldable pub remove_file : File → Outcome (Unit {0}) → Install Bytes → Install Bytes
  remove_file f (err e) s = s
  remove_file f (ok u) s = put f none s

  -- `context`
  abbrev pub told : String → Outcome (Unit {0}) × Install Bytes → Outcome (Unit {0}) × Install Bytes
  told message (ok u, s) = (ok u, s)
  told message (err e, s) = (err message, s)

  abbrev pub rolled_back : Bool → Answers → Install Bytes → Install Bytes
  unfolding rename
  rolled_back true a s = (rename old target a.roll_back s).1
  rolled_back false a s = s

  -- Behind the new program's rename on Windows.
  abbrev pub settled :
      Bool → Answers → Outcome (Unit {0}) × Install Bytes → Outcome (Unit {0}) × Install Bytes
  unfolding rolled_back remove_file
  settled moved_aside a (err e, s) =
      (err "renaming the new exe into place (windows)", rolled_back moved_aside a s)
  settled moved_aside a (ok u, s) = (ok tt, remove_file old a.remove_last s)

  abbrev pub place_new :
      Answers → Outcome (Unit {0}) × Install Bytes → Outcome (Unit {0}) × Install Bytes
  unfolding settled rename
  place_new a (err e, s) = (err "moving the current exe aside (windows)", s)
  place_new a (ok u, s) = settled true a (rename temp target a.rename_new s)

  abbrev pub aside_if_there :
      Answers → Install Bytes → Option Bytes → Outcome (Unit {0}) × Install Bytes
  unfolding place_new settled rename
  aside_if_there a s none = settled false a (rename temp target a.rename_new s)
  aside_if_there a s (some b) = place_new a (rename target old a.move_aside s)

  unfoldable pub atomic_replace :
      Bool → Answers → Install Bytes → Outcome (Unit {0}) × Install Bytes
  unfolding aside_if_there rename remove_file
  atomic_replace true a s = aside_if_there a (remove_file old a.remove_old s) s.target
  atomic_replace false a s =
      told "atomic rename of the new binary" (rename temp target a.rename_new s)

  -- The new program stands where it should, or nothing has changed but that on Windows the old
  -- program may be aside where the system refused to bring it back.
  abbrev pub IsSwapped :
      Bool → Answers → Install Bytes → Outcome (Unit {0}) × Install Bytes → Type 0
  IsSwapped windows a s r =
      ((r.0 ≡ ok tt) × (r.1.target ≡ s.temp) × (r.1.temp ≡ none))
      ⊎ ((e : String) × (r.0 ≡ err e)
          × (r.1.temp ≡ s.temp)
          × ((r.1.target ≡ s.target)
              ⊎ ((windows ≡ true)
                  × (r.1.target ≡ none)
                  × (r.1.old ≡ s.target)
                  × (reason : String) × (a.roll_back ≡ err reason))))

  -- On Windows, behind the removal of a program that an earlier update left aside.
  aside-IsSwapped :
      (aside new_name back last : Outcome (Unit {0})) (first : Outcome (Unit {0}))
      (t b : Option Bytes) (new : Bytes)
      → let a : Answers = record {
        remove_old = first;
        move_aside = aside;
        rename_new = new_name;
        roll_back = back;
        remove_last = last;
      } in
        let s : Install Bytes = record { target = t; temp = some new; old = b } in
        IsSwapped true a s (aside_if_there a s t)
  unfolding aside_if_there rename remove_file
  aside-IsSwapped aside (err e) back last first none b new =
      inr ("renaming the new exe into place (windows)", refl, refl, inl refl)
  aside-IsSwapped aside (ok u) back (ok v) first none b new = inl (refl, refl, refl)
  aside-IsSwapped aside (ok u) back (err e) first none b new = inl (refl, refl, refl)
  aside-IsSwapped (err e) new_name back last first (some p) b new =
      inr ("moving the current exe aside (windows)", refl, refl, inl refl)
  aside-IsSwapped (ok u) (err e) (ok v) last first (some p) b new =
      inr ("renaming the new exe into place (windows)", refl, refl, inl refl)
  aside-IsSwapped (ok u) (err e) (err f) last first (some p) b new =
      inr ("renaming the new exe into place (windows)", refl, refl, inr (refl, refl, refl, f, refl))
  aside-IsSwapped (ok u) (ok v) back (ok w) first (some p) b new = inl (refl, refl, refl)
  aside-IsSwapped (ok u) (ok v) back (err e) first (some p) b new = inl (refl, refl, refl)

  unix-IsSwapped :
      (a : Answers) (new_name : Outcome (Unit {0})) (s : Install Bytes) (new : Bytes)
      → let c = record s { temp = some new } in
        let b = record a { rename_new = new_name } in IsSwapped false b c (atomic_replace false b c)
  unfolding atomic_replace rename
  unix-IsSwapped a (ok u) s new = inl (refl, refl, refl)
  unix-IsSwapped a (err e) s new = inr ("atomic rename of the new binary", refl, refl, inl refl)

  -- Whatever the system answers to each operation, on either kind of system: with a staged file, a
  -- replacement that reports success has put it in the program's place, and one that reports an error
  -- has the staged file and the program as they were, except that on Windows, where the program was
  -- moved aside and the system refuses to bring it back, it is still there under its other name.
  pub atomic_replace-IsSwapped :
      (windows : Bool) (a : Answers) (s : Install Bytes) (new : Bytes)
      → s.temp ≡ some new
      → IsSwapped windows a s (atomic_replace windows a s)
  unfolding atomic_replace rename remove_file
  atomic_replace-IsSwapped windows a s new h =
      subst
        (λ b. let c = record s { temp = b } in IsSwapped windows a c (atomic_replace windows a c))
        (sym h) (by_system windows a.remove_old)
    where
      by_system :
          (w : Bool) (o : Outcome (Unit {0}))
          → let c = record s { temp = some new } in
            let b = record a { remove_old = o } in IsSwapped w b c (atomic_replace w b c)
      by_system true (ok u) =
          aside-IsSwapped a.move_aside a.rename_new a.roll_back a.remove_last (ok u) s.target none
            new
      by_system true (err e) =
          aside-IsSwapped a.move_aside a.rename_new a.roll_back a.remove_last (err e) s.target s.old
            new
      by_system false o = unix-IsSwapped (record a { remove_old = o }) a.rename_new s new
