-- ===== src/Tools/Confined.antt =====
-- crates/sa-tools/src/lib.rs: what the tools for files may ask of the system.
use secretagent_rust_agent.Base.{
  String, ◌≡◌, refl, Bool, true, false, [], Option, none, some, Outcome, ok, err, All,
}
use secretagent_rust_agent.Policy.{FilePath, Policy, path_allowed}
use secretagent_rust_agent.Exec.{
  Op, egress, read, make_dirs, write, landlock, spawn, unconfined, System, Logged, perform,
}
use secretagent_rust_agent.Tools.Builtin.{
  parent, read_if, read_at, run_read_file, wrote, write_then, create_parent, write_if, write_at,
  run_write_file,
}

module _ {World : Type 0} (sys : System World) where
  -- No operation was asked for yet.
  abbrev pub fresh : World → Logged World
  fresh w = record { ops = []; world = w }

  -- Files are read and written where the policy allows it on the disk of the start, and a folder is
  -- made only as the parent of such a file.
  abbrev pub IsWithin : Policy → World → Op → Type 0
  IsWithin policy w (read path) = path_allowed (sys.disk w) policy path false ≡ true
  IsWithin policy w (write path content) = path_allowed (sys.disk w) policy path true ≡ true
  IsWithin policy w (make_dirs folder) =
      (path : FilePath) × (parent path ≡ some folder)
      × (path_allowed (sys.disk w) policy path true ≡ true)
  IsWithin policy w (egress url) = ⊥
  IsWithin policy w (landlock code) = ⊥
  IsWithin policy w (spawn args input) = ⊥
  IsWithin policy w (unconfined code) = ⊥

  read_if-IsWithin :
      (b : Bool) (path : String) (file : FilePath) (policy : Policy) (w : World)
      → path_allowed (sys.disk w) policy file false ≡ b
      → All (IsWithin policy w) (read_if sys b path file policy (fresh w)).1.ops
  unfolding perform
  read_if-IsWithin false path file policy w e = tt
  read_if-IsWithin true path file policy w e = (e, tt)

  wrote-ops :
      (path content : String) (r : Outcome String × Logged World)
      → (wrote path content r).1.ops ≡ r.1.ops
  wrote-ops path content (ok out, s) = refl
  wrote-ops path content (err e, s) = refl

  write_then-IsWithin :
      (path content : String) (file : FilePath) (policy : Policy) (w : World)
      (r : Outcome String × Logged World)
      → path_allowed (sys.disk w) policy file true ≡ true
      → All (IsWithin policy w) r.1.ops
      → All (IsWithin policy w) (write_then sys path content file policy r).1.ops
  unfolding perform
  write_then-IsWithin path content file policy w (err e, s) h a = a
  write_then-IsWithin path content file policy w (ok out, s) h a =
      rw (wrote-ops path content (perform sys (write file content) policy s)) (h, a)

  create_parent-IsWithin :
      (folder : Option FilePath) (file : FilePath) (policy : Policy) (w : World)
      → path_allowed (sys.disk w) policy file true ≡ true
      → parent file ≡ folder
      → All (IsWithin policy w) (create_parent sys folder policy (fresh w)).1.ops
  unfolding perform
  create_parent-IsWithin none file policy w h e = tt
  create_parent-IsWithin (some folder) file policy w h e = ((file, e, h), tt)

  write_if-IsWithin :
      (b : Bool) (path content : String) (file : FilePath) (policy : Policy) (w : World)
      → path_allowed (sys.disk w) policy file true ≡ b
      → All (IsWithin policy w) (write_if sys b path content file policy (fresh w)).1.ops
  write_if-IsWithin false path content file policy w e = tt
  write_if-IsWithin true path content file policy w e =
      write_then-IsWithin path content file policy w _ e
        (create_parent-IsWithin (parent file) file policy w e refl)

  read_at-IsWithin :
      (path : Option String) (policy : Policy) (w : World)
      → All (IsWithin policy w) (read_at sys path policy (fresh w)).1.ops
  read_at-IsWithin none policy w = tt
  read_at-IsWithin (some path) policy w = read_if-IsWithin _ path _ policy w refl

  write_at-IsWithin :
      (path : Option String) (content : String) (policy : Policy) (w : World)
      → All (IsWithin policy w) (write_at sys path content policy (fresh w)).1.ops
  write_at-IsWithin none content policy w = tt
  write_at-IsWithin (some path) content policy w = write_if-IsWithin _ path content _ policy w refl

  module _ {Value : Type 0} (get : Value → String → Option Value) (as_str : Value → Option String)
      (schema : String → Value) where
    -- Whatever arguments the model gives, `read_file` and `write_file` ask the system for nothing but
    -- reads of files that the policy lets be read, writes of files that it lets be written, and the
    -- parent folders of those, all by the disk as it was at the start.
    pub files_stay_in_policy :
        (args : Value) (policy : Policy) (w : World)
        → All (IsWithin policy w) (run_read_file sys get as_str schema args policy (fresh w)).1.ops
          × All
              (IsWithin policy w)
              (run_write_file sys get as_str schema args policy (fresh w)).1.ops
    unfolding run_read_file run_write_file
    files_stay_in_policy args policy w =
        (read_at-IsWithin _ policy w, write_at-IsWithin _ _ policy w)
