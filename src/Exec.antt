-- ===== src/Exec.antt =====
-- crates/sa-exec/src/lib.rs: where `execute_code` runs. What the operating system does is a
-- parameter; the operations that are asked of it are recorded, the last one first.
use secretagent_rust_agent.Base.{
  ℕ, String, Bool, true, false, List, [], ◌∷◌, ◌++◌, Option, none, some, Outcome, ok, err, format,
}
use secretagent_rust_agent.Policy.{FilePath, Disk, Policy}

-- What the tools ask of the system. `spawn` has the program with its arguments, and its input.
pub data Op : Type 0 where
  egress : String → Op
  read : FilePath → Op
  make_dirs : FilePath → Op
  write : FilePath → String → Op
  landlock : String → Op
  spawn : List String → String → Op
  unconfined : String → Op

pub record System (World : Type 0) : Type 0 where
  pub perform : Op → Policy → World → Outcome String × World
  pub disk : World → Disk
  pub to_path : String → FilePath
  pub to_str : FilePath → Option String

-- The world with the operations that were asked of it.
pub record Logged (World : Type 0) : Type 0 where
  pub ops : List Op
  pub world : World

abbrev pub Io : Type 0 → Type 0
Io World = Logged World → Outcome String × Logged World

pub data Sandbox : Type 0 where
  refuse_sandbox landlock_sandbox : Sandbox

pub data Backend : Type 0 where
  local : Sandbox → Backend
  docker ssh : String → Backend

unfoldable pub is_local : Backend → Bool
is_local (local sandbox) = true
is_local (docker image) = false
is_local (ssh host) = false

unfoldable pub label : Backend → String
label (local sandbox) = "local"
label (docker image) = format ("docker:" ∷ image ∷ [])
label (ssh host) = format ("ssh:" ∷ host ∷ [])

-- The level of the kernel's interface, or why nothing is enforced.
pub data LandlockStatus : Type 0 where
  enforced : ℕ → LandlockStatus
  unavailable : String → LandlockStatus

-- `Sandbox::status`, with what the kernel says of Landlock.
unfoldable pub status : LandlockStatus → Sandbox → LandlockStatus
status kernel refuse_sandbox = unavailable "no sandbox backend on this platform"
status kernel landlock_sandbox = kernel

pub data Confinement : Type 0 where
  local_kernel : LandlockStatus → Confinement
  container remote_host : String → Confinement

unfoldable pub confinement : LandlockStatus → Backend → Confinement
unfolding status
confinement kernel (local sandbox) = local_kernel (status kernel sandbox)
confinement kernel (docker image) = container image
confinement kernel (ssh host) = remote_host host

-- A failure of a program that was started names the program.
abbrev pub with_context {ℓ} : {A : Type ℓ} → String → Outcome String × A → Outcome String × A
with_context message (ok out, w) = (ok out, w)
with_context message (err e, w) = (err message, w)

module _ {World : Type 0} (sys : System World) where
  unfoldable pub perform : Op → Policy → Io World
  perform op policy s =
      let r = sys.perform op policy s.world in (r.0, record { ops = op ∷ s.ops; world = r.1 })

  -- One mount: `-v p:p` with the suffix for its mode. A path that is no text is left out.
  abbrev pub mount : String → FilePath → List String
  mount suffix root = elim (sys.to_str root) [
    | none ↦ []
    | some p ↦ "-v" ∷ format (p ∷ ":" ∷ p ∷ suffix ∷ []) ∷ []
  ]

  abbrev pub mounts : String → List FilePath → List String
  mounts suffix [] = []
  mounts suffix (r ∷ roots) = mount suffix r ++ mounts suffix roots

  unfoldable pub docker_args : String → Policy → List String
  docker_args image policy =
      "docker"
      ∷ "run"
      ∷ "--rm"
      ∷ "-i"
      ∷ "--network=none"
      ∷ (mounts ":ro" policy.read_roots
          ++ (mounts "" policy.write_roots ++ image ∷ "/bin/sh" ∷ "-s" ∷ []))

  abbrev pub ssh_args : String → List String
  ssh_args host = "ssh" ∷ host ∷ "/bin/sh" ∷ "-s" ∷ []

  -- `Backend::run`; the code goes to a started shell by its input.
  unfoldable pub run_backend : Backend → String → Policy → Io World
  unfolding perform docker_args
  run_backend (local refuse_sandbox) code policy s =
      (err "execute_code refused: no enforced sandbox on this platform", s)
  run_backend (local landlock_sandbox) code policy s = perform (landlock code) policy s
  run_backend (docker image) code policy s =
      with_context "docker backend (is the docker CLI on PATH + the daemon up?)"
        (perform (spawn (docker_args image policy) code) policy s)
  run_backend (ssh host) code policy s =
      with_context "ssh backend (is the ssh CLI on PATH + the host reachable?)"
        (perform (spawn (ssh_args host) code) policy s)
