-- ===== src/Tools/Execution.antt =====
-- crates/sa-tools/src/lib.rs and crates/sa-exec/src/lib.rs: where `execute_code` has its code run.
use secretagent_rust_agent.Base.{
  String, ◌≡◌, refl, Bool, true, false, ◌&&◌, List, [], ◌∷◌, ◌++◌, Option, none, some, Outcome, ok,
  err, ◌⊎◌, inl, inr, All, Any, arith, format, append_assoc,
}
use secretagent_rust_agent.Policy.{FilePath, Policy}
use secretagent_rust_agent.Exec.{
  Op, landlock, spawn, System, Logged, Backend, local, docker, ssh, refuse_sandbox,
  landlock_sandbox, is_local, perform, run_backend, with_context, mount, mounts, docker_args,
}
use secretagent_rust_agent.Tools.Builtin.{text_arg, after_refusal, execute, run_execute_code}
use secretagent_rust_agent.Tools.Confined.{fresh}

with_context-ops :
    {World : Type 0} (message : String) (r : Outcome String × Logged World)
    → (with_context message r).1 ≡ r.1
with_context-ops message (ok out, s) = refl
with_context-ops message (err e, s) = refl

module _ {World : Type 0} (sys : System World) where
  -- A volume `path:path` of one of these roots, with the suffix for its mode.
  abbrev pub IsVolume : String → List FilePath → String → Type 0
  IsVolume suffix roots v =
      Any
        (λ (r : FilePath).
          (p : String) × (sys.to_str r ≡ some p) × (v ≡ format (p ∷ ":" ∷ p ∷ suffix ∷ [])))
        roots

  -- Options that mount read roots read-only and write roots, and nothing else.
  abbrev pub OnlyMounts : Policy → List String → Type 0
  OnlyMounts policy [] = Unit {0}
  OnlyMounts policy (o ∷ []) = ⊥
  OnlyMounts policy (o ∷ v ∷ rest) =
      (o ≡ "-v")
      × (IsVolume ":ro" policy.read_roots v ⊎ IsVolume "" policy.write_roots v)
      × OnlyMounts policy rest

  -- A container of the image without a network, which sees no file but the policy's roots and reads the
  -- code from its input.
  abbrev pub RunsContainer : String → Policy → List String → Type 0
  RunsContainer image policy argv =
      (options : List String) × OnlyMounts policy options
      × (argv
          ≡ "docker"
            ∷ "run"
            ∷ "--rm"
            ∷ "-i"
            ∷ "--network=none"
            ∷ (options ++ image ∷ "/bin/sh" ∷ "-s" ∷ []))

  -- The code runs where the operator's backend says: under the kernel's sandbox of this host, in the
  -- container, or on the host that the operator named.
  abbrev pub RunsAt : Backend → Policy → Option String → Op → Type 0
  RunsAt (local sandbox) policy code (landlock c) = some c ≡ code
  RunsAt (docker image) policy code (spawn argv input) =
      RunsContainer image policy argv × (some input ≡ code)
  RunsAt (ssh host) policy code (spawn argv input) =
      (argv ≡ "ssh" ∷ host ∷ "/bin/sh" ∷ "-s" ∷ []) × (some input ≡ code)
  RunsAt _ policy code _ = ⊥

  OnlyMounts-append :
      (policy : Policy) (xs ys : List String)
      → OnlyMounts policy xs
      → OnlyMounts policy ys
      → OnlyMounts policy (xs ++ ys)
  OnlyMounts-append policy [] ys h k = k
  OnlyMounts-append policy (o ∷ []) ys h k = absurd h
  OnlyMounts-append policy (o ∷ v ∷ xs) ys (flag, volume, h) k =
      (flag, volume, OnlyMounts-append policy xs ys h k)

  -- The mounts of some roots, each of which the policy has.
  mounts-OnlyMounts :
      (policy : Policy) (suffix : String) (roots : List FilePath)
      → ((v : String)
          → IsVolume suffix roots v
          → IsVolume ":ro" policy.read_roots v ⊎ IsVolume "" policy.write_roots v)
      → OnlyMounts policy (mounts sys suffix roots)
  mounts-OnlyMounts policy suffix [] k = tt
  mounts-OnlyMounts policy suffix (r ∷ roots) k =
      OnlyMounts-append policy (mount sys suffix r) (mounts sys suffix roots)
        (one (sys.to_str r) refl) (mounts-OnlyMounts policy suffix roots (λ v h. k v (inr h)))
    where
      one :
          (o : Option String)
          → sys.to_str r ≡ o
          → OnlyMounts policy
              (elim o [ none ↦ [] | some p ↦ "-v" ∷ format (p ∷ ":" ∷ p ∷ suffix ∷ []) ∷ [] ])
      one none e = tt
      one (some p) e = (refl, k _ (inl (p, e, refl)), tt)

  docker_args-RunsContainer :
      (image : String) (policy : Policy) → RunsContainer image policy (docker_args sys image policy)
  unfolding docker_args
  docker_args-RunsContainer image policy = (
    mounts sys ":ro" policy.read_roots ++ mounts sys "" policy.write_roots,
    OnlyMounts-append policy _ _ (mounts-OnlyMounts policy ":ro" policy.read_roots (λ v h. inl h))
        (mounts-OnlyMounts policy "" policy.write_roots (λ v h. inr h)),
    simp append_assoc,
  )

  backend-RunsAt :
      (backend : Backend) (code : String) (policy : Policy) (w : World)
      → All
          (RunsAt backend policy (some code))
          (run_backend sys backend code policy (fresh sys w)).1.ops
  unfolding run_backend perform
  backend-RunsAt (local refuse_sandbox) code policy w = tt
  backend-RunsAt (local landlock_sandbox) code policy w = (refl, tt)
  backend-RunsAt (docker image) code policy w =
      rw with_context-ops ((docker_args-RunsContainer image policy, refl), tt)
  backend-RunsAt (ssh host) code policy w = rw with_context-ops ((refl, refl), tt)

  refusal-RunsAt :
      (overridden : Bool) (backend : Backend) (code : String) (policy : Policy)
      (r : Outcome String × Logged World)
      → overridden ≡ false
      → All (RunsAt backend policy (some code)) r.1.ops
      → All (RunsAt backend policy (some code)) (after_refusal sys overridden code policy r).1.ops
  refusal-RunsAt o backend code policy (ok out, s) h a = a
  refusal-RunsAt false backend code policy (err e, s) h a = a
  refusal-RunsAt true backend code policy (err e, s) h a = cc

  execute-RunsAt :
      (backend : Backend) (allow : Bool) (code : Option String) (policy : Policy) (w : World)
      → (allow && is_local backend) ≡ false
      → All (RunsAt backend policy code) (execute sys backend allow code policy (fresh sys w)).1.ops
  execute-RunsAt backend allow none policy w h = tt
  execute-RunsAt backend allow (some code) policy w h =
      refusal-RunsAt _ backend code policy _ h (backend-RunsAt backend code policy w)

  -- Without the override, and for a backend that is not the local one even with it, whatever the system
  -- answers: all that `execute_code` asks of the system is to run the model's code where the operator's
  -- backend says. For the local backend that is under the kernel's sandbox. For docker it is a container
  -- of the operator's image that has no network, mounts only the policy's roots, the read roots
  -- read-only, and gets the code by its input. For ssh it is a shell on the operator's host, which gets
  -- the code by its input, and whose confinement is that host's own.
  pub execute_code-RunsAt :
      {Value : Type 0} (get : Value → String → Option Value) (as_str : Value → Option String)
      (schema : String → Value) (backend : Backend) (allow : Bool) (args : Value) (policy : Policy)
      (w : World)
      → (allow ≡ false) ⊎ (is_local backend ≡ false)
      → All
          (RunsAt backend policy (text_arg sys get as_str schema args "code"))
          (run_execute_code sys get as_str schema backend allow args policy (fresh sys w)).1.ops
  unfolding run_execute_code
  execute_code-RunsAt get as_str schema backend allow args policy w h =
      execute-RunsAt backend allow _ policy w (ground (arith, h))
