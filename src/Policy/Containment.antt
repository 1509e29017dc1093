-- ===== src/Policy/Containment.antt =====
-- `path_allowed` against a description of containment.
use mathlib.Core.Path.{subst}
use secretagent_rust_agent.Base.{
  ◌≡◌, refl, ◌∙◌, ◌↔◌, ◌⊎◌, inl, inr, Bool, true, false, none, some, List, [], ◌∷◌, ◌++◌, reverse,
  any, All, Any, arith, reverse-cons, append_assoc, append-nil, reverse-reverse, Option-cases,
  Bool-cases,
}
use secretagent_rust_agent.Policy.{
  normal, FilePath, Disk, Policy, normalize, starts_with, lexically_within, resolve_up,
  resolves_within, write_root_allows, path_allowed,
}
use secretagent_rust_agent.Policy.Resolution.{Resolves, normalize_iff}
use secretagent_rust_agent.Policy.Paths.{
  IsPlain, IsName, All-append_right, normalize-IsPlain, starts_with_sound, starts_with_complete,
}

-- The resolved path lies in the resolved root, and no walk upwards is left behind the root.
pub record Within (norm root : FilePath) : Type 0 where
  pub base : FilePath
  pub tail : FilePath
  pub resolved : Resolves root base
  pub split : norm ≡ base ++ tail
  pub plain : All IsPlain tail

lexically_within_sound :
    (norm root : FilePath) → All IsPlain norm → lexically_within norm root ≡ true → Within norm root
unfolding lexically_within
lexically_within_sound norm root p h = elim (Option-cases (normalize root)) [
  | inl e ↦ ground arith
  | inr (base, e) ↦
      let (tail, split) = starts_with_sound norm base (ground arith) in
      record {
        base = base;
        tail = tail;
        resolved = (normalize_iff root base).0 e;
        split = split;
        plain = All-append_right IsPlain base tail (subst (All IsPlain) split p);
      }
]

lexically_within_complete :
    (norm root : FilePath) → Within norm root → lexically_within norm root ≡ true
unfolding lexically_within
lexically_within_complete norm root w =
    rw ((normalize_iff root w.base).1 w.resolved, lexically_within)
      (rw w.split (starts_with_complete w.base w.tail))

any_sound :
    (p : FilePath → Bool) (P : FilePath → Type 0)
    → ((r : FilePath) → p r ≡ true → P r)
    → (rs : List FilePath) → any p rs ≡ true
    → Any P rs
any_sound p P f [] h = cc
any_sound p P f (r ∷ rs) h = elim (Bool-cases (p r)) [
  | inl e ↦ inl (f r e)
  | inr e ↦ inr (any_sound p P f rs (ground arith))
]

any_complete :
    (p : FilePath → Bool) (P : FilePath → Type 0)
    → ((r : FilePath) → P r → p r ≡ true)
    → (rs : List FilePath) → Any P rs
    → any p rs ≡ true
any_complete p P f [] h = absurd h
any_complete p P f (r ∷ rs) (inl h) = ground (arith, f r h)
any_complete p P f (r ∷ rs) (inr h) = ground (arith, any_complete p P f rs h)

-- A read is allowed exactly when the path resolves, by striking out each `.` and each `..` with the name
-- directly before it, to a path that continues what a read root resolves to. A path in which a `..` has
-- no name before it resolves to nothing and is refused.
pub read_allowed_iff :
    (fs : Disk) (p : Policy) (path : FilePath)
    → (path_allowed fs p path false ≡ true)
      ↔ ((norm : FilePath) × Resolves path norm × Any (Within norm) p.read_roots)
unfolding path_allowed
read_allowed_iff fs p path = (to, from)
  where
    to :
        path_allowed fs p path false ≡ true
        → (norm : FilePath) × Resolves path norm × Any (Within norm) p.read_roots
    to h = elim (Option-cases (normalize path)) [
      | inl e ↦ ground arith
      | inr (norm, e) ↦ (
        norm,
        (normalize_iff path norm).0 e,
        any_sound (lexically_within norm) (Within norm)
            (λ r. lexically_within_sound norm r (normalize-IsPlain path norm e)) p.read_roots
            (ground arith),
      )
    ]

    from :
        ((norm : FilePath) × Resolves path norm × Any (Within norm) p.read_roots)
        → path_allowed fs p path false ≡ true
    from (norm, r, w) =
        rw ((normalize_iff path norm).1 r, path_allowed)
          (ground (
            arith,
            any_complete (lexically_within norm) (Within norm) (lexically_within_complete norm)
                p.read_roots w,
          ))

-- No path that extends `anc` by one or more of the names is on the disk.
abbrev pub Missing : Disk → FilePath → FilePath → Type 0
Missing fs anc [] = Unit
Missing fs anc (n ∷ names) = (fs (anc ++ n ∷ []) ≡ none) × Missing fs (anc ++ n ∷ []) names

-- The target's longest ancestor on the disk, resolved and joined with the rest, which are names,
-- lies in the resolved root.
pub record ResolvesInto (fs : Disk) (croot target : FilePath) : Type 0 where
  pub ancestor : FilePath
  pub names : FilePath
  pub canonical : FilePath
  pub tail : FilePath
  pub split : target ≡ ancestor ++ names
  pub only_names : All IsName names
  pub missing : Missing fs ancestor names
  pub found : fs ancestor ≡ some canonical
  pub inside : canonical ++ names ≡ croot ++ tail

here :
    (fs : Disk) (croot anc rem c : FilePath)
    → All IsName rem
    → Missing fs anc rem
    → fs anc ≡ some c
    → starts_with (c ++ rem) croot ≡ true
    → ResolvesInto fs croot (anc ++ rem)
here fs croot anc rem c names gone e h =
    let (tail, inside) = starts_with_sound (c ++ rem) croot h in
    record {
      ancestor = anc;
      names = rem;
      canonical = c;
      tail = tail;
      split = refl;
      only_names = names;
      missing = gone;
      found = e;
      inside = inside;
    }

resolve_up_sound :
    (fs : Disk) (croot existing rem : FilePath)
    → All IsName rem
    → Missing fs (reverse existing) rem
    → resolve_up fs croot existing rem ≡ true
    → ResolvesInto fs croot (reverse existing ++ rem)
unfolding resolve_up
resolve_up_sound fs croot [] rem n m h = elim (Option-cases (fs [])) [
  | inl e ↦ ground arith
  | inr (c, e) ↦ here fs croot [] rem c n m e (ground arith)
]
resolve_up_sound fs croot (normal s ∷ ex) rem n m h =
    elim (Option-cases (fs (reverse (normal s ∷ ex)))) [
      | inl e ↦ subst (ResolvesInto fs croot) (simp (reverse-cons, append_assoc)) (
          resolve_up_sound fs croot ex (normal s ∷ rem) (tt, n) (rw (← reverse-cons) (e, m))
            (ground arith))
      | inr (c, e) ↦ here fs croot (reverse (normal s ∷ ex)) rem c n m e (ground arith)
    ]
resolve_up_sound fs croot (last ∷ ex) rem n m h = elim (Option-cases (fs (reverse (last ∷ ex)))) [
  | inl e ↦ ground arith
  | inr (c, e) ↦ here fs croot (reverse (last ∷ ex)) rem c n m e (ground arith)
]

resolves_within_sound :
    (fs : Disk) (root croot target : FilePath)
    → fs root ≡ some croot
    → resolves_within fs root target ≡ true
    → ResolvesInto fs croot target
unfolding resolves_within
resolves_within_sound fs root croot target e h =
    subst (ResolvesInto fs croot) (append-nil (reverse (reverse target)) ∙ reverse-reverse target)
      (resolve_up_sound fs croot (reverse target) [] tt tt (ground arith))

-- Where a write may go for the sake of one root: a root that is absent from the disk contains the
-- resolved path lexically; a root that is there contains it with all links resolved.
abbrev pub WriteContained : Disk → FilePath → FilePath → FilePath → Type 0
WriteContained fs path norm r =
    (fs r ≡ none) × Within norm r
    ⊎ ((croot : FilePath) × (fs r ≡ some croot) × ResolvesInto fs croot path)

write_root_allows_sound :
    (fs : Disk) (path norm r : FilePath)
    → All IsPlain norm
    → write_root_allows fs path norm r ≡ true
    → WriteContained fs path norm r
unfolding write_root_allows
write_root_allows_sound fs path norm r p h = elim (Option-cases (fs r)) [
  | inl e ↦ inl (e, lexically_within_sound norm r p (ground arith))
  | inr (croot, e) ↦ inr (croot, e, resolves_within_sound fs r croot path e (ground arith))
]

-- An allowed write resolves into a write root, by striking out each `.` and each `..` with the name
-- before it, and for some write root it is contained
-- with symbolic links resolved, unless that root is absent from the disk.
pub write_allowed_sound :
    (fs : Disk) (p : Policy) (path : FilePath)
    → path_allowed fs p path true ≡ true
    → (norm : FilePath) × Resolves path norm
      × Any (Within norm) p.write_roots
      × Any (WriteContained fs path norm) p.write_roots
unfolding path_allowed
write_allowed_sound fs p path h = elim (Option-cases (normalize path)) [
  | inl e ↦ ground arith
  | inr (norm, e) ↦
      let plain = normalize-IsPlain path norm e in
      (
        norm,
        (normalize_iff path norm).0 e,
        any_sound (lexically_within norm) (Within norm) (λ r. lexically_within_sound norm r plain)
            p.write_roots (ground arith),
        any_sound (write_root_allows fs path norm) (WriteContained fs path norm)
            (λ r. write_root_allows_sound fs path norm r plain) p.write_roots (ground arith),
      )
]
