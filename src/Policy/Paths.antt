-- ===== src/Policy/Paths.antt =====
-- What `path_allowed` promises: no `..` survives, and an allowed path lies within a root.
use secretagent_rust_agent.Base.{
  ◌≡◌, refl, ◌∙◌, ◌↔◌, inl, inr, true, some, [], ◌∷◌, ◌++◌, reverse, All, All-append, arith, eq_iff,
  reverse-cons, append_assoc, append-nil, Option-cases, Bool-cases,
}
use mathlib.Core.Path.{subst}
use mathlib.Core.Option.{some-injective}
use secretagent_rust_agent.Policy.{
  Component, prefix, normal, root_dir, cur_dir, parent_dir, FilePath, pop, normalize_from,
  normalize, component_eq, starts_with,
}

-- A component that no walk upwards is made of.
abbrev pub IsPlain : Component → Type 0
IsPlain cur_dir = ⊥
IsPlain parent_dir = ⊥
IsPlain _ = Unit

abbrev pub IsName : Component → Type 0
IsName (normal s) = Unit
IsName _ = ⊥

pub All-reverse : (P : Component → Type 0) (cs : FilePath) → All P cs → All P (reverse cs)
All-reverse P [] h = tt
All-reverse P (c ∷ cs) (p, h) =
    rw reverse-cons (All-append P (reverse cs) (c ∷ []) (All-reverse P cs h) (p, tt))

pub All-append_right : (P : Component → Type 0) (xs ys : FilePath) → All P (xs ++ ys) → All P ys
All-append_right P [] ys h = h
All-append_right P (x ∷ xs) ys h = All-append_right P xs ys h.1

pop-IsPlain :
    (out : FilePath) {out' : FilePath} → All IsPlain out → pop out ≡ some out' → All IsPlain out'
unfolding pop
pop-IsPlain [] h e = cc
pop-IsPlain (prefix s ∷ out) h e = cc
pop-IsPlain (root_dir ∷ out) h e = cc
pop-IsPlain (normal s ∷ out) h e = ground arith
pop-IsPlain (cur_dir ∷ out) h e = absurd h.0
pop-IsPlain (parent_dir ∷ out) h e = absurd h.0

normalize_from-IsPlain :
    (out cs : FilePath) {n : FilePath}
    → All IsPlain out
    → normalize_from out cs ≡ some n
    → All IsPlain n
unfolding normalize_from
normalize_from-IsPlain out [] h e =
    subst (All IsPlain) (some-injective _ _ e) (All-reverse IsPlain out h)
normalize_from-IsPlain out (parent_dir ∷ cs) h e = elim (Option-cases (pop out)) [
  | inl stop ↦ ground arith
  | inr (out', up) ↦ normalize_from-IsPlain out' cs (pop-IsPlain out h up) (ground arith)
]
normalize_from-IsPlain out (cur_dir ∷ cs) h e = normalize_from-IsPlain out cs h e
normalize_from-IsPlain out (prefix s ∷ cs) h e =
    normalize_from-IsPlain (prefix s ∷ out) cs (tt, h) e
normalize_from-IsPlain out (normal s ∷ cs) h e =
    normalize_from-IsPlain (normal s ∷ out) cs (tt, h) e
normalize_from-IsPlain out (root_dir ∷ cs) h e =
    normalize_from-IsPlain (root_dir ∷ out) cs (tt, h) e

pub normalize-IsPlain : (path n : FilePath) → normalize path ≡ some n → All IsPlain n
unfolding normalize
normalize-IsPlain path n e = normalize_from-IsPlain [] path tt e

pub normalize_from_of_IsPlain :
    (out cs : FilePath) → All IsPlain cs → normalize_from out cs ≡ some (reverse out ++ cs)
unfolding normalize_from
normalize_from_of_IsPlain out [] h = rw append-nil
normalize_from_of_IsPlain out (cur_dir ∷ cs) h = absurd h.0
normalize_from_of_IsPlain out (parent_dir ∷ cs) h = absurd h.0
normalize_from_of_IsPlain out (c ∷ cs) h =
    normalize_from_of_IsPlain (c ∷ out) cs h.1 ∙ simp (reverse-cons, append_assoc)

-- The result of `normalize` has no `.` and no `..`, and is its own normal form.
pub normalize_idempotent :
    (path n : FilePath) → normalize path ≡ some n → All IsPlain n × (normalize n ≡ some n)
unfolding normalize
normalize_idempotent path n e =
    let plain = normalize-IsPlain path n e in (plain, normalize_from_of_IsPlain [] n plain)

component_eq_iff : (c d : Component) → (component_eq c d ≡ true) ↔ (c ≡ d)
unfolding component_eq
component_eq_iff (prefix s) (prefix t) = ground (arith, eq_iff s t)
component_eq_iff (normal s) (normal t) = ground (arith, eq_iff s t)
component_eq_iff root_dir root_dir = (λ _. refl, λ _. refl)
component_eq_iff cur_dir cur_dir = (λ _. refl, λ _. refl)
component_eq_iff parent_dir parent_dir = (λ _. refl, λ _. refl)
component_eq_iff _ _ = ((λ h. cc), (λ h. cc))

pub starts_with_sound :
    (path base : FilePath)
    → starts_with path base ≡ true
    → (tail : FilePath) × (path ≡ base ++ tail)
unfolding starts_with
starts_with_sound path [] h = (path, refl)
starts_with_sound [] (b ∷ base) h = cc
starts_with_sound (c ∷ path) (b ∷ base) h = elim (Bool-cases (component_eq c b)) [
  | inl same ↦
      let (tail, e) = starts_with_sound path base (ground arith) in
      (tail, cc ((component_eq_iff c b).0 same))
  | inr other ↦ ground arith
]

pub starts_with_complete : (base tail : FilePath) → starts_with (base ++ tail) base ≡ true
unfolding starts_with
starts_with_complete [] tail = refl
starts_with_complete (b ∷ base) tail =
    ground (arith, component_eq_iff b b, starts_with_complete base tail)
