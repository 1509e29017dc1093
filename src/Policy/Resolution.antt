-- ===== src/Policy/Resolution.antt =====
-- crates/sa-core-types/src/policy.rs, `normalize`: a path without its detours, as a relation.
use secretagent_rust_agent.Base.{
  String, ◌≡◌, refl, sym, ◌∙◌, ◌↔◌, inl, inr, some, [], ◌∷◌, ◌++◌, reverse, All, reverse-cons,
  append_assoc, append-nil, Option-cases,
}
use mathlib.Core.Path.{subst}
use mathlib.Core.Option.{some-injective}
use secretagent_rust_agent.Policy.{
  Component, prefix, normal, root_dir, cur_dir, parent_dir, FilePath, pop, normalize_from,
  normalize,
}
use secretagent_rust_agent.Policy.Paths.{IsPlain, All-reverse, normalize_from_of_IsPlain}

-- A path resolves to what is left when each `.` is struck out, and each `..` together with the name
-- directly before it. A `..` with no name before it stays, and then there is no result.
pub data Resolves : FilePath → FilePath → Type 0 where
  plain : (path : FilePath) → All IsPlain path → Resolves path path
  here :
      (before after n : FilePath)
      → Resolves (before ++ after) n
      → Resolves (before ++ cur_dir ∷ after) n
  up :
      (before after n : FilePath) (name : String)
      → Resolves (before ++ after) n
      → Resolves (before ++ normal name ∷ parent_dir ∷ after) n

snoc_path : (out cs : FilePath) (c : Component) → reverse (c ∷ out) ++ cs ≡ reverse out ++ c ∷ cs
snoc_path out cs c = simp (reverse-cons, append_assoc)

normalize_from-Resolves :
    (out cs n : FilePath)
    → All IsPlain out
    → normalize_from out cs ≡ some n
    → Resolves (reverse out ++ cs) n
unfolding normalize_from pop
normalize_from-Resolves out [] n h e =
    rw append-nil
      (subst (Resolves (reverse out)) (some-injective _ _ e) (plain _ (All-reverse IsPlain out h)))
normalize_from-Resolves out (cur_dir ∷ cs) n h e =
    here (reverse out) cs n (normalize_from-Resolves out cs n h e)
normalize_from-Resolves [] (parent_dir ∷ cs) n h e = cc
normalize_from-Resolves (normal s ∷ out) (parent_dir ∷ cs) n h e =
    subst (λ p. Resolves p n) (sym (snoc_path out (parent_dir ∷ cs) (normal s)))
      (up (reverse out) cs n s (normalize_from-Resolves out cs n h.1 e))
normalize_from-Resolves (prefix s ∷ out) (parent_dir ∷ cs) n h e = cc
normalize_from-Resolves (root_dir ∷ out) (parent_dir ∷ cs) n h e = cc
normalize_from-Resolves (cur_dir ∷ out) (parent_dir ∷ cs) n h e = absurd h.0
normalize_from-Resolves (parent_dir ∷ out) (parent_dir ∷ cs) n h e = absurd h.0
normalize_from-Resolves out (prefix s ∷ cs) n h e =
    subst (λ p. Resolves p n) (snoc_path out cs (prefix s))
      (normalize_from-Resolves (prefix s ∷ out) cs n (tt, h) e)
normalize_from-Resolves out (normal s ∷ cs) n h e =
    subst (λ p. Resolves p n) (snoc_path out cs (normal s))
      (normalize_from-Resolves (normal s ∷ out) cs n (tt, h) e)
normalize_from-Resolves out (root_dir ∷ cs) n h e =
    subst (λ p. Resolves p n) (snoc_path out cs root_dir)
      (normalize_from-Resolves (root_dir ∷ out) cs n (tt, h) e)

-- Two continuations with one result have one result behind any path.
normalize_from-append :
    (before : FilePath) (cs ds : FilePath)
    → ((out : FilePath) → normalize_from out cs ≡ normalize_from out ds)
    → (out : FilePath) → normalize_from out (before ++ cs) ≡ normalize_from out (before ++ ds)
unfolding normalize_from
normalize_from-append [] cs ds h out = h out
normalize_from-append (cur_dir ∷ before) cs ds h out = normalize_from-append before cs ds h out
normalize_from-append (parent_dir ∷ before) cs ds h out = elim (Option-cases (pop out)) [
  | inl e ↦ rw (e, normalize_from) refl
  | inr (out', e) ↦ rw (e, normalize_from) (normalize_from-append before cs ds h out')
]
normalize_from-append (prefix s ∷ before) cs ds h out =
    normalize_from-append before cs ds h (prefix s ∷ out)
normalize_from-append (normal s ∷ before) cs ds h out =
    normalize_from-append before cs ds h (normal s ∷ out)
normalize_from-append (root_dir ∷ before) cs ds h out =
    normalize_from-append before cs ds h (root_dir ∷ out)

Resolves-normalize : {path n : FilePath} → Resolves path n → normalize path ≡ some n
unfolding normalize normalize_from pop
Resolves-normalize (plain p h) = normalize_from_of_IsPlain [] p h
Resolves-normalize (here before after n q) =
    normalize_from-append before (cur_dir ∷ after) after (λ out. refl) [] ∙ Resolves-normalize q
Resolves-normalize (up before after n name q) =
    normalize_from-append before (normal name ∷ parent_dir ∷ after) after (λ out. refl) []
    ∙ Resolves-normalize q

-- `normalize` finds what a path resolves to, and fails where it resolves to nothing.
pub normalize_iff : (path n : FilePath) → (normalize path ≡ some n) ↔ Resolves path n
unfolding normalize
normalize_iff path n = (normalize_from-Resolves [] path n tt, Resolves-normalize)
