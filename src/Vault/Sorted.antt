-- ===== src/Vault/Sorted.antt =====
-- `BTreeMap<String, String>`: pairs in the order of their keys, which is that of their bytes and of
-- their characters.
use Prim.Native.Nat.{Ordering, compare as compare_ℕ}
use Prim.Native.Char.{code}
use Prim.Native.String.compare
use Prim.Native.String.{compare, then as then_compare}
use mathlib.Core.Path.{sym, subst, ◌∙◌}
use text.Mathlib.TextEquality.{path_by_compare}
use secretagent_rust_agent.Base.{
  ℕ, String, ◌≡◌, refl, Bool, true, false, List, [], ◌∷◌, Option, none, some, ◌==◌, if◌then◌else◌,
  Bool-cases, ◌⊎◌, inl, inr, arith, eq_iff,
}

abbrev pub Map : Type 0
Map = List (String × String)

-- Before, at or behind a pair of the map.
abbrev pub insert_at : String → String → Ordering → String × String → Map → Map → Map
insert_at key value Ordering.lt p rest inserted = (key, value) ∷ p ∷ rest
insert_at key value Ordering.eq p rest inserted = (p.0, value) ∷ rest
insert_at key value Ordering.gt p rest inserted = p ∷ inserted

unfoldable pub insert : String → String → Map → Map
insert key value [] = (key, value) ∷ []
insert key value (p ∷ rest) = insert_at key value (compare key p.0) p rest (insert key value rest)

unfoldable pub lookup : String → Map → Option String
lookup key [] = none
lookup key (p ∷ rest) = let later = lookup key rest in if p.0 == key then some p.1 else later

-- The keys ascend.
abbrev Above : String → Map → Type 0
Above k [] = Unit
Above k (p ∷ rest) = compare k p.0 ≡ Ordering.lt

abbrev pub IsSorted : Map → Type 0
IsSorted [] = Unit
IsSorted (p ∷ rest) = Above p.0 rest × IsSorted rest

number_flip : (a b : ℕ) → compare_ℕ a b ≡ Ordering.gt → compare_ℕ b a ≡ Ordering.lt
number_flip a b h = ground arith

number_same : (a b : ℕ) → compare_ℕ a b ≡ Ordering.eq → compare_ℕ b a ≡ Ordering.eq
number_same a b h = ground arith

-- Which of two texts is first depends on their first characters, and behind equal ones on the rest.
then_flip :
    (a b : ℕ) (o : Ordering) (r q : Ordering)
    → compare_ℕ a b ≡ o
    → (r ≡ Ordering.gt → q ≡ Ordering.lt)
    → then_compare o r ≡ Ordering.gt
    → then_compare (compare_ℕ b a) q ≡ Ordering.lt
then_flip a b Ordering.lt r q e later h = cc
then_flip a b Ordering.eq r q e later h = rw (number_same a b e) (later h)
then_flip a b Ordering.gt r q e later h = rw (number_flip a b e) refl

compare_flip : (s t : String) → compare s t ≡ Ordering.gt → compare t s ≡ Ordering.lt
compare_flip String.[] String.[] h = cc (h, compare.nil-nil)
compare_flip String.[] (String.◌∷◌ d t) h = cc (h, compare.nil-cons d t)
compare_flip (String.◌∷◌ c s) String.[] h = compare.nil-cons c s
compare_flip (String.◌∷◌ c s) (String.◌∷◌ d t) h =
    compare.cons-cons d c t s
    ∙ then_flip (code c) (code d) (compare_ℕ (code c) (code d)) (compare s t) (compare t s) refl
        (compare_flip s t) (sym (compare.cons-cons c d s t) ∙ h)

Ordering-cases : (o : Ordering) → (o ≡ Ordering.lt) ⊎ (o ≡ Ordering.eq) ⊎ (o ≡ Ordering.gt)
Ordering-cases Ordering.lt = inl refl
Ordering-cases Ordering.eq = inr (inl refl)
Ordering-cases Ordering.gt = inr (inr refl)

Above-insert :
    (k key value : String) (m : Map)
    → compare k key ≡ Ordering.lt
    → Above k m
    → Above k (insert key value m)
unfolding insert
Above-insert k key value [] h a = h
Above-insert k key value (p ∷ rest) h a = elim (Ordering-cases (compare key p.0)) [
  | inl e ↦ rw e h
  | inr (inl e) ↦ rw e a
  | inr (inr e) ↦ rw e a
]

pub insert-IsSorted : (key value : String) (m : Map) → IsSorted m → IsSorted (insert key value m)
unfolding insert
insert-IsSorted key value [] h = (tt, tt)
insert-IsSorted key value (p ∷ rest) (a, h) = elim (Ordering-cases (compare key p.0)) [
  | inl e ↦ rw e (e, (a, h))
  | inr (inl e) ↦ rw e (a, h)
  | inr (inr e) ↦
      rw e (
        Above-insert p.0 key value rest (compare_flip key p.0 e) a,
        insert-IsSorted key value rest h,
      )
]

-- A pair before all others is put in front.
pub insert-first :
    (key value : String) (rest : Map)
    → IsSorted ((key, value) ∷ rest)
    → insert key value rest ≡ (key, value) ∷ rest
unfolding insert
insert-first key value [] h = refl
insert-first key value (p ∷ rest) (a, h) = rw a refl

same_key : (key k d : String) → compare key k ≡ Ordering.eq → (k == d) ≡ (key == d)
same_key key k d e = rw (path_by_compare key k e) refl

other_key : (key k d : String) → compare key k ≡ Ordering.gt → (k == d) ≡ true → (key == d) ≡ false
other_key key k d e h = not_equal (subst (λ x. compare key x ≡ Ordering.gt) ((eq_iff k d).0 h) e)
  where
    not_equal : compare key d ≡ Ordering.gt → (key == d) ≡ false
    not_equal g = rw g refl

either_way :
    (here : Bool) (value v : String) (l : Option String)
    → (if here then some value else l) ≡ (if here then some value else (if here then some v else l))
either_way true value v l = refl
either_way false value v l = refl

-- Of two different keys one is looked for.
behind :
    (key k d value v : String) (l : Option String)
    → compare key k ≡ Ordering.gt
    → (if k == d then some v else (if key == d then some value else l))
      ≡ (if key == d then some value else (if k == d then some v else l))
behind key k d value v l e = elim (Bool-cases (k == d)) [
  | inl h ↦ rw (h, other_key key k d e h) refl
  | inr h ↦ rw h refl
]

-- After an insertion a key has the value that was inserted for it, or the one that it had.
pub lookup-insert :
    (key value d : String) (m : Map)
    → lookup d (insert key value m) ≡ (if key == d then some value else lookup d m)
unfolding insert lookup
lookup-insert key value d [] = refl
lookup-insert key value d (p ∷ rest) = elim (Ordering-cases (compare key p.0)) [
  | inl e ↦ rw e refl
  | inr (inl e) ↦ rw (e, same_key key p.0 d e) (either_way (key == d) value p.1 (lookup d rest))
  | inr (inr e) ↦
      rw (e, lookup-insert key value d rest) (behind key p.0 d value p.1 (lookup d rest) e)
]
