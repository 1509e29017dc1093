-- ===== src/Tools/Lookup.antt =====
-- crates/sa-tools/src/lib.rs: what the registry holds under a name once a tool is registered.
use Prim.Native.Nat.{Ordering}
use Prim.Native.String.{compare}
use secretagent_rust_agent.Base.{
  String, ◌≡◌, ◌≢◌, refl, sym, ◌∙◌, true, false, List, [], ◌∷◌, some, ◌==◌, eq_iff, ◌⊎◌, inl, inr,
  arith, eq_refl,
}
use secretagent_rust_agent.Tools.{Tool, Registry, insert, lookup, register, get}

Ordering-cases : (o : Ordering) → (o ≡ Ordering.lt) ⊎ (o ≡ Ordering.eq) ⊎ (o ≡ Ordering.gt)
Ordering-cases Ordering.lt = inl refl
Ordering-cases Ordering.eq = inr (inl refl)
Ordering-cases Ordering.gt = inr (inr refl)

differ : (a b : String) → a ≢ b → (a == b) ≡ false
differ a b h = ground (arith, eq_iff a b, h)

later_is_other : (k j : String) → compare k j ≡ Ordering.gt → k ≢ j
later_is_other k j e same = absurd_of ((eq_iff k j).1 same)
  where
    absurd_of : (k == j) ≡ true → ⊥
    absurd_of h = cc (e, h)

module _ {Value World : Type 0} where
  lookup-insert_other :
      (k n : String) (t : Tool Value World) (ts : List (String × Tool Value World))
      → k ≢ n
      → lookup n (insert k t ts) ≡ lookup n ts
  unfolding lookup insert
  lookup-insert_other k n t [] h = rw (differ k n h) refl
  lookup-insert_other k n t ((j, u) ∷ ts) h = elim (Ordering-cases (compare k j)) [
    | inl e ↦ rw (e, insert, differ k n h) refl
    | inr (inl e) ↦
        let same = (eq_iff k j).0 (rw e refl) in
        rw (e, insert, differ k n h, differ j n (λ d. h (same ∙ d))) refl
    | inr (inr e) ↦ rw (e, insert, lookup-insert_other k n t ts h) refl
  ]

  lookup-insert_same :
      (k : String) (t : Tool Value World) (ts : List (String × Tool Value World))
      → lookup k (insert k t ts) ≡ some t
  unfolding lookup insert
  lookup-insert_same k t [] = rw (eq_refl k) refl
  lookup-insert_same k t ((j, u) ∷ ts) = elim (Ordering-cases (compare k j)) [
    | inl e ↦ rw (e, insert, eq_refl k) refl
    | inr (inl e) ↦ rw (e, insert, eq_refl k) refl
    | inr (inr e) ↦
        rw
          (
            e,
            insert,
            differ j k (λ d. absurd (later_is_other k j e (sym d))),
            lookup-insert_same k t ts,
          )
          refl
  ]

  -- Registering a tool leaves what is found under every other name.
  pub get-register_other :
      (r : Registry Value World) (t : Tool Value World) (name : String)
      → t.name ≢ name
      → get (register r t) name ≡ get r name
  unfolding get register
  get-register_other r t name h = lookup-insert_other t.name name t r.tools h

  pub get-register_same :
      (r : Registry Value World) (t : Tool Value World) → get (register r t) t.name ≡ some t
  unfolding get register
  get-register_same r t = lookup-insert_same t.name t r.tools
