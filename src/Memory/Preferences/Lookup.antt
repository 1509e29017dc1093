-- ===== src/Memory/Preferences/Lookup.antt =====
-- crates/sa-memory/src/lib.rs, `set_preference`: what is stated for a dimension.
use secretagent_rust_agent.Base.{
  String, ◌≡◌, refl, true, false, List, [], ◌∷◌, find, Option, some, ◌==◌, if◌then◌else◌,
  Bool-cases, inl, inr, arith, eq_iff,
}
use secretagent_rust_agent.Memory.{Preference, Store}
use secretagent_rust_agent.Memory.Preferences.{upsert, set_preference}

-- The preference of a dimension.
abbrev pub stated : String → List Preference → Option Preference
stated d rows = find (λ (q : Preference). q.dimension == d) rows

clash : (p q d : String) → (q == p) ≡ true → (q == d) ≡ true → (p == d) ≡ false → ⊥
clash p q d a b c = ground (arith, eq_iff q p, eq_iff q d, eq_iff p d)

meet : (p q d : String) → (q == p) ≡ false → (q == d) ≡ true → (p == d) ≡ true → ⊥
meet p q d a b c = ground (arith, eq_iff q p, eq_iff q d, eq_iff p d)

stated-upsert :
    (p : Preference) (d : String) (rows : List Preference)
    → stated d (upsert p rows) ≡ (if p.dimension == d then some p else stated d rows)
unfolding upsert
stated-upsert p d [] = refl
stated-upsert p d (q ∷ rows) = elim (Bool-cases (q.dimension == p.dimension)) [
  | inl a ↦ elim (Bool-cases (q.dimension == d)) [
    | inl b ↦ elim (Bool-cases (p.dimension == d)) [
      | inl c ↦ rw (a, c) refl
      | inr c ↦ absurd (clash p.dimension q.dimension d a b c)
    ]
    | inr b ↦ rw (a, b) refl
  ]
  | inr a ↦ elim (Bool-cases (q.dimension == d)) [
    | inl b ↦ elim (Bool-cases (p.dimension == d)) [
      | inl c ↦ absurd (meet p.dimension q.dimension d a b c)
      | inr c ↦ rw (a, b, c) refl
    ]
    | inr b ↦ rw (a, b, stated-upsert p d rows) refl
  ]
]

-- After a preference is set, its dimension has exactly what was stated last, and every other dimension
-- has what it had.
pub stated-set_preference :
    (dimension value prov source d : String) (st : Store)
    → stated d (set_preference dimension value prov source st).user_model ≡ (
        if dimension == d
        then some (record {
          dimension = dimension;
          value = value;
          provenance = prov;
          source_session = source;
        })
        else stated d st.user_model)
unfolding set_preference
stated-set_preference dimension value prov source d st = stated-upsert _ d st.user_model
