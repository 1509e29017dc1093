-- ===== src/Memory/Preferences.antt =====
-- Stated preferences: one row for each dimension, the latest statement wins.
pub mod Lookup
use Prim.Native.Nat.{Ordering}
use Prim.Native.String.{compare}
use secretagent_rust_agent.Base.{String, List, [], ◌∷◌, ◌==◌, if◌then◌else◌}
use secretagent_rust_agent.Memory.{Preference, Store}

-- `INSERT … ON CONFLICT(dimension) DO UPDATE`
unfoldable pub upsert : Preference → List Preference → List Preference
upsert p [] = p ∷ []
upsert p (q ∷ rows) =
    let rest = upsert p rows in if q.dimension == p.dimension then p ∷ rows else q ∷ rest

unfoldable pub set_preference : String → String → String → String → Store → Store
unfolding upsert
set_preference dimension value prov source st = record st {
  user_model =
      upsert
        (record {
          dimension = dimension;
          value = value;
          provenance = prov;
          source_session = source;
        })
        st.user_model;
}

-- `ORDER BY dimension`, by insertion; texts compare by their bytes.
unfoldable pub insert_by_dimension : Preference → List Preference → List Preference
insert_by_dimension p [] = p ∷ []
insert_by_dimension p (q ∷ rows) =
    let rest = insert_by_dimension p rows in
    elim (compare p.dimension q.dimension) [ Ordering.gt ↦ q ∷ rest | _ ↦ p ∷ q ∷ rows ]

unfoldable pub sort_by_dimension : List Preference → List Preference
unfolding insert_by_dimension
sort_by_dimension [] = []
sort_by_dimension (p ∷ rows) = insert_by_dimension p (sort_by_dimension rows)

unfoldable pub preferences : Store → List Preference
unfolding sort_by_dimension
preferences st = sort_by_dimension st.user_model
