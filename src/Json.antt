-- ===== src/Json.antt =====
-- serde_json, which the program calls for its messages: a type of values with the operations that
-- the parts use, and what its documentation says of them. `get` is `Value::get` with a text, and `set`
-- replaces or inserts the value at a key of an object (`get_mut`, `value[key] = …`).
pub mod Sample
use secretagent_rust_agent.Base.{
  ℕ, ℤ, String, ◌≡◌, Bool, false, List, [], ◌∷◌, Option, none, some, Outcome, ok, ◌==◌,
  if◌then◌else◌, unwrap_or,
}

pub record Json : Type 1 where
  pub Value : Type 0
  pub null : Value
  pub bool : Bool → Value
  pub number : ℕ → Value
  pub string : String → Value
  pub array : List Value → Value
  pub object : List (String × Value) → Value
  pub get : Value → String → Option Value
  pub set : Value → String → Value → Value
  pub as_str : Value → Option String
  pub as_bool : Value → Option Bool
  pub as_u64 : Value → Option ℕ
  pub as_i64 : Value → Option ℤ
  pub as_array : Value → Option (List Value)
  pub from_str : String → Outcome Value
  pub to_string : Value → String

-- The field of an object that is built from these pairs: of two with one key the later stands.
abbrev pub later_field : {V : Type 0} → Option V → Bool → V → Option V
later_field (some w) here v = some w
later_field none here v = if here then some v else none

abbrev pub field : {V : Type 0} → String → List (String × V) → Option V
field k [] = none
field k ((i, v) ∷ fields) = later_field (field k fields) (i == k) v

-- `== Some(t)`, and a pattern `Some(t)` of a match
abbrev pub is_str : Option String → String → Bool
is_str none t = false
is_str (some s) t = s == t

module _ (j : Json) where
  open j use {
    Value, null, string, array, object, number, get, set, as_str, as_bool, as_u64, as_i64, as_array,
  }

  -- What serde_json documents of values that `json!` builds.
  pub record IsLawful : Type 0 where
    pub get-object :
        (fields : List (String × Value)) (k : String) → get (object fields) k ≡ field k fields
    pub as_str-string : (s : String) → as_str (string s) ≡ some s
    pub as_array-array : (vs : List Value) → as_array (array vs) ≡ some vs
    pub get-set :
        (v u w : Value) (k i : String)
        → get v k ≡ some u
        → get (set v k w) i ≡ (if k == i then some w else get v i)
    pub as_u64-number : (n : ℕ) → as_u64 (number n) ≡ some n

  -- `v.get(k).and_then(|x| x.as_str())` and its like
  abbrev pub then_str : Option Value → Option String
  then_str none = none
  then_str (some v) = as_str v

  abbrev pub then_bool : Option Value → Option Bool
  then_bool none = none
  then_bool (some v) = as_bool v

  abbrev pub then_u64 : Option Value → Option ℕ
  then_u64 none = none
  then_u64 (some v) = as_u64 v

  abbrev pub then_i64 : Option Value → Option ℤ
  then_i64 none = none
  then_i64 (some v) = as_i64 v

  abbrev pub then_get : Option Value → String → Option Value
  then_get none k = none
  then_get (some v) k = get v k

  abbrev pub then_array : Option Value → Option (List Value)
  then_array none = none
  then_array (some v) = as_array v

  abbrev pub get_str : Value → String → Option String
  get_str v k = then_str (get v k)

  abbrev pub get_bool : Value → String → Option Bool
  get_bool v k = then_bool (get v k)

  abbrev pub get_array : Value → String → Option (List Value)
  get_array v k = then_array (get v k)

  -- `v[k]`
  abbrev pub index : Value → String → Value
  index v k = unwrap_or (get v k) null

  abbrev pub first_or : Value → Option (List Value) → Value
  first_or d none = d
  first_or d (some []) = d
  first_or d (some (v ∷ vs)) = v

  -- `v[0]`
  abbrev pub index_first : Value → Value
  index_first v = first_or null (as_array v)

  -- `.and_then(|x| x.as_str()).unwrap_or("")`
  abbrev pub str_or : String → Value → String → String
  str_or d v k = unwrap_or (get_str v k) d
