-- ===== src/Json/Sample.antt =====
-- Values for the tests. Texts of the wire stand for one value each, in a table.
use secretagent_rust_agent.Base.{
  ℕ, ℤ, pos, String, ◌≡◌, refl, Bool, List, [], ◌∷◌, Option, none, some, Outcome, ok, err, ◌==◌,
  if◌then◌else◌, ap, Bool-cases, inl, inr,
}
use secretagent_rust_agent.Json.{Json, IsLawful, field}

mutual
  pub data Value : Type 0 where
    null : Value
    bool : Bool → Value
    number : ℕ → Value
    string : String → Value
    array : Values → Value
    object : Fields → Value

  pub data Values : Type 0 where
    end : Values
    more : Value → Values → Values

  pub data Fields : Type 0 where
    no_field : Fields
    has : String → Value → Fields → Fields

abbrev pub from_list : List Value → Values
from_list [] = end
from_list (v ∷ vs) = more v (from_list vs)

abbrev to_list : Values → List Value
to_list end = []
to_list (more v vs) = v ∷ to_list vs

abbrev pub from_fields : List (String × Value) → Fields
from_fields [] = no_field
from_fields ((k, v) ∷ fields) = has k v (from_fields fields)

abbrev to_fields : Fields → List (String × Value)
to_fields no_field = []
to_fields (has k v fields) = (k, v) ∷ to_fields fields

to_list-from_list : (vs : List Value) → to_list (from_list vs) ≡ vs
to_list-from_list [] = refl
to_list-from_list (v ∷ vs) = ap (λ ws. v ∷ ws) (to_list-from_list vs)

to_fields-from_fields : (fs : List (String × Value)) → to_fields (from_fields fs) ≡ fs
to_fields-from_fields [] = refl
to_fields-from_fields ((k, v) ∷ fs) = ap (λ gs. (k, v) ∷ gs) (to_fields-from_fields fs)

abbrev get : Value → String → Option Value
get (object fs) k = field k (to_fields fs)
get _ k = none

abbrev put : Fields → String → Value → Fields
put no_field k w = has k w no_field
put (has i v fs) k w = has i v (put fs k w)

abbrev set : Value → String → Value → Value
set (object fs) k w = object (put fs k w)
set v k w = v

field-put :
    (fs : Fields) (k i : String) (w : Value)
    → field i (to_fields (put fs k w)) ≡ (if k == i then some w else field i (to_fields fs))
field-put no_field k i w = refl
field-put (has n v fs) k i w = elim (Bool-cases (k == i)) [
  | inl e ↦ rw (field-put fs k i w, e) refl
  | inr e ↦ rw (field-put fs k i w, e) refl
]

get-set :
    (v u w : Value) (k i : String)
    → get v k ≡ some u
    → get (set v k w) i ≡ (if k == i then some w else get v i)
get-set (object fs) u w k i h = field-put fs k i w
get-set null u w k i h = cc
get-set (bool b) u w k i h = cc
get-set (number n) u w k i h = cc
get-set (string s) u w k i h = cc
get-set (array vs) u w k i h = cc

abbrev as_str : Value → Option String
as_str (string s) = some s
as_str _ = none

abbrev as_bool : Value → Option Bool
as_bool (bool b) = some b
as_bool _ = none

abbrev as_u64 : Value → Option ℕ
as_u64 (number n) = some n
as_u64 _ = none

abbrev as_i64 : Value → Option ℤ
as_i64 (number n) = some (pos n)
as_i64 _ = none

abbrev as_array : Value → Option (List Value)
as_array (array vs) = some (to_list vs)
as_array _ = none

-- Reading from a table of texts.
abbrev read : List (String × Value) → String → Outcome Value
read [] s = err "expected value at line 1 column 1"
read ((t, v) ∷ rest) s = if t == s then ok v else read rest s

abbrev pub json_with : List (String × Value) → Json
json_with texts = record {
  Value = Value;
  null = null;
  bool = bool;
  number = number;
  string = string;
  array = λ vs. array (from_list vs);
  object = λ fs. object (from_fields fs);
  get = get;
  set = set;
  as_str = as_str;
  as_bool = as_bool;
  as_u64 = as_u64;
  as_i64 = as_i64;
  as_array = as_array;
  from_str = read texts;
  to_string = λ v. "{}";
}

pub json_with-IsLawful : (texts : List (String × Value)) → IsLawful (json_with texts)
json_with-IsLawful texts = record {
  get-object = λ fs k. ap (field k) (to_fields-from_fields fs);
  get-set = get-set;
  as_str-string = λ s. refl;
  as_array-array = λ vs. ap some (to_list-from_list vs);
  as_u64-number = λ n. refl;
}
