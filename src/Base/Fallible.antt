-- ===== src/Base/Fallible.antt =====
-- `anyhow::Result`: a value, or an error with its message.
use Prim.Native.String.{String}
use mathlib.Core.Path.{◌≡◌, refl}
use mathlib.Core.Option.{Option, none, some}

pub data Outcome {ℓ} (A : Type ℓ) : Type ℓ where
  ok : A → Outcome A
  err : String → Outcome A

-- `?`: the rest of a block runs on a value, and an error ends the block.
module _ {ℓ κ} {X : Type ℓ} {Y : Type κ} where
  infixl 5 ◌>>=◌
  abbrev pub ◌>>=◌ : Outcome X → (X → Outcome Y) → Outcome Y
  err message >>= rest = err message
  ok x >>= rest = rest x

-- `ok_or_else` with its message
abbrev pub ok_or {ℓ} : {A : Type ℓ} → Option A → String → Outcome A
ok_or none e = err e
ok_or (some a) e = ok a

-- `unwrap_or`
abbrev pub unwrap_or {ℓ} : {A : Type ℓ} → Option A → A → A
unwrap_or none d = d
unwrap_or (some a) d = a

pub ok_inj {ℓ} : {A : Type ℓ} (a b : A) → ok a ≡ ok b → a ≡ b
ok_inj a b h = cc

-- A block that returned a value had one from its first action.
pub bind-ok {ℓ κ} :
    {X : Type ℓ} {Y : Type κ} (o : Outcome X) (f : X → Outcome Y) (y : Y)
    → (o >>= f) ≡ ok y
    → (x : X) × (o ≡ ok x) × (f x ≡ ok y)
bind-ok (ok x) f y h = (x, refl, h)
bind-ok (err e) f y h = cc
