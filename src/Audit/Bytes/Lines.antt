-- ===== src/Audit/Bytes/Lines.antt =====
-- Lines of a text that is built line by line.
use Prim.Native.Char.{Char, code}
use Prim.Native.String.{◌++◌ as text_append}
use text.Mathlib.TextLemmas.{nil-append, cons-append, cons-ne-nil}
use secretagent_rust_agent.Base.{String, ◌≡◌, refl, ap, ◌≢◌, List, [], ◌∷◌, ◌++◌, arith, format}
use secretagent_rust_agent.Audit.Bytes.{lines, cons_head}

-- No line end within.
abbrev pub IsLine : String → Type 0
IsLine String.[] = Unit
IsLine (String.◌∷◌ c s) = (code c ≢ 10) × (code c ≢ 13) × IsLine s

-- Empty, or ending in a line end.
abbrev pub IsTerminated : String → Type 0
IsTerminated String.[] = Unit
IsTerminated (String.◌∷◌ c String.[]) = code c ≡ 10
IsTerminated (String.◌∷◌ c (String.◌∷◌ d s)) = IsTerminated (String.◌∷◌ d s)

unfoldable pub line_of : String → String
line_of s = format (s ∷ "\n" ∷ [])

pub lines-line_of : (s : String) → IsLine s → lines (line_of s) ≡ s ∷ []
unfolding lines line_of
lines-line_of String.[] h = refl
lines-line_of (String.◌∷◌ c s) h = rw cons-append (ground (arith, lines-line_of s h.2))

-- A text with no line end in it and no line end behind it is one line, unless it is empty.
pub lines_of_IsLine : (s : String) → IsLine s → s ≢ "" → lines s ≡ s ∷ []
unfolding lines
lines_of_IsLine String.[] h n = absurd (n refl)
lines_of_IsLine (String.◌∷◌ c String.[]) h n = ground arith
lines_of_IsLine (String.◌∷◌ c (String.◌∷◌ d s)) h n =
    ground (arith, lines_of_IsLine (String.◌∷◌ d s) h.2 (cons-ne-nil d s))

cons_head-append :
    (c : Char) (xs ys : List String) → xs ≢ [] → cons_head c (xs ++ ys) ≡ cons_head c xs ++ ys
cons_head-append c [] ys h = absurd (h refl)
cons_head-append c (x ∷ xs) ys h = refl

lines-ne-nil : (c : Char) (s : String) → lines (String.◌∷◌ c s) ≢ []
unfolding lines
lines-ne-nil c String.[] = ground arith
lines-ne-nil c (String.◌∷◌ d s) = ground (arith, lines-ne-nil d s)

-- Text behind complete lines adds its own lines.
pub lines-append : (s t : String) → IsTerminated s → lines (text_append s t) ≡ lines s ++ lines t
unfolding lines
lines-append String.[] t h = ap lines (nil-append t)
lines-append (String.◌∷◌ c String.[]) t h = rw cons-append (rw nil-append (ground arith))
lines-append (String.◌∷◌ c (String.◌∷◌ d s)) t h = rw (cons-append c (String.◌∷◌ d s) t) (
    ground (
      arith,
      lines-append (String.◌∷◌ d s) t h,
      cons_head-append c (lines (String.◌∷◌ d s)) (lines t) (lines-ne-nil d s),
      cons-append d s t,
    ))

IsTerminated-step :
    (c d : Char) (s t : String)
    → IsTerminated (text_append (String.◌∷◌ d s) t)
    → IsTerminated (text_append (String.◌∷◌ c (String.◌∷◌ d s)) t)
IsTerminated-step c d s t h =
    rw (cons-append c (String.◌∷◌ d s) t) (rw (cons-append d s t) (rw (cons-append d s t) at h))

pub append-IsTerminated :
    (s t : String) → IsTerminated s → IsTerminated t → IsTerminated (text_append s t)
append-IsTerminated String.[] t h k = rw nil-append k
append-IsTerminated (String.◌∷◌ c String.[]) String.[] h k = rw (cons-append c "" "") h
append-IsTerminated (String.◌∷◌ c String.[]) (String.◌∷◌ d t) h k =
    rw (cons-append c "" (String.◌∷◌ d t)) (rw (nil-append (String.◌∷◌ d t)) k)
append-IsTerminated (String.◌∷◌ c (String.◌∷◌ d s)) t h k =
    IsTerminated-step c d s t (append-IsTerminated (String.◌∷◌ d s) t h k)

pub line_of-IsTerminated : (s : String) → IsTerminated (line_of s)
unfolding line_of
line_of-IsTerminated String.[] = refl
line_of-IsTerminated (String.◌∷◌ c String.[]) = rw cons-append refl
line_of-IsTerminated (String.◌∷◌ c (String.◌∷◌ d s)) =
    IsTerminated-step c d s "\n" (line_of-IsTerminated (String.◌∷◌ d s))
