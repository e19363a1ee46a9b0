-- ===== src/Common/Cut.antt =====
-- `strings.Cut` at a dot, for texts made by joining.
use Prim.Native.Char.{Char, code}
use Prim.Native.String.{String}
use mathlib.Core.Path.{◌≡◌, refl}
use mathlib.Core.Bool.{Bool, true, false, ◌&&◌}
use mathlib.Core.Option.{Option, none, some}
use native.Mathlib.Omega.{arith}
use text.Mathlib.TextLemmas.{nil-append, cons-append}
use go_identity.Common.Tests.{not, eqb, if◌then◌else◌}
use go_identity.Common.Text.{text_append}

abbrev pub is_dot : Char → Bool
is_dot c = eqb (code c) 0x2E

abbrev longer_head : Char → Option (String × String) → Option (String × String)
longer_head c none = none
longer_head c (some (before, after)) = some (String.◌∷◌ c before, after)

-- `strings.Cut(s, ".")`; its `ok == false` is `none`.
unfoldable pub cut_dot : String → Option (String × String)
cut_dot String.[] = none
cut_dot (String.◌∷◌ c s) =
    let rest = longer_head c (cut_dot s) in if is_dot c then some ("", s) else rest

-- The text holds no dot.
abbrev pub NoDot : String → Type 0
NoDot String.[] = Unit
NoDot (String.◌∷◌ c s) = (is_dot c ≡ false) × NoDot s

-- Cutting gives back the part before the first dot and all that follows it.
pub cut_dot-append :
    (s t : String) → NoDot s → cut_dot (text_append s (text_append "." t)) ≡ some (s, t)
unfolding cut_dot
cut_dot-append String.[] t h = rw nil-append (rw cons-append (rw nil-append refl))
cut_dot-append (String.◌∷◌ c s) t (p, h) = rw cons-append (rw (p, cut_dot-append s t h) refl)

pub append-NoDot : (s t : String) → NoDot s → NoDot t → NoDot (text_append s t)
append-NoDot String.[] t h k = rw nil-append k
append-NoDot (String.◌∷◌ c s) t (p, h) k = rw cons-append (p, append-NoDot s t h k)

-- The same as a test.
abbrev no_dot : String → Bool
no_dot String.[] = true
no_dot (String.◌∷◌ c s) = not (is_dot c) && no_dot s

pub no_dot-NoDot : (s : String) → no_dot s ≡ true → NoDot s
no_dot-NoDot String.[] h = tt
no_dot-NoDot (String.◌∷◌ c s) h = (ground arith, no_dot-NoDot s (ground arith))
