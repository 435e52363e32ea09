-- ===== src/Base/Texts.antt =====
-- The operations on texts of the source: `strip_prefix`, `split_once` and `contains` of a character.
use Prim.Native.Char.{Char, code}
use Prim.Native.Nat.{ℕ}
use Prim.Native.String.{String}
use mathlib.Core.Bool.{Bool, false, ◌||◌}
use mathlib.Core.Option.{Option, none, some}
use agent_scale.Base.Tests.{eqb, if◌then◌else◌}

-- Characters are compared by their codes.
abbrev pub is_code : ℕ → Char → Bool
is_code n c = eqb (code c) n

unfoldable pub strip_prefix : String → String → Option String
strip_prefix String.[] s = some s
strip_prefix (String.◌∷◌ c p) String.[] = none
strip_prefix (String.◌∷◌ c p) (String.◌∷◌ d s) =
    let rest = strip_prefix p s in if is_code (code c) d then rest else none

unfoldable pub split_once : ℕ → String → Option (String × String)
split_once n String.[] = none
split_once n (String.◌∷◌ c s) =
    let later : Option (String × String) = elim (split_once n s) [
      | none ↦ none
      | some (before, after) ↦ some (String.◌∷◌ c before, after)
    ] in
    if is_code n c then some ("", s) else later

unfoldable pub contains : ℕ → String → Bool
contains n String.[] = false
contains n (String.◌∷◌ c s) = is_code n c || contains n s
