-- ===== src/Common/Strings.antt =====
-- `str.strip`, `str.join` and the order of strings.
use Prim.Native.Char.{code}
use Prim.Native.String.{String, ◌++◌, compare}
use Prim.Native.Nat.{ℕ, suc, Ordering}
use mathlib.Core.Path.{◌≡◌, refl}
use mathlib.Core.Bool.{Bool, true, false, ◌&&◌}
use mathlib.Core.List.{List, [], ◌∷◌}
use ai_agent_hub.Common.Tests.{if◌then◌else◌}
use ai_agent_hub.Common.Text.{is_space}

abbrev pub string_empty : String → Bool
string_empty String.[] = true
string_empty (String.◌∷◌ c s) = false

unfoldable pub trim_left : String → String
unfolding is_space
trim_left String.[] = ""
trim_left (String.◌∷◌ c s) =
    let rest = trim_left s in if is_space (code c) then rest else String.◌∷◌ c s

unfoldable pub trim_right : String → String
unfolding is_space
trim_right String.[] = ""
trim_right (String.◌∷◌ c s) =
    let rest = trim_right s in
    if is_space (code c) && string_empty rest then "" else String.◌∷◌ c rest

-- `s.strip()`
unfoldable pub trim : String → String
unfolding trim_left trim_right
trim s = trim_right (trim_left s)

-- `sep.join(parts)`
unfoldable pub join_strings : String → List String → String
join_strings sep [] = ""
join_strings sep (x ∷ []) = x
join_strings sep (x ∷ y ∷ rest) = x ++ (sep ++ join_strings sep (y ∷ rest))

-- `s <= t`
abbrev pub string_leb : String → String → Bool
string_leb s t = elim (compare s t) [ Ordering.gt ↦ false | _ ↦ true ]

trim_inner : trim " \ta b\n" ≡ "a b"
unfolding trim
trim_inner = refl

join_three : join_strings ", " ("x" ∷ "y" ∷ "z" ∷ []) ≡ "x, y, z"
unfolding join_strings
join_three = refl

-- `len(s)`
abbrev pub string_length : String → ℕ
string_length String.[] = 0
string_length (String.◌∷◌ c s) = suc (string_length s)
