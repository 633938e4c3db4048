-- ===== src/Common/Text.antt =====
-- Text whose characters the program looks at: a list of code points.
use Prim.Native.Nat.{ℕ, zero, suc, ◌+◌, ◌/◌, ◌%◌}
use Prim.Native.Char.{code}
use Prim.Native.String.{String}
use mathlib.Core.Path.{◌≡◌, refl}
use mathlib.Core.Bool.{Bool, ◌&&◌, ◌||◌}
use mathlib.Core.List.{List, [], ◌∷◌, ◌++◌, reverse}
use ai_agent_hub.Common.Tests.{leb, ◌==◌, if◌then◌else◌, nat_eq}
use ai_agent_hub.Common.Lists.{is_empty}

abbrev pub Text : Type 0
Text = List ℕ

abbrev pub codes : String → Text
codes String.[] = []
codes (String.◌∷◌ c s) = code c ∷ codes s

-- The characters that `str.isspace` accepts, which are those that `str.strip` removes.
unfoldable pub is_space : ℕ → Bool
is_space c =
    (leb 9 c && leb c 13)
    || (leb 28 c && leb c 32)
    || (c == 0x85)
    || (c == 0xa0)
    || (c == 0x1680)
    || (leb 0x2000 c && leb c 0x200a)
    || (c == 0x2028)
    || (c == 0x2029)
    || (c == 0x202f)
    || (c == 0x205f)
    || (c == 0x3000)

-- Drops the longest prefix of characters that pass the test.
unfoldable pub drop_while {ℓ} : {A : Type ℓ} → (A → Bool) → List A → List A
drop_while p [] = []
drop_while p (x ∷ xs) = let rest = drop_while p xs in if p x then rest else x ∷ xs

unfoldable pub lstrip : Text → Text
unfolding drop_while is_space
lstrip s = drop_while is_space s

unfoldable pub rstrip : Text → Text
unfolding drop_while is_space
rstrip s = reverse (drop_while is_space (reverse s))

unfoldable pub strip : Text → Text
unfolding lstrip rstrip
strip s = rstrip (lstrip s)

-- `not s.strip()`
unfoldable pub is_blank : Text → Bool
unfolding strip
is_blank s = is_empty (strip s)

-- `sep.join(parts)`
unfoldable pub join : Text → List Text → Text
join sep [] = []
join sep (x ∷ []) = x
join sep (x ∷ y ∷ rest) = x ++ (sep ++ join sep (y ∷ rest))

-- `str(n)`, on fuel: a number has fewer digits than its value and one.
unfoldable pub decimal_fuel : ℕ → ℕ → Text
decimal_fuel zero n = []
decimal_fuel (suc f) n =
    let rest = decimal_fuel f (n / 10) in
    if leb n 9 then (48 + n) ∷ [] else rest ++ (48 + n % 10) ∷ []

unfoldable pub decimal : ℕ → Text
unfolding decimal_fuel
decimal n = decimal_fuel (suc n) n

decimal-1024 : decimal 1024 ≡ codes "1024"
unfolding decimal
decimal-1024 = refl

strip_both : strip (codes "  a b\n") ≡ codes "a b"
unfolding strip
strip_both = refl
