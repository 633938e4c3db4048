-- ===== src/Common/FilePath.antt =====
-- `PurePath(text).name` and `.suffix` of pathlib, for POSIX paths, and `lower` of a suffix.
use Prim.Native.Nat.{◌+◌}
use mathlib.Core.Path.{◌≡◌, refl}
use mathlib.Core.Bool.{◌&&◌, ◌||◌}
use mathlib.Core.List.{List, [], ◌∷◌, ◌++◌}
use ai_agent_hub.Common.Tests.{leb, ◌==◌, nat_eq, text_eq, if◌then◌else◌}
use ai_agent_hub.Common.Lists.{is_empty}
use ai_agent_hub.Common.Text.{Text, codes}

-- The parts between slashes that are neither empty nor a dot; `part` is the one that is being read.
abbrev pub keep_part : Text → List Text → List Text
keep_part part rest = if is_empty part || (part == codes ".") then rest else part ∷ rest

unfoldable pub parts_from : Text → Text → List Text
parts_from part [] = keep_part part []
parts_from part (c ∷ cs) =
    let ended = keep_part part (parts_from [] cs) in
    let longer = parts_from (part ++ c ∷ []) cs in if c == b'/' then ended else longer

abbrev pub last_or_empty : List Text → Text
last_or_empty [] = []
last_or_empty (x ∷ []) = x
last_or_empty (x ∷ y ∷ xs) = last_or_empty (y ∷ xs)

unfoldable pub name_of : Text → Text
unfolding parts_from
name_of path = last_or_empty (parts_from [] path)

-- The part of a name from its last dot on, where there is one.
unfoldable pub from_last_dot : Text → Text
from_last_dot [] = []
from_last_dot (c ∷ cs) =
    let rest = from_last_dot cs in if is_empty rest && (c == b'.') then c ∷ cs else rest

-- A dot that starts or ends the name starts no suffix.
abbrev pub proper_suffix : Text → Text
proper_suffix (c ∷ []) = []
proper_suffix s = s

unfoldable pub suffix_of_name : Text → Text
unfolding from_last_dot
suffix_of_name [] = []
suffix_of_name (c ∷ cs) = proper_suffix (from_last_dot cs)

unfoldable pub suffix_of : Text → Text
unfolding name_of suffix_of_name
suffix_of path = suffix_of_name (name_of path)

-- `lower`, as far as the letters of an ASCII text go: A to Z and the Kelvin sign are the characters
-- whose lower case is an ASCII letter. What other characters become is no ASCII letter.
unfoldable pub lower : Text → Text
lower [] = []
lower (c ∷ cs) =
    (if leb b'A' c && leb c b'Z' then c + 32 else if c == 0x212a then b'k' else c) ∷ lower cs

suffix_of_path : lower (suffix_of (codes "a.b/Report.v1.PDF")) ≡ codes ".pdf"
unfolding suffix_of lower
suffix_of_path = refl

hidden_has_no_suffix : suffix_of (codes "/x/.md") ≡ []
unfolding suffix_of
hidden_has_no_suffix = refl

trailing_dot : suffix_of (codes "x.md.") ≡ []
unfolding suffix_of
trailing_dot = refl

name_of_path : name_of (codes "../up/./notes.txt/") ≡ codes "notes.txt"
unfolding name_of
name_of_path = refl
