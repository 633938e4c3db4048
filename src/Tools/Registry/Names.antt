-- ===== src/Tools/Registry/Names.antt =====
-- The sorted names of a registry: backend/app/tools/registry.py, `sorted(self._tools)`.
use ai_agent_hub.Common.{
  suc, ◌≡◌, refl, ap, ◌∙◌, String, Bool, true, false, ◌⊎◌, inl, inr, List, [], ◌∷◌, ◌||◌, ◌==◌,
  string_eq, if◌then◌else◌, Bool-cases, contains, length,
}
use ai_agent_hub.Common.Dict.{Dict, has}
use ai_agent_hub.Common.Strings.{string_leb}
use ai_agent_hub.Tools.Contracts.{Tool}
use ai_agent_hub.Tools.Registry.{insert_name, sorted_names}

-- Two neighbours in an order by code points.
abbrev Ascends : String → String → Type 0
Ascends x y = (string_leb x y ≡ true) ⊎ (string_leb y x ≡ false)

abbrev pub Ascending : List String → Type 0
Ascending [] = Unit
Ascending (x ∷ []) = Unit
Ascending (x ∷ y ∷ ys) = Ascends x y × Ascending (y ∷ ys)

Ascending-insert_name :
    (x : String) (names : List String) → Ascending names → Ascending (insert_name x names)
unfolding insert_name
Ascending-insert_name x [] h = tt
Ascending-insert_name x (y ∷ []) h = elim (Bool-cases (string_leb x y)) [
  | inl before ↦ rw before (inl before, tt)
  | inr after ↦ rw after (inr after, tt)
]
Ascending-insert_name x (y ∷ z ∷ zs) h = elim (Bool-cases (string_leb x y)) [
  | inl before ↦ rw before (inl before, h)
  | inr after ↦ rw after (behind (string_leb x z) after (Ascending-insert_name x (z ∷ zs) h.1))
]
  where
    behind :
        (b : Bool)
        → string_leb x y ≡ false
        → Ascending (if b then x ∷ z ∷ zs else z ∷ insert_name x zs)
        → Ascending (y ∷ (if b then x ∷ z ∷ zs else z ∷ insert_name x zs))
    behind true after rest = (inr after, rest)
    behind false after rest = (h.0, rest)

contains-insert_name :
    (name x : String) (names : List String)
    → contains name (insert_name x names) ≡ ((x == name) || contains name names)
unfolding insert_name
contains-insert_name name x [] = refl
contains-insert_name name x (y ∷ ys) = elim (Bool-cases (string_leb x y)) [
  | inl before ↦ rw before refl
  | inr after ↦ rw after (
      ap (λ b. (y == name) || b) (contains-insert_name name x ys)
      ∙ swap (y == name) (x == name) (contains name ys))
]
  where
    swap : (a b c : Bool) → (a || (b || c)) ≡ (b || (a || c))
    swap true true c = refl
    swap true false c = refl
    swap false b c = refl

length-insert_name :
    (x : String) (names : List String) → length (insert_name x names) ≡ suc (length names)
unfolding insert_name
length-insert_name x [] = refl
length-insert_name x (y ∷ ys) = elim (Bool-cases (string_leb x y)) [
  | inl before ↦ rw before refl
  | inr after ↦ rw after (ap suc (length-insert_name x ys))
]

-- The names in ascending order that are those of the entries of a registry.
pub record Names {V : Type 0} (tools : Dict V) (names : List String) : Type 0 where
  pub ascending : Ascending names
  pub keys : (name : String) → contains name names ≡ has tools name
  pub count : length names ≡ length tools

module _ {V : Type 0} where
  pub sorted_names-Names : (tools : Dict (Tool V)) → Names tools (sorted_names tools)
  unfolding sorted_names has
  sorted_names-Names [] = record { ascending = tt; keys = λ name. refl; count = refl }
  sorted_names-Names ((key, tool) ∷ tools) =
      let rest = sorted_names-Names tools in
      record {
        ascending = Ascending-insert_name key (sorted_names tools) rest.ascending;
        keys = λ name.
            contains-insert_name name key (sorted_names tools)
            ∙ ap (λ b. (key == name) || b) (rest.keys name)
            ∙ is_or (key == name) (has tools name);
        count = length-insert_name key (sorted_names tools) ∙ ap suc rest.count;
      }
    where
      is_or : (a b : Bool) → (a || b) ≡ (if a then true else b)
      is_or true b = refl
      is_or false b = refl
