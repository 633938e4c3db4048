-- ===== src/Common/Tests.antt =====
-- Boolean tests, and the equality tests that the program writes `==`.
use Prim.Native.Nat.{ℕ, ◌≤◌, ◌<◌, compare, Ordering}
use Prim.Native.String.{String}
use mathlib.Core.Path.{◌≡◌, refl, ap₂}
use mathlib.Core.Logic.{◌↔◌, ◌⊎◌, inl, inr}
use mathlib.Core.Bool.{Bool, true, false, ◌&&◌}
use mathlib.Core.Option.{Option, none, some}
use mathlib.Core.List.{List, [], ◌∷◌}
use native.Mathlib.Omega.{arith}
use text.Mathlib.Text.{◌==◌ as str_eq}
use text.Mathlib.TextEquality.{eq_iff}

abbrev pub ltb : ℕ → ℕ → Bool
ltb a b = elim (compare a b) [ Ordering.lt ↦ true | _ ↦ false ]

abbrev pub leb : ℕ → ℕ → Bool
leb a b = elim (compare a b) [ Ordering.gt ↦ false | _ ↦ true ]

abbrev pub nat_beq : ℕ → ℕ → Bool
nat_beq a b = elim (compare a b) [ Ordering.eq ↦ true | _ ↦ false ]

infix 1 if◌then◌else◌
abbrev pub if◌then◌else◌ {ℓ} : {A : Type ℓ} → Bool → A → A → A
if true then x else y = x
if false then x else y = y

pub Bool-cases : (b : Bool) → (b ≡ true) ⊎ (b ≡ false)
Bool-cases true = inl refl
Bool-cases false = inr refl

pub ltb→lt : (a b : ℕ) → ltb a b ≡ true → a < b
ltb→lt a b h = ground arith

pub lt→ltb : (a b : ℕ) → a < b → ltb a b ≡ true
lt→ltb a b h = ground arith

pub leb→le : (a b : ℕ) → leb a b ≡ true → a ≤ b
leb→le a b h = ground arith

pub le→leb : (a b : ℕ) → a ≤ b → leb a b ≡ true
le→leb a b h = ground arith

pub nat_beq_iff : (a b : ℕ) → (nat_beq a b ≡ true) ↔ (a ≡ b)
nat_beq_iff a b = (λ h. ground arith, λ h. ground arith)

abbrev pub text_beq : List ℕ → List ℕ → Bool
text_beq [] [] = true
text_beq [] (y ∷ ys) = false
text_beq (x ∷ xs) [] = false
text_beq (x ∷ xs) (y ∷ ys) = nat_beq x y && text_beq xs ys

text_beq-eq : (a b : List ℕ) → text_beq a b ≡ true → a ≡ b
text_beq-eq [] [] h = refl
text_beq-eq [] (y ∷ ys) h = cc
text_beq-eq (x ∷ xs) [] h = cc
text_beq-eq (x ∷ xs) (y ∷ ys) h = ap₂ (◌∷◌) (ground arith) (text_beq-eq xs ys (ground arith))

text_beq_refl : (a : List ℕ) → text_beq a a ≡ true
text_beq_refl [] = refl
text_beq_refl (x ∷ xs) = ground (arith, text_beq_refl xs)

pub text_beq_iff : (a b : List ℕ) → (text_beq a b ≡ true) ↔ (a ≡ b)
text_beq_iff a b = (text_beq-eq a b, λ e. rw e (text_beq_refl b))

-- A type with the Boolean test that Python's `__eq__` gives it; the test decides equality.
pub record Comparable {ℓ} (A : Type ℓ) : Type ℓ where
  pub equals : A → A → Bool
  pub equals_iff : {x y : A} → (equals x y ≡ true) ↔ (x ≡ y)

module _ {ℓ} {A : Type ℓ} ⦃c : Comparable A⦄ where
  infix 50 ◌==◌
  abbrev pub ◌==◌ : A → A → Bool
  x == y = c.equals x y

  pub ==_refl : (x : A) → (x == x) ≡ true
  ==_refl x = c.equals_iff.1 refl

  pub ==-eq : (x y : A) → (x == y) ≡ true → x ≡ y
  ==-eq x y h = c.equals_iff.0 h

  pub ==_false_sym : (x y : A) → (x == y) ≡ false → (y == x) ≡ false
  ==_false_sym x y h = elim (Bool-cases (y == x)) [
    | inr other ↦ other
    | inl same ↦ cc (==-eq y x same, ==_refl x)
  ]

-- Code points and counts, keys, texts.
instance abbrev pub nat_eq : Comparable ℕ
nat_eq = record { equals = nat_beq; equals_iff = λ {x} {y}. nat_beq_iff x y }

instance abbrev pub string_eq : Comparable String
string_eq = record { equals = str_eq; equals_iff = λ {x} {y}. eq_iff x y }

instance abbrev pub text_eq : Comparable (List ℕ)
text_eq = record { equals = text_beq; equals_iff = λ {x} {y}. text_beq_iff x y }

abbrev pub option_beq {ℓ} : {A : Type ℓ} ⦃e : Comparable A⦄ → Option A → Option A → Bool
option_beq none none = true
option_beq none (some y) = false
option_beq (some x) none = false
option_beq (some x) (some y) = x == y

pub option_beq_iff {ℓ} :
    {A : Type ℓ} ⦃e : Comparable A⦄ (a b : Option A) → (option_beq a b ≡ true) ↔ (a ≡ b)
option_beq_iff none none = (λ h. refl, λ h. refl)
option_beq_iff none (some y) = (λ h. cc, λ h. cc)
option_beq_iff (some x) none = (λ h. cc, λ h. cc)
option_beq_iff ⦃e⦄ (some x) (some y) = (λ h. cc (e.equals_iff.0 h), λ h. e.equals_iff.1 (cc h))

instance abbrev pub option_eq {ℓ} : {A : Type ℓ} ⦃e : Comparable A⦄ → Comparable (Option A)
option_eq = record { equals = option_beq; equals_iff = λ {x} {y}. option_beq_iff x y }

pub ruleset tests = (arith, ltb→lt, lt→ltb, leb→le, le→leb)
