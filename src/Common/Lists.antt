-- ===== src/Common/Lists.antt =====
-- Lists measured and cut by native numbers, under the library's names.
use Prim.Native.Nat.{ℕ, zero, suc, ◌+◌, ◌-◌, ◌≤◌, min}
use mathlib.Core.Path.{◌≡◌, refl, ap, sym, ◌∙◌}
use mathlib.Core.Logic.{◌⊎◌, inl, inr}
use mathlib.Core.Bool.{Bool, true, false, ◌||◌}
use mathlib.Core.List.{List, [], ◌∷◌, map, ◌++◌, reverse, reverse-cons}
use mathlib.Core.Option.{Option, none, some}
use native.Mathlib.Omega.{arith}
use ai_agent_hub.Common.Tests.{Comparable, ◌==◌, if◌then◌else◌, Bool-cases}

module _ {ℓ} {A : Type ℓ} where
  abbrev pub length : List A → ℕ
  length [] = 0
  length (x ∷ xs) = suc (length xs)

  abbrev pub get_elem? : List A → ℕ → Option A
  get_elem? [] i = none
  get_elem? (x ∷ xs) zero = some x
  get_elem? (x ∷ xs) (suc i) = get_elem? xs i

  abbrev pub take : ℕ → List A → List A
  take zero xs = []
  take (suc n) [] = []
  take (suc n) (x ∷ xs) = x ∷ take n xs

  abbrev pub drop : ℕ → List A → List A
  drop zero xs = xs
  drop (suc n) [] = []
  drop (suc n) (x ∷ xs) = drop n xs

  -- `xs[i:j]`
  abbrev pub slice : ℕ → ℕ → List A → List A
  slice i j xs = take (j - i) (drop i xs)

  -- `xs[-n:]` for a positive `n`
  abbrev pub take_last : ℕ → List A → List A
  take_last n xs = drop (length xs - n) xs

  abbrev pub is_empty : List A → Bool
  is_empty [] = true
  is_empty (x ∷ xs) = false

  pub length-append : (xs ys : List A) → length (xs ++ ys) ≡ length xs + length ys
  length-append [] ys = omega arith
  length-append (x ∷ xs) ys = omega (arith, length-append xs ys)

module _ {ℓ} {A : Type ℓ} where
  pub take-append-drop : (n : ℕ) (xs : List A) → take n xs ++ drop n xs ≡ xs
  take-append-drop zero xs = refl
  take-append-drop (suc n) [] = refl
  take-append-drop (suc n) (x ∷ xs) = ap (◌∷◌ x) (take-append-drop n xs)

  pub length-take : (n : ℕ) (xs : List A) → length (take n xs) ≡ min n (length xs)
  length-take zero xs = omega arith
  length-take (suc n) [] = omega arith
  length-take (suc n) (x ∷ xs) = omega (arith, length-take n xs)

  pub length-drop : (n : ℕ) (xs : List A) → length (drop n xs) ≡ length xs - n
  length-drop zero xs = omega arith
  length-drop (suc n) [] = omega arith
  length-drop (suc n) (x ∷ xs) = omega (arith, length-drop n xs)

  pub drop-nil : (n : ℕ) → drop {A = A} n [] ≡ []
  drop-nil zero = refl
  drop-nil (suc n) = refl

  pub drop-drop : (m n : ℕ) (xs : List A) → drop m (drop n xs) ≡ drop (n + m) xs
  drop-drop m zero xs = ap (λ k. drop k xs) (omega arith)
  drop-drop m (suc n) [] = drop-nil m ∙ sym (drop-nil (suc n + m))
  drop-drop m (suc n) (x ∷ xs) =
      drop-drop m n xs ∙ ap (λ k. drop k (x ∷ xs)) {x = suc (n + m)} (omega arith)

  pub take_all : (n : ℕ) (xs : List A) → length xs ≤ n → take n xs ≡ xs
  take_all zero [] h = refl
  take_all zero (x ∷ xs) h = absurd (omega arith)
  take_all (suc n) [] h = refl
  take_all (suc n) (x ∷ xs) h = ap (◌∷◌ x) (take_all n xs (omega arith))

module _ {ℓ} {A : Type ℓ} where
  pub drop-take : (o k : ℕ) (xs : List A) → drop o (take k xs) ≡ take (k - o) (drop o xs)
  drop-take zero k xs = ap (λ j. take j xs) (omega arith)
  drop-take (suc o) zero xs = ap (λ j. take j (drop (suc o) xs)) {x = 0} (omega arith)
  drop-take (suc o) (suc k) [] = sym (take-nil (suc k - suc o))
    where
      take-nil : (n : ℕ) → take {A = A} n [] ≡ []
      take-nil zero = refl
      take-nil (suc n) = refl
  drop-take (suc o) (suc k) (x ∷ xs) = drop-take o k xs ∙ ap (λ j. take j (drop o xs)) (omega arith)

  -- Adjacent slices join.
  pub slice-append-drop : (i j : ℕ) (xs : List A) → i ≤ j → slice i j xs ++ drop j xs ≡ drop i xs
  slice-append-drop i j xs h =
      let e : i + (j - i) ≡ j = omega arith in
      ap (λ k. slice i j xs ++ drop k xs) (sym e)
      ∙ ap (λ l. slice i j xs ++ l) (sym (drop-drop (j - i) i xs))
      ∙ take-append-drop (j - i) (drop i xs)

  pub length-slice : (i j : ℕ) (xs : List A) → i ≤ j → j ≤ length xs → length (slice i j xs) ≡ j - i
  length-slice i j xs h k = omega (arith, length-take (j - i) (drop i xs), length-drop i xs)

module _ {ℓ} {A : Type ℓ} where
  pub drop_all : (n : ℕ) (xs : List A) → length xs ≤ n → drop n xs ≡ []
  drop_all n [] h = drop-nil n
  drop_all zero (x ∷ xs) h = absurd (omega arith)
  drop_all (suc n) (x ∷ xs) h = drop_all n xs (omega arith)

  pub empty_cases :
      (xs : List A)
      → (is_empty xs ≡ true) × (xs ≡ []) ⊎ (is_empty xs ≡ false) × (length xs ≡ suc (length xs - 1))
  empty_cases [] = inl (refl, refl)
  empty_cases (x ∷ xs) = inr (refl, omega arith)

  pub drop-append_length : (xs ys : List A) → drop (length xs) (xs ++ ys) ≡ ys
  drop-append_length [] ys = refl
  drop-append_length (x ∷ xs) ys = drop-append_length xs ys

  pub drop-append_le :
      (n : ℕ) (xs ys : List A) → n ≤ length xs → drop n (xs ++ ys) ≡ drop n xs ++ ys
  drop-append_le zero xs ys h = refl
  drop-append_le (suc n) [] ys h = absurd (omega arith)
  drop-append_le (suc n) (x ∷ xs) ys h = drop-append_le n xs ys (omega arith)

  pub length-reverse : (xs : List A) → length (reverse xs) ≡ length xs
  length-reverse [] = refl
  length-reverse (x ∷ xs) =
      rw reverse-cons (omega (arith, length-append (reverse xs) (x ∷ []), length-reverse xs))

  pub drop-slice-append_drop :
      (o i j : ℕ) (xs : List A) → i + o ≤ j → drop o (slice i j xs) ++ drop j xs ≡ drop (i + o) xs
  drop-slice-append_drop o i j xs h =
      let e : j - i - o ≡ j - (i + o) = omega arith in
      rw (drop-take o (j - i) (drop i xs), drop-drop o i xs, e) (slice-append-drop (i + o) j xs h)

-- Every entry has the property.
abbrev pub All {ℓ κ} : {A : Type ℓ} → (A → Type κ) → List A → Type κ
All holds [] = Unit
All holds (entry ∷ others) = holds entry × All holds others

module _ {ℓ κ} {A : Type ℓ} (holds : A → Type κ) where
  pub All-append :
      (front back : List A) → All holds front → All holds back → All holds (front ++ back)
  All-append [] back before after = after
  All-append (entry ∷ others) back before after = (before.0, All-append others back before.1 after)

module _ {ℓ} {A : Type ℓ} where
  -- The first entry that passes a test, and the list with that entry changed.
  unfoldable pub find : (A → Bool) → List A → Option A
  find test [] = none
  find test (x ∷ xs) = if test x then some x else find test xs

  unfoldable pub change : (A → Bool) → (A → A) → List A → List A
  change test f [] = []
  change test f (x ∷ xs) = if test x then f x ∷ xs else x ∷ change test f xs

  unfoldable pub filter : (A → Bool) → List A → List A
  filter test [] = []
  filter test (x ∷ xs) = let rest = filter test xs in if test x then x ∷ rest else rest

-- `x in xs`
abbrev pub contains {ℓ} : {A : Type ℓ} ⦃e : Comparable A⦄ → A → List A → Bool
contains a [] = false
contains a (x ∷ xs) = (x == a) || contains a xs

module _ {ℓ κ μ} {A : Type ℓ} {P : A → Type κ} {Q : A → Type μ} where
  pub All-map : (f : (x : A) → P x → Q x) (xs : List A) → All P xs → All Q xs
  All-map f [] h = tt
  All-map f (x ∷ xs) h = (f x h.0, All-map f xs h.1)

module _ {ℓ κ} {A : Type ℓ} (P : A → Type κ) where
  pub All-take : (n : ℕ) (xs : List A) → All P xs → All P (take n xs)
  All-take zero xs h = tt
  All-take (suc n) [] h = tt
  All-take (suc n) (x ∷ xs) h = (h.0, All-take n xs h.1)

-- A change that keeps the test is what the test then finds.
pub find-change {ℓ} :
    {A : Type ℓ} (test : A → Bool) (f : A → A) (xs : List A) (x : A)
    → find test xs ≡ some x
    → test (f x) ≡ true
    → find test (change test f xs) ≡ some (f x)
unfolding find change
find-change test f [] x h k = absurd (cc)
find-change test f (y ∷ ys) x h k = elim (Bool-cases (test y)) [
  | inl here ↦
      (let same : y ≡ x = (let one : some y ≡ some x = sym (rw here refl) ∙ h in cc) in
        rw (here, same, k) refl)
  | inr there ↦ rw (there, there) (find-change test f ys x (sym (rw there refl) ∙ h) k)
]

-- What is found passes the test.
pub find-passes {ℓ} :
    {A : Type ℓ} (test : A → Bool) (xs : List A) (x : A) → find test xs ≡ some x → test x ≡ true
unfolding find
find-passes test [] x h = absurd (cc)
find-passes test (y ∷ ys) x h = elim (Bool-cases (test y)) [
  | inl here ↦
      (let same : y ≡ x = (let one : some y ≡ some x = sym (rw here refl) ∙ h in cc) in
        sym (ap test same) ∙ here)
  | inr there ↦ find-passes test ys x (sym (rw there refl) ∙ h)
]

pub All-over_map {ℓ κ μ} :
    {A : Type ℓ} {B : Type κ} (P : B → Type μ) (f : A → B) (xs : List A)
    → All (λ x. P (f x)) xs
    → All P (map f xs)
All-over_map P f [] h = tt
All-over_map P f (x ∷ xs) h = (h.0, All-over_map P f xs h.1)

pub length-map {ℓ κ} :
    {A : Type ℓ} {B : Type κ} (f : A → B) (xs : List A) → length (map f xs) ≡ length xs
length-map f [] = refl
length-map f (x ∷ xs) = ap suc (length-map f xs)
