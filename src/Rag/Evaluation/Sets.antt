-- ===== src/Rag/Evaluation/Sets.antt =====
-- The sets of an evaluation, as lists without repetitions.
use ai_agent_hub.Common.{
  suc, ◌≤◌, ◌≡◌, refl, ◌∙◌, Bool, true, false, not, ◌&&◌, inl, inr, List, [], ◌∷◌, ◌==◌, text_eq,
  filter, arith, length, contains, Bool-cases, All, ==_false_sym, ==-eq, subst,
}
use ai_agent_hub.Common.Text.{Text}
use ai_agent_hub.Rag.Evaluation.{distinct_from, distinct, common}

-- No text stands twice.
abbrev pub Differ : List Text → Type 0
Differ [] = Unit
Differ (x ∷ xs) = (contains x xs ≡ false) × Differ xs

abbrev Misses : List Text → List Text → Type 0
Misses seen xs = All (λ y. contains y seen ≡ false) xs

Misses-cons : (x : Text) (seen xs : List Text) → Misses (x ∷ seen) xs → Misses seen xs
Misses-cons x seen [] h = tt
Misses-cons x seen (y ∷ ys) h = (ground (arith, h.0), Misses-cons x seen ys h.1)

not_contained : (x : Text) (seen xs : List Text) → Misses (x ∷ seen) xs → contains x xs ≡ false
not_contained x seen [] h = refl
not_contained x seen (y ∷ ys) h =
    let other : (x == y) ≡ false = ground (arith, h.0) in
    rw (==_false_sym x y other) (not_contained x seen ys h.1)

Misses-distinct_from : (seen xs : List Text) → Misses seen (distinct_from seen xs)
unfolding distinct_from
Misses-distinct_from seen [] = tt
Misses-distinct_from seen (x ∷ xs) = elim (Bool-cases (contains x seen)) [
  | inl old ↦ rw old (Misses-distinct_from seen xs)
  | inr new ↦
      rw new
        (new, Misses-cons x seen (distinct_from (x ∷ seen) xs) (Misses-distinct_from (x ∷ seen) xs))
]

Differ-distinct_from : (seen xs : List Text) → Differ (distinct_from seen xs)
unfolding distinct_from
Differ-distinct_from seen [] = tt
Differ-distinct_from seen (x ∷ xs) = elim (Bool-cases (contains x seen)) [
  | inl old ↦ rw old (Differ-distinct_from seen xs)
  | inr new ↦ rw new (
    not_contained x seen (distinct_from (x ∷ seen) xs) (Misses-distinct_from (x ∷ seen) xs),
    Differ-distinct_from (x ∷ seen) xs,
  )
]

pub Differ-distinct : (xs : List Text) → Differ (distinct xs)
unfolding distinct
Differ-distinct xs = Differ-distinct_from [] xs

-- The others in a list.
abbrev without : Text → List Text → List Text
unfolding filter
without x ys = filter (λ y. not (x == y)) ys

length-without_le : (x : Text) (ys : List Text) → length (without x ys) ≤ length ys
unfolding without filter
length-without_le x [] = omega arith
length-without_le x (y ∷ ys) = elim (Bool-cases (x == y)) [
  | inl same ↦ rw same (omega (arith, length-without_le x ys))
  | inr other ↦ rw other (omega (arith, length-without_le x ys))
]

length-without :
    (x : Text) (ys : List Text) → contains x ys ≡ true → suc (length (without x ys)) ≤ length ys
unfolding without filter
length-without x [] h = cc
length-without x (y ∷ ys) h = elim (Bool-cases (x == y)) [
  | inl same ↦ rw same (omega (arith, length-without_le x ys))
  | inr other ↦
      let there : contains x ys ≡ true = (let h1 = rw (==_false_sym x y other) at h in h1) in
      rw other (omega (arith, length-without x ys there))
]

contains-without :
    (x z : Text) (ys : List Text)
    → (z == x) ≡ false
    → contains z ys ≡ true
    → contains z (without x ys) ≡ true
unfolding without filter
contains-without x z [] other h = cc
contains-without x z (y ∷ ys) other h = elim (Bool-cases (x == y)) [
  | inr kept ↦ rw kept (elim (Bool-cases (y == z)) [
    | inl here ↦ rw here refl
    | inr there ↦ let h1 = rw there at h in rw there (contains-without x z ys other h1)
  ])
  | inl gone ↦
      let same : x ≡ y = ==-eq x y gone in
      let apart : (y == z) ≡ false = subst (λ t. (t == z) ≡ false) same (==_false_sym z x other) in
      let h1 = rw apart at h in rw gone (contains-without x z ys other h1)
]

still_contained :
    (x : Text) (xs ys : List Text)
    → contains x xs ≡ false
    → All (λ z. contains z ys ≡ true) xs
    → All (λ z. contains z (without x ys) ≡ true) xs
still_contained x [] ys h inside = tt
still_contained x (z ∷ xs) ys h inside =
    let other : (z == x) ≡ false = ground (arith, h) in
    let rest : contains x xs ≡ false = ground (arith, h) in
    (contains-without x z ys other inside.0, still_contained x xs ys rest inside.1)

-- Different texts that all stand in a list are no more than its entries.
pigeonhole :
    (xs ys : List Text) → Differ xs → All (λ z. contains z ys ≡ true) xs → length xs ≤ length ys
pigeonhole [] ys d inside = omega arith
pigeonhole (x ∷ xs) ys d inside = omega (
  arith,
  length-without x ys inside.0,
  pigeonhole xs (without x ys) d.1 (still_contained x xs ys d.0 inside.1),
)

module _ (b : List Text) where
  abbrev shared : List Text → List Text
  unfolding filter
  shared a = filter (λ x. contains x b) a

  shared-inside : (a : List Text) → All (λ z. contains z b ≡ true) (shared a)
  unfolding shared filter
  shared-inside [] = tt
  shared-inside (x ∷ a) = elim (Bool-cases (contains x b)) [
    | inl yes_ ↦ rw yes_ (yes_, shared-inside a)
    | inr no_ ↦ rw no_ (shared-inside a)
  ]

  not_shared : (x : Text) (a : List Text) → contains x a ≡ false → contains x (shared a) ≡ false
  unfolding shared filter
  not_shared x [] h = refl
  not_shared x (y ∷ a) h =
      let other : (y == x) ≡ false = ground (arith, h) in
      let rest : contains x a ≡ false = ground (arith, h) in
      elim (Bool-cases (contains y b)) [
        | inl yes_ ↦ rw (yes_, other) (not_shared x a rest)
        | inr no_ ↦ rw no_ (not_shared x a rest)
      ]

  Differ-shared : (a : List Text) → Differ a → Differ (shared a)
  unfolding shared filter
  Differ-shared [] d = tt
  Differ-shared (x ∷ a) d = elim (Bool-cases (contains x b)) [
    | inl yes_ ↦ rw yes_ (not_shared x a d.0, Differ-shared a d.1)
    | inr no_ ↦ rw no_ (Differ-shared a d.1)
  ]

  length-shared : (a : List Text) → length (shared a) ≤ length a
  unfolding shared filter
  length-shared [] = omega arith
  length-shared (x ∷ a) = elim (Bool-cases (contains x b)) [
    | inl yes_ ↦ rw yes_ (omega (arith, length-shared a))
    | inr no_ ↦ rw no_ (omega (arith, length-shared a))
  ]

  -- The common part of two sets is no larger than either.
  common-le : (a : List Text) → Differ a → (common a b ≤ length a) × (common a b ≤ length b)
  unfolding common shared
  common-le a d = (length-shared a, pigeonhole (shared a) b (Differ-shared a d) (shared-inside a))

  contains-shared :
      (x : Text) (a : List Text) → contains x (shared a) ≡ (contains x a && contains x b)
  unfolding shared filter
  contains-shared x [] = refl
  contains-shared x (y ∷ a) = elim (Bool-cases (y == x)) [
    | inl same ↦
        let is_x : y ≡ x = ==-eq y x same in
        elim (Bool-cases (contains y b)) [
          | inl here ↦
              let there : contains x b ≡ true = subst (λ t. contains t b ≡ true) is_x here in
              rw (here, same, there) refl
          | inr gone ↦
              let none_there : contains x b ≡ false = subst (λ t. contains t b ≡ false) is_x gone in
              rw (gone, same, none_there)
                (contains-shared x a ∙ rw none_there (no_right (contains x a)))
        ]
    | inr other ↦ elim (Bool-cases (contains y b)) [
      | inl here ↦ rw (here, other) (contains-shared x a)
      | inr gone ↦ rw (gone, other) (contains-shared x a)
    ]
  ]
    where
      no_right : (c : Bool) → (c && false) ≡ false
      no_right true = refl
      no_right false = refl

-- The texts that two sets share, each once.
abbrev pub IsBoth : List Text → List Text → List Text → Type 0
IsBoth a b both = Differ both × ((x : Text) → contains x both ≡ (contains x a && contains x b))

-- What two sets share, counted by `common`.
pub record Overlap (a b : List Text) : Type 0 where
  pub both : List Text
  pub is_both : IsBoth a b both
  pub counted : common a b ≡ length both
  pub left : length both ≤ length a
  pub right : length both ≤ length b

pub common-Overlap : (a b : List Text) → Differ a → Overlap a b
unfolding common shared
common-Overlap a b d = record {
  both = shared b a;
  is_both = (Differ-shared b a d, λ x. contains-shared b x a);
  counted = refl;
  left = (common-le b a d).0;
  right = (common-le b a d).1;
}
