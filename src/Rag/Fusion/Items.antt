-- ===== src/Rag/Fusion/Items.antt =====
-- The lists of a fusion: chunks and items with different ids.
use ai_agent_hub.Common.{
  ℕ, zero, suc, ◌≡◌, refl, sym, subst, ◌∙◌, Bool, true, false, ◌||◌, some, List, [], ◌∷◌, ◌==◌,
  text_eq, ==-eq, ==_false_sym, Bool-cases, inl, inr, All, All-map, All-take, contains, take,
}
use ai_agent_hub.Common.Text.{Text}
use ai_agent_hub.Rag.Contracts.{RetrievedChunk}
use ai_agent_hub.Rag.Fusion.{
  Floats, FusedRetrieval, RankedCandidate, get_fused, put_fused, unique_from, key_less, insert_item,
  sort_items,
}

-- Entries with different keys.
abbrev pub Distinct : {A : Type 0} → (A → Text) → List A → Type 0
Distinct key [] = Unit
Distinct key (x ∷ xs) = All (λ y. (key y == key x) ≡ false) xs × Distinct key xs

pub Distinct-take :
    {A : Type 0} (key : A → Text) (n : ℕ) (xs : List A) → Distinct key xs → Distinct key (take n xs)
Distinct-take key zero xs h = tt
Distinct-take key (suc n) [] h = tt
Distinct-take key (suc n) (x ∷ xs) h = (All-take _ n xs h.0, Distinct-take key n xs h.1)

abbrev pub chunk_key : {S : Type 0} → RetrievedChunk S → Text
chunk_key r = r.chunk_id

abbrev pub candidate_key : {S : Type 0} → RankedCandidate S → Text
candidate_key c = c.chunk.chunk_id

abbrev pub item_key : {S : Type 0} → FusedRetrieval S → Text
item_key i = i.chunk.chunk_id

pub neither : (a b : Bool) → (a || b) ≡ false → (a ≡ false) × (b ≡ false)
neither true b h = cc
neither false b h = (refl, h)

module _ {S : Type 0} where
  unique_from-fresh :
      (seen : List Text) (rs : List (RetrievedChunk S))
      → All (λ r. contains r.chunk_id seen ≡ false) (unique_from seen rs)
  unfolding unique_from
  unique_from-fresh seen [] = tt
  unique_from-fresh seen (r ∷ rs) = elim (Bool-cases (contains r.chunk_id seen)) [
    | inl old ↦ rw old (unique_from-fresh seen rs)
    | inr new ↦ rw new (
      new,
      All-map (λ y h. (neither (r.chunk_id == y.chunk_id) (contains y.chunk_id seen) h).1)
          (unique_from (r.chunk_id ∷ seen) rs) (unique_from-fresh (r.chunk_id ∷ seen) rs),
    )
  ]

  pub unique_from-Distinct :
      (seen : List Text) (rs : List (RetrievedChunk S)) → Distinct chunk_key (unique_from seen rs)
  unfolding unique_from
  unique_from-Distinct seen [] = tt
  unique_from-Distinct seen (r ∷ rs) = elim (Bool-cases (contains r.chunk_id seen)) [
    | inl old ↦ rw old (unique_from-Distinct seen rs)
    | inr new ↦ rw new (
      All-map
          (λ y h.
            ==_false_sym r.chunk_id y.chunk_id
              (neither (r.chunk_id == y.chunk_id) (contains y.chunk_id seen) h).0)
          (unique_from (r.chunk_id ∷ seen) rs) (unique_from-fresh (r.chunk_id ∷ seen) rs),
      unique_from-Distinct (r.chunk_id ∷ seen) rs,
    )
  ]

  -- The items of a dictionary, after an assignment.
  pub All-put_fused :
      (P : FusedRetrieval S → Type 0) (new : FusedRetrieval S) (items : List (FusedRetrieval S))
      → P new
      → All P items
      → All P (put_fused new items)
  unfolding put_fused
  All-put_fused P new [] p h = (p, tt)
  All-put_fused P new (i ∷ items) p h = elim (Bool-cases (item_key i == item_key new)) [
    | inl same ↦ rw same (p, h.1)
    | inr other ↦ rw other (h.0, All-put_fused P new items p h.1)
  ]

  pub Distinct-put_fused :
      (new : FusedRetrieval S) (items : List (FusedRetrieval S))
      → Distinct item_key items
      → Distinct item_key (put_fused new items)
  unfolding put_fused
  Distinct-put_fused new [] h = (tt, tt)
  Distinct-put_fused new (i ∷ items) h = elim (Bool-cases (item_key i == item_key new)) [
    | inl same ↦ rw same (
      subst (λ k. All (λ y. (item_key y == k) ≡ false) items)
          (==-eq (item_key i) (item_key new) same) h.0,
      h.1,
    )
    | inr other ↦ rw other (
      All-put_fused _ new items (==_false_sym (item_key i) (item_key new) other) h.0,
      Distinct-put_fused new items h.1,
    )
  ]

  -- What another id reads after an assignment.
  pub get_fused-put_fused :
      (new : FusedRetrieval S) (items : List (FusedRetrieval S)) (id : Text)
      → (item_key new == id) ≡ false
      → get_fused (put_fused new items) id ≡ get_fused items id
  unfolding get_fused put_fused
  get_fused-put_fused new [] id h = rw h refl
  get_fused-put_fused new (i ∷ items) id h = elim (Bool-cases (item_key i == item_key new)) [
    | inl same ↦
        (let differs : (item_key i == id) ≡ false =
            subst (λ k. (k == id) ≡ false) (sym (==-eq (item_key i) (item_key new) same)) h in
          rw (same, h, differs) refl)
    | inr other ↦ elim (Bool-cases (item_key i == id)) [
      | inl here ↦ rw (other, here) refl
      | inr there ↦ rw (other, there) (get_fused-put_fused new items id h)
    ]
  ]

  pub All-get_fused :
      (P : FusedRetrieval S → Type 0) (items : List (FusedRetrieval S)) (id : Text)
      (i : FusedRetrieval S)
      → All P items
      → get_fused items id ≡ some i
      → P i
  unfolding get_fused
  All-get_fused P [] id i h e = cc
  All-get_fused P (j ∷ items) id i h e = elim (Bool-cases (item_key j == id)) [
    | inl here ↦
        (let found : j ≡ i = (let one : some j ≡ some i = sym (rw here refl) ∙ e in cc) in
          subst P found h.0)
    | inr there ↦ All-get_fused P items id i h.1 (sym (rw there refl) ∙ e)
  ]

  pub get_fused-key :
      (items : List (FusedRetrieval S)) (id : Text) (i : FusedRetrieval S)
      → get_fused items id ≡ some i
      → item_key i ≡ id
  unfolding get_fused
  get_fused-key [] id i e = cc
  get_fused-key (j ∷ items) id i e = elim (Bool-cases (item_key j == id)) [
    | inl here ↦
        (let found : j ≡ i = (let one : some j ≡ some i = sym (rw here refl) ∙ e in cc) in
          subst (λ k. item_key k ≡ id) found (==-eq (item_key j) id here))
    | inr there ↦ get_fused-key items id i (sym (rw there refl) ∙ e)
  ]

  pub All-insert_item :
      (floats : Floats S) (P : FusedRetrieval S → Type 0) (x : FusedRetrieval S)
      (items : List (FusedRetrieval S))
      → P x
      → All P items
      → All P (insert_item floats x items)
  unfolding insert_item
  All-insert_item floats P x [] p h = (p, tt)
  All-insert_item floats P x (y ∷ ys) p h = elim (Bool-cases (key_less floats y x)) [
    | inl before ↦ rw before (h.0, All-insert_item floats P x ys p h.1)
    | inr after ↦ rw after (p, h)
  ]

  Distinct-insert_item :
      (floats : Floats S) (x : FusedRetrieval S) (items : List (FusedRetrieval S))
      → All (λ y. (item_key y == item_key x) ≡ false) items
      → Distinct item_key items
      → Distinct item_key (insert_item floats x items)
  unfolding insert_item
  Distinct-insert_item floats x [] new h = (tt, tt)
  Distinct-insert_item floats x (y ∷ ys) new h = elim (Bool-cases (key_less floats y x)) [
    | inl before ↦ rw before (
      All-insert_item floats _ x ys (==_false_sym (item_key y) (item_key x) new.0) h.0,
      Distinct-insert_item floats x ys new.1 h.1,
    )
    | inr after ↦ rw after (new, h)
  ]

  pub All-sort_items :
      (floats : Floats S) (P : FusedRetrieval S → Type 0) (items : List (FusedRetrieval S))
      → All P items
      → All P (sort_items floats items)
  unfolding sort_items
  All-sort_items floats P [] h = tt
  All-sort_items floats P (x ∷ xs) h =
      All-insert_item floats P x (sort_items floats xs) h.0 (All-sort_items floats P xs h.1)

  pub Distinct-sort_items :
      (floats : Floats S) (items : List (FusedRetrieval S))
      → Distinct item_key items
      → Distinct item_key (sort_items floats items)
  unfolding sort_items
  Distinct-sort_items floats [] h = tt
  Distinct-sort_items floats (x ∷ xs) h =
      Distinct-insert_item floats x (sort_items floats xs) (All-sort_items floats _ xs h.0)
        (Distinct-sort_items floats xs h.1)
