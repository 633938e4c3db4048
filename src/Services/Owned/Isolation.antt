-- ===== src/Services/Owned/Isolation.antt =====
-- The statements of a user keep the ids apart and leave the rows of the others.
use ai_agent_hub.Common.{
  ℕ, ◌≡◌, refl, sym, subst, ◌∙◌, false, ◌&&◌, some, List, [], ◌∷◌, ◌==◌, nat_eq, find, change,
  filter, Bool-cases, inl, inr, All, All-map, ==-eq,
}
use ai_agent_hub.Services.Owned.{
  Table, has_id, is_owned, get_owned, list_owned, store_row, delete_row, IsKeyed, OwnedStep, keeps,
  inserts, replaces, deletes, History, start, next, Without,
}

module _ {A : Type 0} (t : Table A) where
  -- No row with the id belongs to the user.
  abbrev IsForeign : ℕ → ℕ → List A → Type 0
  IsForeign id user rows = All (λ row. (has_id t id row && is_owned t user row) ≡ false) rows

  list_owned-store_row :
      (other : ℕ) (new : A) (rows : List A)
      → is_owned t other new ≡ false
      → IsForeign (t.id_of new) other rows
      → list_owned t other (store_row t new rows) ≡ list_owned t other rows
  unfolding list_owned store_row filter change
  list_owned-store_row other new [] apart h = refl
  list_owned-store_row other new (r ∷ rows) apart h = elim (Bool-cases (has_id t (t.id_of new) r)) [
    | inl here ↦
        let foreign : is_owned t other r ≡ false = (let h1 = rw here at h.0 in h1) in
        rw (here, apart, foreign) refl
    | inr there ↦ rw (there, list_owned-store_row other new rows apart h.1) refl
  ]

  list_owned-delete_row :
      (other id : ℕ) (rows : List A)
      → IsForeign id other rows
      → list_owned t other (delete_row t id rows) ≡ list_owned t other rows
  unfolding list_owned delete_row filter
  list_owned-delete_row other id [] h = refl
  list_owned-delete_row other id (r ∷ rows) h = elim (Bool-cases (has_id t id r)) [
    | inl here ↦
        let foreign : is_owned t other r ≡ false = (let h1 = rw here at h.0 in h1) in
        rw (here, foreign, list_owned-delete_row other id rows h.1) refl
    | inr there ↦ rw (there, list_owned-delete_row other id rows h.1) refl
  ]

  find_absent :
      (id user : ℕ) (rows : List A) (row : A)
      → All (λ other. has_id t id other ≡ false) rows
      → find (λ r. has_id t id r && is_owned t user r) rows ≡ some row
      → ⊥
  unfolding find
  find_absent id user [] row h e = cc
  find_absent id user (r ∷ rows) row h e =
      find_absent id user rows row h.1 (let e1 = rw h.0 at e in e1)

  -- The id of a row of the user is not the id of a row of another user.
  get_owned-IsForeign :
      (id user other : ℕ) (rows : List A) (row : A)
      → (user == other) ≡ false
      → IsKeyed t rows
      → get_owned t id user rows ≡ some row
      → IsForeign id other rows
  unfolding get_owned find
  get_owned-IsForeign id user other [] row apart keyed e = tt
  get_owned-IsForeign id user other (r ∷ rows) row apart keyed e =
      elim (Bool-cases (has_id t id r)) [
        | inl here ↦
            let same : t.id_of r ≡ id = ==-eq (t.id_of r) id here in
            let absent : All (λ o. has_id t id o ≡ false) rows =
              subst (λ n. All (λ o. has_id t n o ≡ false) rows) same keyed.0 in
            elim (Bool-cases (is_owned t user r)) [
              | inl mine ↦
                  let owner : t.user_of r ≡ user = ==-eq (t.user_of r) user mine in
                  let foreign : is_owned t other r ≡ false =
                    subst (λ n. (n == other) ≡ false) (sym owner) apart in
                  (rw (here, foreign) refl, All-map (λ o h. rw h refl) rows absent)
              | inr theirs ↦
                  absurd
                    (find_absent id user rows row absent (let e1 = rw (here, theirs) at e in e1))
            ]
        | inr there ↦ (
          rw there refl,
          get_owned-IsForeign id user other rows row apart keyed.1 (let e1 = rw there at e in e1),
        )
      ]

  pub list_owned-OwnedStep :
      (user other : ℕ) (rows after : List A)
      → (user == other) ≡ false
      → IsKeyed t rows
      → OwnedStep t user rows after
      → list_owned t other after ≡ list_owned t other rows
  unfolding list_owned filter
  list_owned-OwnedStep user other rows _ apart keyed keeps = refl
  list_owned-OwnedStep user other rows _ apart keyed (inserts row mine fresh) =
      rw (mine, apart) refl
  list_owned-OwnedStep user other rows _ apart keyed (replaces old new found mine) =
      list_owned-store_row other new rows (subst (λ n. (n == other) ≡ false) (sym mine) apart)
        (get_owned-IsForeign (t.id_of new) user other rows old apart keyed found)
  list_owned-OwnedStep user other rows _ apart keyed (deletes id old found) =
      list_owned-delete_row other id rows
        (get_owned-IsForeign id user other rows old apart keyed found)

  absent-store_row :
      (id : ℕ) (new : A) (rows : List A)
      → All (λ o. has_id t id o ≡ false) rows
      → All (λ o. has_id t id o ≡ false) (store_row t new rows)
  unfolding store_row change
  absent-store_row id new [] h = tt
  absent-store_row id new (r ∷ rows) h = elim (Bool-cases (has_id t (t.id_of new) r)) [
    | inl here ↦
        let same : t.id_of r ≡ t.id_of new = ==-eq (t.id_of r) (t.id_of new) here in
        rw here (subst (λ n. (n == id) ≡ false) same h.0, h.1)
    | inr there ↦ rw there (h.0, absent-store_row id new rows h.1)
  ]

  store_row-IsKeyed : (new : A) (rows : List A) → IsKeyed t rows → IsKeyed t (store_row t new rows)
  unfolding store_row change
  store_row-IsKeyed new [] h = tt
  store_row-IsKeyed new (r ∷ rows) h = elim (Bool-cases (has_id t (t.id_of new) r)) [
    | inl here ↦
        let same : t.id_of r ≡ t.id_of new = ==-eq (t.id_of r) (t.id_of new) here in
        rw here (subst (λ n. All (λ o. has_id t n o ≡ false) rows) same h.0, h.1)
    | inr there ↦
        rw there (absent-store_row (t.id_of r) new rows h.0, store_row-IsKeyed new rows h.1)
  ]

  absent-delete_row :
      (n id : ℕ) (rows : List A)
      → All (λ o. has_id t n o ≡ false) rows
      → All (λ o. has_id t n o ≡ false) (delete_row t id rows)
  unfolding delete_row filter
  absent-delete_row n id [] h = tt
  absent-delete_row n id (r ∷ rows) h = elim (Bool-cases (has_id t id r)) [
    | inl here ↦ rw here (absent-delete_row n id rows h.1)
    | inr there ↦ rw there (h.0, absent-delete_row n id rows h.1)
  ]

  delete_row-IsKeyed : (id : ℕ) (rows : List A) → IsKeyed t rows → IsKeyed t (delete_row t id rows)
  unfolding delete_row filter
  delete_row-IsKeyed id [] h = tt
  delete_row-IsKeyed id (r ∷ rows) h = elim (Bool-cases (has_id t id r)) [
    | inl here ↦ rw here (delete_row-IsKeyed id rows h.1)
    | inr there ↦
        rw there (absent-delete_row (t.id_of r) id rows h.0, delete_row-IsKeyed id rows h.1)
  ]

  pub OwnedStep-IsKeyed :
      (user : ℕ) (rows after : List A)
      → IsKeyed t rows
      → OwnedStep t user rows after
      → IsKeyed t after
  OwnedStep-IsKeyed user rows _ keyed keeps = keyed
  OwnedStep-IsKeyed user rows _ keyed (inserts row mine fresh) = (fresh, keyed)
  OwnedStep-IsKeyed user rows _ keyed (replaces old new found mine) =
      store_row-IsKeyed new rows keyed
  OwnedStep-IsKeyed user rows _ keyed (deletes id old found) = delete_row-IsKeyed id rows keyed

  pub History-IsKeyed :
      {rows after : List A} → IsKeyed t rows → History t rows after → IsKeyed t after
  History-IsKeyed keyed start = keyed
  History-IsKeyed keyed (next user history step) =
      OwnedStep-IsKeyed user _ _ (History-IsKeyed keyed history) step

  -- Whatever the others do, one after the other, the rows of a user stay.
  pub list_owned-History :
      {rows after : List A} (other : ℕ)
      → IsKeyed t rows
      → (history : History t rows after) → Without t other history
      → list_owned t other after ≡ list_owned t other rows
  list_owned-History other keyed start apart = refl
  list_owned-History other keyed (next user history step) apart =
      list_owned-OwnedStep user other _ _ apart.0 (History-IsKeyed keyed history) step
      ∙ list_owned-History other keyed history apart.1
