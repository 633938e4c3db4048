-- ===== src/Services/Owned.antt =====
-- Tables whose rows belong to users (backend/app/repositories): what the statements of one user may do
-- to the rows, and to the rows of others. The services over such a table are shown to take its steps.
pub mod Isolation
use ai_agent_hub.Common.{
  ℕ, ◌≡◌, Bool, true, false, not, ◌&&◌, Option, some, List, [], ◌∷◌, ◌==◌, nat_eq, find, change,
  filter, All,
}

-- The primary key and the owner of a row.
pub record Table (A : Type 0) : Type 0 where
  pub id_of : A → ℕ
  pub user_of : A → ℕ

module _ {A : Type 0} (t : Table A) where
  abbrev pub has_id : ℕ → A → Bool
  has_id id row = t.id_of row == id

  abbrev pub is_owned : ℕ → A → Bool
  is_owned user row = t.user_of row == user

  -- `select(...).where(id == ..., user_id == ...)`
  unfoldable pub get_owned : ℕ → ℕ → List A → Option A
  unfolding find
  get_owned id user rows = find (λ row. has_id id row && is_owned user row) rows

  -- `select(...).where(user_id == ...)`
  unfoldable pub list_owned : ℕ → List A → List A
  unfolding filter
  list_owned user rows = filter (is_owned user) rows

  -- The update of a row by its primary key
  unfoldable pub store_row : A → List A → List A
  unfolding change
  store_row new rows = change (has_id (t.id_of new)) (λ old. new) rows

  unfoldable pub delete_row : ℕ → List A → List A
  unfolding filter
  delete_row id rows = filter (λ row. not (has_id id row)) rows

  -- No two rows have the same id.
  abbrev pub IsKeyed : List A → Type 0
  IsKeyed [] = Unit
  IsKeyed (row ∷ rows) = All (λ other. has_id (t.id_of row) other ≡ false) rows × IsKeyed rows

  -- The specification of a user's statement: nothing, a new row with a new id, another value of a row
  -- of the user, or one row of the user less.
  pub data OwnedStep (user : ℕ) (rows : List A) : List A → Type 0 where
    keeps : OwnedStep user rows rows
    inserts :
        (row : A)
        → t.user_of row ≡ user
        → All (λ other. has_id (t.id_of row) other ≡ false) rows
        → OwnedStep user rows (row ∷ rows)
    replaces :
        (old new : A)
        → get_owned (t.id_of new) user rows ≡ some old
        → t.user_of new ≡ user
        → OwnedStep user rows (store_row new rows)
    deletes :
        (id : ℕ) (old : A)
        → get_owned id user rows ≡ some old
        → OwnedStep user rows (delete_row id rows)

  -- Statements of users, one after the other.
  pub data History (rows : List A) : List A → Type 0 where
    start : History rows rows
    next :
        (user : ℕ) {middle after : List A}
        → History rows middle
        → OwnedStep user middle after
        → History rows after

  -- None of the statements is the user's.
  abbrev pub Without : {rows after : List A} → ℕ → History rows after → Type 0
  Without other start = Unit
  Without other (next user history step) = ((user == other) ≡ false) × Without other history
