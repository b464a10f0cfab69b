-- ===== src/Client/UserListWindow.antt =====
-- client/src/user_list_window.cpp: the rows of the window, its counter and its search field.
pub mod Search
pub mod Ui
pub mod Rows
pub mod Shows
use qt_messenger.Prelude.{
  ℕ, suc, ◌==◌, Bool, false, not, Option, none, some, List, [], ◌∷◌, bytes, length, if◌then◌else◌,
}
use qt_messenger.Qt.{Qt}
use qt_messenger.Client.QtText.{QtText, is_fatal}

module _ ⦃qt : Qt⦄ where
  open qt use {QString}

  -- `nameLabel`, `avatarLabel`, and whether the search hides the row
  pub record UserRow : Type 0 where
    pub name : QString
    pub avatar : QString
    pub hidden : Bool

  pub record UserListWindow : Type 0 where
    pub rows : List UserRow
    pub counter : QString

module _ ⦃qt : Qt⦄ ⦃text : QtText⦄ where
  open qt use {QString, from_std_string, is_empty}
  open text use {first_letter, to_lower, contains_text, arg_count}

  unfoldable pub counter_text : ℕ → QString
  counter_text n =
      arg_count (bytes "%1 %2") n (from_std_string (if n == 1 then bytes "user" else bytes "users"))

  unfoldable pub row_for : QString → UserRow
  row_for name = record { name = name; avatar = first_letter name; hidden = false }

  abbrev pub and_row : UserRow → Option (List UserRow) → Option (List UserRow)
  and_row r none = none
  and_row r (some rs) = some (r ∷ rs)

  -- `username.at(0)` is out of range for an empty name: the program stops there if `at` is checked.
  unfoldable pub user_rows : List QString → Option (List UserRow)
  unfolding row_for
  user_rows [] = some []
  user_rows (u ∷ us) =
      let rest = user_rows us in if is_fatal u then none else and_row (row_for u) rest

  unfoldable pub show_rows : ℕ → Option (List UserRow) → Option UserListWindow
  unfolding counter_text
  show_rows n none = none
  show_rows n (some rows) = some (record { rows = rows; counter = counter_text n })

  -- `updateUserList`: the old rows go.
  unfoldable pub update_rows : List QString → UserListWindow → Option UserListWindow
  unfolding show_rows user_rows
  update_rows us w = show_rows (length us) (user_rows us)

  -- `nameLabel->text().toLower().contains(searchText)`
  abbrev pub is_match : QString → UserRow → Bool
  is_match search r = contains_text (to_lower r.name) search

  -- The loop over the rows, with `visibleCount`.
  unfoldable pub filter_rows : QString → List UserRow → List UserRow × ℕ
  filter_rows search [] = ([], 0)
  filter_rows search (r ∷ rs) =
      let (rest, count) = filter_rows search rs in
      let visible = is_match search r in
      (record r { hidden = not visible } ∷ rest, if visible then suc count else count)

  -- The slot of `textChanged`
  unfoldable pub search_rows : QString → UserListWindow → UserListWindow
  unfolding filter_rows counter_text
  search_rows field w =
      let (rows, count) = filter_rows (to_lower field) w.rows in
      record { rows = rows; counter = counter_text count }
