-- ===== src/Client/UserListWindow/Rows.antt =====
-- client/src/user_list_window.cpp: the widgets of a row, and the slots over the widgets. How a
-- layout shares out its space is left out.
use qt_messenger.Prelude.{
  ℕ, true, false, Option, none, some, List, [], ◌∷◌, not, suc, length, bytes, if◌then◌else◌,
}
use qt_messenger.Qt.{Qt}
use qt_messenger.Client.QtText.{QtText, is_fatal}
use qt_messenger.Client.Widgets.{
  plain, label, push_button, Rule, box, end, add_widget, Element, element, Ui, with_variable,
  set_text, first, is_variable, said,
}
use qt_messenger.Client.Widgets.Children.{QtWidgets, with_child}
use qt_messenger.Client.UserListWindow.{counter_text}
use qt_messenger.Client.UserListWindow.Ui.{Row, UserListUi}

module _ ⦃qt : Qt⦄ ⦃widgets : QtWidgets⦄ ⦃text : QtText⦄ where
  open qt use {QString, from_std_string, is_empty}
  open text use {first_letter, to_lower, contains_text}

  -- The sheet of `chatButton`.
  abbrev pub chat_button_rules : List Rule
  chat_button_rules =
      record {
        selector = bytes "QPushButton";
        declarations =
            ((bytes "background-color", bytes "transparent")
              ∷ (bytes "border", bytes "none")
              ∷ (bytes "font-size", bytes "18px")
              ∷ (bytes "color", bytes "#737373")
              ∷ []);
      }
      ∷ record {
        selector = bytes "QPushButton:hover";
        declarations =
            ((bytes "background-color", bytes "#f0f2f5")
              ∷ (bytes "border-radius", bytes "20px")
              ∷ []);
      }
      ∷ []

  -- The widget of a row: the letter in its avatar, and the name.
  abbrev pub row_widget : QString → QString → Ui
  row_widget letter username = record {
    is_shown = true;
    title = [];
    size = (0, 0);
    children =
        record (element label (bytes "avatarLabel")) {
          fixed_width = some 50;
          fixed_height = some 50;
          is_centered = true;
          name = bytes "avatarLabel";
          text = letter;
          style =
              ((bytes "background-color", bytes "#179cde")
                ∷ (bytes "color", bytes "white")
                ∷ (bytes "border-radius", bytes "25px")
                ∷ (bytes "font-weight", bytes "bold")
                ∷ (bytes "font-size", bytes "22px")
                ∷ []);
        }
        ∷ element plain (bytes "infoWidget")
        ∷ record (element label (bytes "nameLabel")) {
          text = username;
          name = bytes "nameLabel";
          style =
              ((bytes "font-size", bytes "16px")
                ∷ (bytes "font-weight", bytes "bold")
                ∷ (bytes "color", bytes "#333333")
                ∷ []);
        }
        ∷ record (element label (bytes "statusLabel")) {
          text = from_std_string (bytes "online");
          style = ((bytes "font-size", bytes "14px") ∷ (bytes "color", bytes "#179cde") ∷ []);
        }
        ∷ record (element push_button (bytes "chatButton")) {
          text = from_std_string (240 ∷ 159 ∷ 146 ∷ 172 ∷ []);
          fixed_width = some 40;
          fixed_height = some 40;
          name = bytes "chatButton";
          rules = chat_button_rules;
        }
        ∷ [];
    layouts =
        (
          bytes "userWidget",
          box true (some 10) (some (5, 10, 5, 10)) (
              add_widget (bytes "avatarLabel") false (
                add_widget (bytes "infoWidget") false (add_widget (bytes "chatButton") false end))),
        )
        ∷ (
          bytes "infoWidget",
          box false (some 2) (some (0, 0, 0, 0))
              (add_widget (bytes "nameLabel") false (add_widget (bytes "statusLabel") false end)),
        )
        ∷ [];
    sheet = [];
  }

  abbrev pub user_row_ui : QString → Row
  user_row_ui username = record {
    widget = row_widget (first_letter username) username;
    hidden = false;
  }

  abbrev pub and_row_ui : Row → Option (List Row) → Option (List Row)
  and_row_ui r none = none
  and_row_ui r (some rs) = some (r ∷ rs)

  -- The loop of `updateUserList`: `username.at(0)` is out of range for an empty name.
  unfoldable pub rows_ui : List QString → Option (List Row)
  rows_ui [] = some []
  rows_ui (u ∷ us) =
      let rest = rows_ui us in if is_fatal u then none else and_row_ui (user_row_ui u) rest

  unfoldable pub put_rows_ui : UserListUi → Option (List Row) → Option UserListUi
  put_rows_ui p none = none
  put_rows_ui p (some rows) = some (record p { rows = rows })

  abbrev pub set_counter : ℕ → UserListUi → UserListUi
  set_counter n p = record p {
    ui = with_child label (bytes "counterLabel") (set_text (counter_text n)) p.ui;
  }

  -- `updateUserList`
  unfoldable pub update_rows_ui : List QString → UserListUi → Option UserListUi
  unfolding rows_ui put_rows_ui
  update_rows_ui us p = put_rows_ui (set_counter (length us) (record p { rows = [] })) (rows_ui us)

  -- A row that has a label with the name, and one that has none.
  unfoldable pub filter_row : QString → Row → ℕ → Option Element → Row × ℕ
  filter_row search r count none = (r, count)
  filter_row search r count (some name_label) =
      let visible = contains_text (to_lower name_label.text) search in
      (record r { hidden = not visible }, if visible then suc count else count)

  -- The loop of the slot of `textChanged`, with `visibleCount`.
  unfoldable pub filter_rows_ui : QString → List Row → List Row × ℕ
  unfolding filter_row
  filter_rows_ui search [] = ([], 0)
  filter_rows_ui search (r ∷ rs) =
      let (rest, count) = filter_rows_ui search rs in
      let (r', count') =
        filter_row search r count
          (widgets.find_child label (bytes "nameLabel") r.widget.children) in
      (r' ∷ rest, count')

  -- The slot of `textChanged`, on what stands in `searchField`.
  unfoldable pub search_rows_ui : UserListUi → UserListUi
  unfolding filter_rows_ui
  search_rows_ui p =
      let search = to_lower (said (first (is_variable (bytes "searchField")) p.ui.children)) in
      let (rows, count) = filter_rows_ui search p.rows in
      record {
        ui = with_variable (bytes "counterLabel") (set_text (counter_text count)) p.ui;
        rows = rows;
      }

  -- The user types in the search field.
  unfoldable pub type_search_ui : QString → UserListUi → UserListUi
  unfolding search_rows_ui
  type_search_ui field p =
      search_rows_ui (record p { ui = with_variable (bytes "searchField") (set_text field) p.ui })
