-- ===== src/Client/UserListWindow/Ui.antt =====
-- client/src/user_list_window.cpp: the widgets of the window of the users.
use qt_messenger.Prelude.{Bool, true, false, some, List, [], ◌∷◌, Bytes, bytes}
use qt_messenger.Qt.{Qt}
use qt_messenger.Client.QtText.{QtText}
use qt_messenger.Client.Widgets.{
  plain, label, line_edit, list_widget, Rule, Layout, box, end, add_widget, Element, element, Ui,
}

module _ ⦃qt : Qt⦄ ⦃text : QtText⦄ where
  open qt use {QString, from_std_string, is_empty}
  open text use {first_letter, to_lower, contains_text}

  -- What `setupUi` creates, and how it lays it out.
  abbrev pub children : List Element
  children =
      record (element label (bytes "titleLabel")) {
        text = from_std_string (bytes "Online Users");
        name = bytes "titleLabel";
        is_centered = true;
        fixed_height = some 50;
      }
      ∷ element plain (bytes "searchContainer")
      ∷ record (element label (bytes "searchIcon")) {
        text = from_std_string (240 ∷ 159 ∷ 148 ∷ 141 ∷ []);
        fixed_width = some 20;
        fixed_height = some 20;
        name = bytes "searchIcon";
      }
      ∷ record (element line_edit (bytes "searchField")) {
        placeholder = bytes "Search users...";
        name = bytes "searchField";
        min_height = 40;
      }
      ∷ record (element label (bytes "counterLabel")) {
        text = from_std_string (bytes "0 users");
        name = bytes "counterLabel";
        is_centered = true;
        fixed_height = some 30;
      }
      ∷ record (element list_widget (bytes "m_userListWidget")) { name = bytes "userList" }
      ∷ []

  abbrev pub layouts : List (Bytes × Layout)
  layouts =
      (
        bytes "searchContainer",
        (box true (some 10) (some (10, 0, 10, 0))
            (add_widget (bytes "searchIcon") false (add_widget (bytes "searchField") false end))),
      )
      ∷ (
        bytes "this",
        (box false (some 10) (some (15, 15, 15, 15)) (
            add_widget (bytes "titleLabel") false (
              add_widget (bytes "searchContainer") false (
                add_widget (bytes "counterLabel") false
                  (add_widget (bytes "m_userListWidget") false end))))),
      )
      ∷ []

  -- `applyStyles`
  abbrev pub style_rules : List Rule
  style_rules =
      record {
        selector = bytes "QDialog";
        declarations =
            ((bytes "background-color", bytes "white")
              ∷ (bytes "border-radius", bytes "10px")
              ∷ []);
      }
      ∷ record {
        selector = bytes "QLabel#titleLabel";
        declarations =
            ((bytes "font-size", bytes "20px")
              ∷ (bytes "font-weight", bytes "bold")
              ∷ (bytes "color", bytes "#333333")
              ∷ (bytes "margin", bytes "10px 0")
              ∷ []);
      }
      ∷ record {
        selector = bytes "QLabel#counterLabel";
        declarations =
            ((bytes "font-size", bytes "14px")
              ∷ (bytes "color", bytes "#737373")
              ∷ (bytes "margin", bytes "5px 0")
              ∷ []);
      }
      ∷ record {
        selector = bytes "QLabel#searchIcon";
        declarations = ((bytes "color", bytes "#737373") ∷ (bytes "font-size", bytes "16px") ∷ []);
      }
      ∷ record {
        selector = bytes "QLineEdit#searchField";
        declarations =
            ((bytes "border", bytes "1px solid #e0e0e0")
              ∷ (bytes "border-radius", bytes "20px")
              ∷ (bytes "padding", bytes "5px 15px")
              ∷ (bytes "background-color", bytes "#f5f7fa")
              ∷ (bytes "font-size", bytes "14px")
              ∷ (bytes "margin", bytes "5px 0")
              ∷ []);
      }
      ∷ record {
        selector = bytes "QLineEdit#searchField:focus";
        declarations = ((bytes "border", bytes "1.5px solid #179cde") ∷ []);
      }
      ∷ record {
        selector = bytes "QListWidget#userList";
        declarations =
            ((bytes "background-color", bytes "white")
              ∷ (bytes "border", bytes "none")
              ∷ (bytes "outline", bytes "none")
              ∷ (bytes "padding", bytes "5px")
              ∷ []);
      }
      ∷ record {
        selector = bytes "QListWidget#userList::item";
        declarations =
            ((bytes "border-bottom", bytes "1px solid #f0f0f0")
              ∷ (bytes "padding", bytes "3px 0")
              ∷ []);
      }
      ∷ record {
        selector = bytes "QListWidget#userList::item:selected";
        declarations = ((bytes "background-color", bytes "transparent") ∷ []);
      }
      ∷ record {
        selector = bytes "QListWidget#userList::item:hover";
        declarations = ((bytes "background-color", bytes "#f8f9fa") ∷ []);
      }
      ∷ []

  abbrev pub apply_styles : Ui → Ui
  apply_styles ui = record ui { sheet = style_rules }

  -- An item of the list: the widget that stands in it, and whether it is hidden.
  pub record Row : Type 0 where
    pub widget : Ui
    pub hidden : Bool

  pub record UserListUi : Type 0 where
    pub ui : Ui
    pub rows : List Row

  -- The constructor: `setupUi` with its styles, and the styles again.
  abbrev pub new_users_ui : UserListUi
  new_users_ui = record {
    ui = apply_styles (
        apply_styles (record {
          is_shown = false;
          title = bytes "Online Users";
          size = (350, 600);
          children = children;
          layouts = layouts;
          sheet = [];
        }));
    rows = [];
  }
