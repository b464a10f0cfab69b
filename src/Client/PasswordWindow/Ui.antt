-- ===== src/Client/PasswordWindow/Ui.antt =====
-- client/src/password_window.cpp: the widgets of the password window, and its slot over them.
use qt_messenger.Prelude.{
  Bool, true, false, Option, none, some, List, [], ◌∷◌, Bytes, bytes, if◌then◌else◌,
}
use qt_messenger.Qt.{Qt}
use qt_messenger.Client.QtText.{QtText, is_fatal}
use qt_messenger.Client.Widgets.{
  plain, label, line_edit, push_button, Layout, box, end, add_widget, add_spacing, Element, element,
  Ui, with_variable, set_text, set_style, first, is_variable, said,
}
use qt_messenger.Client.Widgets.Children.{
  QtWidgets, Change, on_child, on_variable, on_window, with_child, in_order,
}
use qt_messenger.Client.Widgets.Runs.{Acting}
use qt_messenger.Database.{IDatabase}
use qt_messenger.Client.NetworkClient.{Event}
use qt_messenger.Client.ChatWindow.{ChatWindow}
use qt_messenger.Client.PasswordWindow.{open_chat}
use qt_messenger.Client.Windows.{PasswordAct, types_password, submits}

module _ ⦃qt : Qt⦄ ⦃widgets : QtWidgets⦄ ⦃text : QtText⦄ where
  open qt use {QString, from_std_string, trimmed, is_empty}
  open text use {first_letter, arg_text}

  -- What `setupUi` creates, and how it lays it out.
  abbrev pub children : QString → List Element
  children username =
      record (element plain (bytes "mainContainer")) {
        name = bytes "mainContainer";
        fixed_width = some 350;
      }
      ∷ record (element label (bytes "m_statusLabel")) {
        text = arg_text (bytes "Login for %1") username;
        name = bytes "titleLabel";
        is_centered = true;
      }
      ∷ record (element label (bytes "avatarLabel")) {
        fixed_width = some 100;
        fixed_height = some 100;
        is_centered = true;
        name = bytes "avatarLabel";
        text = first_letter username;
      }
      ∷ element plain (bytes "passwordContainer")
      ∷ record (element label (bytes "passwordIcon")) {
        text = from_std_string (240 ∷ 159 ∷ 148 ∷ 146 ∷ []);
        fixed_width = some 30;
        fixed_height = some 30;
        is_centered = true;
        name = bytes "passwordIcon";
      }
      ∷ record (element line_edit (bytes "m_passwordField")) {
        is_secret = true;
        placeholder = bytes "Enter password";
        min_height = 50;
      }
      ∷ record (element label (bytes "errorLabel")) {
        name = bytes "errorLabel";
        is_centered = true;
        is_visible = false;
      }
      ∷ record (element push_button (bytes "m_submitButton")) {
        text = from_std_string (bytes "Login");
        min_height = 50;
      }
      ∷ record (element push_button (bytes "cancelButton")) {
        text = from_std_string (bytes "Cancel");
        min_height = 50;
        name = bytes "cancelButton";
      }
      ∷ []

  abbrev pub layouts : List (Bytes × Layout)
  layouts =
      (
        bytes "passwordContainer",
        (box true (some 10) (some (0, 0, 0, 0)) (
            add_widget (bytes "passwordIcon") false
              (add_widget (bytes "m_passwordField") false end))),
      )
      ∷ (
        bytes "mainContainer",
        (box false (some 15) (some (25, 25, 25, 25)) (
            add_widget (bytes "m_statusLabel") true (
              add_spacing 10 (
                add_widget (bytes "avatarLabel") true (
                  add_spacing 20 (
                    add_widget (bytes "passwordContainer") false (
                      add_widget (bytes "errorLabel") false (
                        add_spacing 10 (
                          add_widget (bytes "m_submitButton") false
                            (add_widget (bytes "cancelButton") false end)))))))))),
      )
      ∷ (
        bytes "this",
        (box false (some 0) (some (20, 20, 20, 20)) (add_widget (bytes "mainContainer") true end)),
      )
      ∷ []

  -- `applyStyles`
  abbrev pub style_changes : List Change
  style_changes =
      on_window (λ (ui : Ui). record ui {
        sheet =
            record {
              selector = bytes "QDialog";
              declarations = ((bytes "background-color", bytes "#f0f2f5") ∷ []);
            }
            ∷ [];
      })
      ∷ on_child plain (bytes "mainContainer") (
          set_style (
            (bytes "background-color", bytes "white") ∷ (bytes "border-radius", bytes "30px") ∷ []))
      ∷ on_child label (bytes "titleLabel") (
          set_style (
            (bytes "font-size", bytes "22px")
            ∷ (bytes "font-weight", bytes "bold")
            ∷ (bytes "color", bytes "#333333")
            ∷ (bytes "margin-bottom", bytes "10px")
            ∷ []))
      ∷ on_child label (bytes "avatarLabel") (
          set_style (
            (bytes "background-color", bytes "#179cde")
            ∷ (bytes "color", bytes "white")
            ∷ (bytes "border-radius", bytes "50px")
            ∷ (bytes "font-weight", bytes "bold")
            ∷ (bytes "font-size", bytes "40px")
            ∷ []))
      ∷ on_child label (bytes "passwordIcon")
          (set_style ((bytes "font-size", bytes "18px") ∷ (bytes "color", bytes "#179cde") ∷ []))
      ∷ on_child label (bytes "errorLabel") (
          set_style (
            (bytes "color", bytes "#dc3545")
            ∷ (bytes "font-size", bytes "14px")
            ∷ (bytes "margin-top", bytes "10px")
            ∷ []))
      ∷ on_variable (bytes "m_passwordField") (
          set_style (
            (bytes "border", bytes "1px solid #e0e0e0")
            ∷ (bytes "border-radius", bytes "25px")
            ∷ (bytes "padding", bytes "12px 20px")
            ∷ (bytes "font-size", bytes "14px")
            ∷ (bytes "background-color", bytes "#f5f7fa")
            ∷ []))
      ∷ on_variable (bytes "m_submitButton") (
          set_style (
            (bytes "background-color", bytes "#179cde")
            ∷ (bytes "color", bytes "white")
            ∷ (bytes "border", bytes "none")
            ∷ (bytes "border-radius", bytes "25px")
            ∷ (bytes "font-size", bytes "16px")
            ∷ (bytes "font-weight", bytes "bold")
            ∷ (bytes "margin", bytes "5px 0")
            ∷ []))
      ∷ on_child push_button (bytes "cancelButton") (
          set_style (
            (bytes "background-color", bytes "transparent")
            ∷ (bytes "color", bytes "#737373")
            ∷ (bytes "border", bytes "1px solid #d0d0d0")
            ∷ (bytes "border-radius", bytes "25px")
            ∷ (bytes "font-size", bytes "16px")
            ∷ (bytes "margin", bytes "5px 0")
            ∷ []))
      ∷ []

  abbrev pub apply_styles : Ui → Ui
  apply_styles = in_order style_changes

  -- What `setupUi` of a user with a name has made, before it applies the styles.
  abbrev pub bare_ui : QString → Ui
  bare_ui username = record {
    is_shown = false;
    title = bytes "Login";
    size = (400, 550);
    children = children username;
    layouts = layouts;
    sheet = [];
  }

  -- `setupUi` takes the first letter of the name.
  abbrev pub setup_named : QString → Ui
  setup_named username = apply_styles (bare_ui username)

  -- The constructor, which applies the styles again: `at(0)` is out of range for an empty name, and
  -- stops the program if `at` is checked.
  unfoldable pub new_password_ui : QString → Option Ui
  new_password_ui username =
      if is_fatal username then none else some (apply_styles (setup_named username))

  abbrev pub put_error : Bytes → Element → Element
  put_error message e = record e { text = from_std_string message; is_visible = true }

  -- `showError`
  abbrev pub show_error_ui : Bytes → Ui → Ui
  show_error_ui message = with_child label (bytes "errorLabel") (put_error message)

  -- A window that stands open: whose password it asks for, and its widgets.
  pub record PasswordUi : Type 0 where
    pub username : QString
    pub ui : Ui

  abbrev pub with_ui : (Ui → Ui) → PasswordUi → PasswordUi
  with_ui f p = record p { ui = f p.ui }

  unfoldable pub after_check_ui :
      QString → Bool → PasswordUi → PasswordUi × Option (ChatWindow × List Event)
  after_check_ui password valid p =
      if valid
      then (p, some (open_chat p.username password))
      else (with_ui (show_error_ui (bytes "Incorrect password")) p, none)

  -- `onSubmitClicked`, on what stands in `m_passwordField`
  unfoldable pub on_submit_ui :
      {D : Type 0}
      → IDatabase D
      → D
      → PasswordUi
      → (PasswordUi × Option (ChatWindow × List Event)) × D
  unfolding after_check_ui
  on_submit_ui db d p =
      let password = trimmed (said (first (is_variable (bytes "m_passwordField")) p.ui.children)) in
      let (valid, d') = db.check_user p.username password d in
      if is_empty password
      then ((with_ui (show_error_ui (bytes "Please enter a password")) p, none), d)
      else (after_check_ui password valid p, d')

  -- One act of the user.
  unfoldable pub password_act_ui :
      {D : Type 0}
      → IDatabase D
      → Acting PasswordAct D PasswordUi (Option (ChatWindow × List Event))
  unfolding on_submit_ui
  password_act_ui db (types_password q) d p =
      ((with_ui (with_variable (bytes "m_passwordField") (set_text q)) p, none), d)
  password_act_ui db submits d p = on_submit_ui db d p
