-- ===== src/Client/RegisterWindow/Ui.antt =====
-- client/src/register_window.cpp: the widgets of the registration window, and its slot over them.
use qt_messenger.Prelude.{Bool, true, false, some, List, [], ◌∷◌, ◌||◌, Bytes, bytes, if◌then◌else◌}
use qt_messenger.Qt.{Qt}
use qt_messenger.Client.Widgets.{
  plain, label, line_edit, push_button, Style, Layout, box, end, add_widget, add_spacing, Element,
  element, Ui, with_variable, set_text, set_style, first, is_variable, said,
}
use qt_messenger.Client.Widgets.Children.{
  QtWidgets, Change, on_child, on_variable, on_window, in_order,
}
use qt_messenger.Client.Widgets.Runs.{Acting}
use qt_messenger.Database.{IDatabase}
use qt_messenger.Client.Windows.{RegisterAct, types_account, creates, times_out}

module _ ⦃qt : Qt⦄ ⦃widgets : QtWidgets⦄ where
  open qt use {QString, from_std_string, trimmed, is_empty}

  -- What `setupUi` creates, and how it lays it out.
  abbrev pub children : List Element
  children =
      record (element plain (bytes "mainContainer")) {
        name = bytes "mainContainer";
        fixed_width = some 350;
      }
      ∷ record (element label (bytes "titleLabel")) {
        text = from_std_string (bytes "Create Account");
        name = bytes "titleLabel";
        is_centered = true;
      }
      ∷ element plain (bytes "usernameContainer")
      ∷ record (element label (bytes "usernameIcon")) {
        text = from_std_string (240 ∷ 159 ∷ 145 ∷ 164 ∷ []);
        fixed_width = some 30;
        fixed_height = some 30;
        is_centered = true;
        name = bytes "usernameIcon";
      }
      ∷ record (element line_edit (bytes "m_usernameField")) {
        placeholder = bytes "Choose a username";
        min_height = 50;
      }
      ∷ element plain (bytes "passwordContainer")
      ∷ record (element label (bytes "passwordIcon")) {
        text = from_std_string (240 ∷ 159 ∷ 148 ∷ 146 ∷ []);
        fixed_width = some 30;
        fixed_height = some 30;
        is_centered = true;
        name = bytes "passwordIcon";
      }
      ∷ record (element line_edit (bytes "m_passwordField")) {
        is_secret = true;
        placeholder = bytes "Choose a password";
        min_height = 50;
      }
      ∷ record (element label (bytes "m_statusLabel")) {
        text = from_std_string (bytes "Fill in all fields");
        is_centered = true;
        name = bytes "statusLabel";
      }
      ∷ record (element push_button (bytes "m_registerButton")) {
        text = from_std_string (bytes "Register");
        min_height = 50;
      }
      ∷ record (element push_button (bytes "cancelButton")) {
        text = from_std_string (bytes "Cancel");
        min_height = 50;
        name = bytes "cancelButton";
      }
      ∷ []

  abbrev pub layouts : List (Bytes × Layout)
  layouts =
      (
        bytes "usernameContainer",
        (box true (some 10) (some (0, 0, 0, 0)) (
            add_widget (bytes "usernameIcon") false
              (add_widget (bytes "m_usernameField") false end))),
      )
      ∷ (
        bytes "passwordContainer",
        (box true (some 10) (some (0, 0, 0, 0)) (
            add_widget (bytes "passwordIcon") false
              (add_widget (bytes "m_passwordField") false end))),
      )
      ∷ (
        bytes "mainContainer",
        (box false (some 15) (some (25, 25, 25, 25)) (
            add_widget (bytes "titleLabel") true (
              add_spacing 20 (
                add_widget (bytes "usernameContainer") false (
                  add_spacing 10 (
                    add_widget (bytes "passwordContainer") false (
                      add_spacing 20 (
                        add_widget (bytes "m_statusLabel") true (
                          add_spacing 10 (
                            add_widget (bytes "m_registerButton") false
                              (add_widget (bytes "cancelButton") false end))))))))))),
      )
      ∷ (
        bytes "this",
        (box false (some 0) (some (20, 20, 20, 20)) (add_widget (bytes "mainContainer") true end)),
      )
      ∷ []

  -- `applyStyles`
  abbrev pub style_changes : List Change
  style_changes =
      on_window (λ (ui : Ui). record ui {
        sheet =
            record {
              selector = bytes "QDialog";
              declarations = ((bytes "background-color", bytes "#f0f2f5") ∷ []);
            }
            ∷ [];
      })
      ∷ on_child plain (bytes "mainContainer") (
          set_style (
            (bytes "background-color", bytes "white") ∷ (bytes "border-radius", bytes "30px") ∷ []))
      ∷ on_child label (bytes "titleLabel") (
          set_style (
            (bytes "font-size", bytes "24px")
            ∷ (bytes "font-weight", bytes "bold")
            ∷ (bytes "color", bytes "#179cde")
            ∷ (bytes "margin-bottom", bytes "10px")
            ∷ []))
      ∷ on_child label (bytes "usernameIcon")
          (set_style ((bytes "font-size", bytes "18px") ∷ (bytes "color", bytes "#179cde") ∷ []))
      ∷ on_child label (bytes "passwordIcon")
          (set_style ((bytes "font-size", bytes "18px") ∷ (bytes "color", bytes "#179cde") ∷ []))
      ∷ on_variable (bytes "m_statusLabel")
          (set_style ((bytes "font-size", bytes "14px") ∷ (bytes "color", bytes "#737373") ∷ []))
      ∷ on_variable (bytes "m_usernameField") (
          set_style (
            (bytes "border", bytes "1px solid #e0e0e0")
            ∷ (bytes "border-radius", bytes "25px")
            ∷ (bytes "padding", bytes "12px 20px")
            ∷ (bytes "font-size", bytes "14px")
            ∷ (bytes "background-color", bytes "#f5f7fa")
            ∷ []))
      ∷ on_variable (bytes "m_passwordField") (
          set_style (
            (bytes "border", bytes "1px solid #e0e0e0")
            ∷ (bytes "border-radius", bytes "25px")
            ∷ (bytes "padding", bytes "12px 20px")
            ∷ (bytes "font-size", bytes "14px")
            ∷ (bytes "background-color", bytes "#f5f7fa")
            ∷ []))
      ∷ on_variable (bytes "m_registerButton") (
          set_style (
            (bytes "background-color", bytes "#179cde")
            ∷ (bytes "color", bytes "white")
            ∷ (bytes "border", bytes "none")
            ∷ (bytes "border-radius", bytes "25px")
            ∷ (bytes "font-size", bytes "16px")
            ∷ (bytes "font-weight", bytes "bold")
            ∷ (bytes "margin", bytes "5px 0")
            ∷ []))
      ∷ on_child push_button (bytes "cancelButton") (
          set_style (
            (bytes "background-color", bytes "transparent")
            ∷ (bytes "color", bytes "#737373")
            ∷ (bytes "border", bytes "1px solid #d0d0d0")
            ∷ (bytes "border-radius", bytes "25px")
            ∷ (bytes "font-size", bytes "16px")
            ∷ (bytes "margin", bytes "5px 0")
            ∷ []))
      ∷ []

  abbrev pub apply_styles : Ui → Ui
  apply_styles = in_order style_changes

  -- What `setupUi` has made before it applies the styles.
  abbrev pub bare_ui : Ui
  bare_ui = record {
    is_shown = false;
    title = bytes "Create Account";
    size = (400, 550);
    children = children;
    layouts = layouts;
    sheet = [];
  }

  -- The constructor: `setupUi` with its styles, and the styles again.
  abbrev pub new_register_ui : Ui
  new_register_ui = apply_styles (apply_styles bare_ui)

  abbrev pub message_style : Bool → Style
  message_style is_error =
      if is_error
      then (bytes "font-size", bytes "14px") ∷ (bytes "color", bytes "#dc3545") ∷ []
      else (bytes "font-size", bytes "14px") ∷ (bytes "color", bytes "#28a745") ∷ []

  -- `showMessage`
  abbrev pub show_message_ui : Bytes → Bool → Ui → Ui
  show_message_ui message is_error =
      with_variable (bytes "m_statusLabel")
        (λ e. record e { text = from_std_string message; style = message_style is_error })

  -- A window that stands open: its widgets, and whether the timer that accepts it is started.
  pub record RegisterUi : Type 0 where
    pub ui : Ui
    pub accepts : Bool

  abbrev pub with_ui : (Ui → Ui) → RegisterUi → RegisterUi
  with_ui f r = record r { ui = f r.ui }

  -- What the answer of `addUser` leads to.
  unfoldable pub after_add_ui : Bool → RegisterUi → RegisterUi
  after_add_ui added r =
      if added
      then record (with_ui (show_message_ui (bytes "Registration successful!") false) r) {
        accepts = true;
      }
      else with_ui (show_message_ui (bytes "Registration failed") true) r

  unfoldable pub add_new_ui :
      {D : Type 0} → IDatabase D → QString → QString → Bool × D → RegisterUi → RegisterUi × D
  unfolding after_add_ui
  add_new_ui db username password (exists, d) r =
      let (added, d') = db.add_user username password d in
      if exists
      then (with_ui (show_message_ui (bytes "Username already exists") true) r, d)
      else (after_add_ui added r, d')

  -- `onRegisterClicked`, on what stands in the two fields
  unfoldable pub on_register_ui : {D : Type 0} → IDatabase D → D → RegisterUi → RegisterUi × D
  unfolding add_new_ui
  on_register_ui db d r =
      let username = trimmed (said (first (is_variable (bytes "m_usernameField")) r.ui.children)) in
      let password = trimmed (said (first (is_variable (bytes "m_passwordField")) r.ui.children)) in
      if is_empty username || is_empty password
      then (with_ui (show_message_ui (bytes "Please fill in all fields") true) r, d)
      else add_new_ui db username password (db.user_exists username d) r

  -- One act of the user, and whether the dialog is about to be accepted.
  unfoldable pub register_act_ui : {D : Type 0} → IDatabase D → Acting RegisterAct D RegisterUi Bool
  unfolding on_register_ui
  register_act_ui db (types_account u p) d r =
      let r' =
        with_ui
          (λ ui.
            with_variable (bytes "m_passwordField") (set_text p)
              (with_variable (bytes "m_usernameField") (set_text u) ui))
          r in
      ((r', r'.accepts), d)
  register_act_ui db creates d r = let q = on_register_ui db d r in ((q.0, q.0.accepts), q.1)
  register_act_ui db times_out d r = ((r, r.accepts), d)
