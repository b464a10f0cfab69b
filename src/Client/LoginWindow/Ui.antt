-- ===== src/Client/LoginWindow/Ui.antt =====
-- client/src/login_window.cpp: the widgets of the login window, and its slots over them. The
-- property `errorState` of the title is left out: the title has a style sheet of its own that says the
-- same.
use qt_messenger.Prelude.{
  Bool, true, false, Option, none, some, List, [], ◌∷◌, not, Bytes, bytes, if◌then◌else◌,
}
use qt_messenger.Qt.{Qt}
use qt_messenger.Client.Widgets.{
  plain, label, line_edit, push_button, Style, Layout, box, end, add_widget, add_spacing,
  add_stretch, Element, element, Ui, with_variable, set_text, first, is_variable, said,
}
use qt_messenger.Client.Widgets.Runs.{Acting}
use qt_messenger.Database.{IDatabase}
use qt_messenger.Client.LoginWindow.Sheet.{style_rules}

module _ ⦃qt : Qt⦄ where
  open qt use {QString, from_std_string, trimmed, is_empty}

  -- What `setupUi` creates, and how it lays it out.
  abbrev pub children : List Element
  children =
      record (element label (bytes "m_titleLabel")) {
        text = from_std_string (bytes "QtMessenger");
        is_centered = true;
        name = bytes "titleLabel";
      }
      ∷ record (element label (bytes "infoLabel")) {
        text = from_std_string (bytes "Simple and convenient messenger");
        is_centered = true;
        name = bytes "infoLabel";
      }
      ∷ element plain (bytes "usernameContainer")
      ∷ record (element label (bytes "usernameIcon")) {
        text = from_std_string (240 ∷ 159 ∷ 145 ∷ 164 ∷ []);
        fixed_width = some 30;
        fixed_height = some 30;
        is_centered = true;
        name = bytes "usernameIcon";
      }
      ∷ record (element line_edit (bytes "m_usernameField")) {
        placeholder = bytes "Username";
        min_height = 50;
      }
      ∷ record (element push_button (bytes "m_loginButton")) {
        text = from_std_string (bytes "Login");
        min_height = 50;
      }
      ∷ record (element push_button (bytes "m_registerButton")) {
        text = from_std_string (bytes "Register");
        min_height = 50;
      }
      ∷ record (element label (bytes "versionLabel")) {
        text = from_std_string (bytes "Version 1.0.0");
        is_centered = true;
        name = bytes "versionLabel";
      }
      ∷ record (element label (bytes "copyrightLabel")) {
        text = from_std_string (
            194 ∷ 169 ∷ 32 ∷ 50 ∷ 48 ∷ 50 ∷ 53 ∷ 32 ∷ 68 ∷ 97 ∷ 110 ∷ 105 ∷ 105 ∷ 108 ∷ 32 ∷ 78
            ∷ 105 ∷ 107 ∷ 111 ∷ 108 ∷ 97 ∷ 101 ∷ 118 ∷ []);
        is_centered = true;
        name = bytes "copyrightLabel";
      }
      ∷ element plain (bytes "centralWidget")
      ∷ record (element plain (bytes "formContainer")) {
        name = bytes "formContainer";
        fixed_width = some 380;
      }
      ∷ element plain (bytes "bottomContainer")
      ∷ []

  abbrev pub layouts : List (Bytes × Layout)
  layouts =
      (
        bytes "usernameContainer",
        (box true (some 10) (some (0, 0, 0, 0)) (
            add_widget (bytes "usernameIcon") false
              (add_widget (bytes "m_usernameField") false end))),
      )
      ∷ (
        bytes "centralWidget",
        (box false none (some (20, 20, 20, 20)) (
            add_stretch (
              add_widget (bytes "formContainer") true
                (add_stretch (add_widget (bytes "bottomContainer") false end))))),
      )
      ∷ (
        bytes "formContainer",
        (box false (some 15) (some (30, 30, 30, 30)) (
            add_widget (bytes "m_titleLabel") true (
              add_widget (bytes "infoLabel") true (
                add_spacing 20 (
                  add_widget (bytes "usernameContainer") false (
                    add_spacing 15 (
                      add_widget (bytes "m_loginButton") false
                        (add_widget (bytes "m_registerButton") false end)))))))),
      )
      ∷ (
        bytes "bottomContainer",
        (box false (some 5) none (
            add_widget (bytes "versionLabel") false
              (add_widget (bytes "copyrightLabel") false end))),
      )
      ∷ []

  -- `applyStyles`
  abbrev pub apply_styles : Ui → Ui
  apply_styles ui = record ui { sheet = style_rules }

  -- The constructor: `setupUi` with its styles, and the styles again. The program shows the window.
  abbrev pub new_login_ui : Ui
  new_login_ui =
      record (apply_styles (
        apply_styles (record {
          is_shown = false;
          title = bytes "Qt Chat App - Login";
          size = (450, 650);
          children = children;
          layouts = layouts;
          sheet = [];
        }))) { is_shown = true }

  -- `displayErrorMessage`, `clearErrorMessage`
  abbrev pub error_style : Style
  error_style = (bytes "color", bytes "#dc3545") ∷ (bytes "font-size", bytes "18px") ∷ []

  abbrev pub title_style : Style
  title_style =
      (bytes "font-size", bytes "28px")
      ∷ (bytes "font-weight", bytes "bold")
      ∷ (bytes "color", bytes "#179cde")
      ∷ (bytes "margin-bottom", bytes "10px")
      ∷ []

  abbrev pub display_error_ui : Bytes → Ui → Ui
  display_error_ui message =
      with_variable (bytes "m_titleLabel")
        (λ e. record e { text = from_std_string message; style = error_style })

  abbrev pub clear_error_ui : Ui → Ui
  clear_error_ui =
      with_variable (bytes "m_titleLabel")
        (λ e. record e { text = from_std_string (bytes "QtMessenger"); style = title_style })

  -- The password window opens for the user, if there is one.
  unfoldable pub login_known_ui : QString → Bool → Ui → Ui × Option QString
  login_known_ui username exists ui =
      if not exists
      then (display_error_ui (bytes "User does not exist") ui, none)
      else (ui, some username)

  -- `onLoginClicked`, on what stands in `m_usernameField`
  unfoldable pub on_login_ui : {D : Type 0} → IDatabase D → D → Ui → (Ui × Option QString) × D
  unfolding login_known_ui
  on_login_ui db d ui =
      let username = trimmed (said (first (is_variable (bytes "m_usernameField")) ui.children)) in
      let (exists, d') = db.user_exists username d in
      if is_empty username
      then ((display_error_ui (bytes "Please enter a username") ui, none), d)
      else (login_known_ui username exists ui, d')

  -- What happens to the window: the user types, and clicks; its chat window opens, and logs out.
  pub data LoginEvent : Type 0 where
    typed : QString → LoginEvent
    clicked opened_chat left_chat : LoginEvent

  unfoldable pub login_act_ui : {D : Type 0} → IDatabase D → Acting LoginEvent D Ui (Option QString)
  unfolding on_login_ui
  login_act_ui db (typed q) d ui =
      ((with_variable (bytes "m_usernameField") (set_text q) ui, none), d)
  login_act_ui db clicked d ui = on_login_ui db d ui
  login_act_ui db opened_chat d ui = ((record ui { is_shown = false }, none), d)
  login_act_ui db left_chat d ui = (
    (
      clear_error_ui (
          with_variable (bytes "m_usernameField") (set_text (from_std_string []))
            (record ui { is_shown = true })),
      none,
    ),
    d,
  )
