-- ===== src/Client/LoginWindow.antt =====
-- client/src/login_window.cpp: the slots of the login window.
pub mod Sheet
pub mod Ui
pub mod Shows
use qt_messenger.Prelude.{
  Bool, true, false, not, Option, none, some, [], bytes, Bytes, if◌then◌else◌,
}
use qt_messenger.Qt.{Qt}
use qt_messenger.Database.{IDatabase}

module _ ⦃qt : Qt⦄ where
  open qt use {QString, from_std_string, trimmed, is_empty}

  -- `errorState` also chooses the style of the title.
  pub record LoginWindow : Type 0 where
    pub username_field : QString
    pub title : QString
    pub error_state : Bool
    pub is_visible : Bool

  unfoldable pub display_error_message : Bytes → LoginWindow → LoginWindow
  display_error_message message w = record w { title = from_std_string message; error_state = true }

  unfoldable pub clear_error_message : LoginWindow → LoginWindow
  clear_error_message w = record w {
    title = from_std_string (bytes "QtMessenger");
    error_state = false;
  }

  -- The password window opens for the user, if there is one.
  unfoldable pub login_known : QString → Bool → LoginWindow → LoginWindow × Option QString
  unfolding display_error_message
  login_known username exists w =
      if not exists
      then (display_error_message (bytes "User does not exist") w, none)
      else (w, some username)

  unfoldable pub on_login_clicked :
      {D : Type 0} → IDatabase D → D → LoginWindow → (LoginWindow × Option QString) × D
  unfolding login_known
  on_login_clicked db d w =
      let username = trimmed w.username_field in
      let (exists, d') = db.user_exists username d in
      if is_empty username
      then ((display_error_message (bytes "Please enter a username") w, none), d)
      else (login_known username exists w, d')

  -- `chatWindowOpened`, and `loggedOut` of that window
  unfoldable pub chat_opened : LoginWindow → LoginWindow
  chat_opened w = record w { is_visible = false }

  unfoldable pub chat_logged_out : LoginWindow → LoginWindow
  unfolding clear_error_message
  chat_logged_out w =
      clear_error_message (record w { is_visible = true; username_field = from_std_string [] })
