-- ===== src/Client/PasswordWindow.antt =====
-- client/src/password_window.cpp: the slot of the submit button.
pub mod Ui
pub mod Shows
use qt_messenger.Prelude.{Bool, true, Option, none, some, List, bytes, Bytes, if◌then◌else◌}
use qt_messenger.Qt.{Qt}
use qt_messenger.Database.{IDatabase}
use qt_messenger.Client.NetworkClient.{Event, new_client}
use qt_messenger.Client.ChatController.{set_username, connect_controller}
use qt_messenger.Client.QtText.{QtText}
use qt_messenger.Client.ChatWindow.{ChatWindow, new_window}

module _ ⦃qt : Qt⦄ ⦃text : QtText⦄ where
  open qt use {QString, from_std_string, to_std_string, trimmed, is_empty}

  -- `error`: the text of the error label once it is visible.
  pub record PasswordWindow : Type 0 where
    pub username : QString
    pub password_field : QString
    pub error : Option QString
    pub accepted : Bool

  unfoldable pub show_error : Bytes → PasswordWindow → PasswordWindow
  show_error message w = record w { error = some (from_std_string message) }

  -- The new chat window, and what its client does.
  unfoldable pub open_chat : QString → QString → ChatWindow × List Event
  open_chat username password =
      let w = new_window new_client in
      let (controller, es) =
        connect_controller (bytes "127.0.0.1") 12345 (to_std_string username)
          (to_std_string password) (set_username (to_std_string username) w.controller) in
      (record w { controller = controller }, es)

  unfoldable pub after_check :
      QString → Bool → PasswordWindow → PasswordWindow × Option (ChatWindow × List Event)
  unfolding show_error open_chat
  after_check password valid w =
      if valid
      then (record w { accepted = true }, some (open_chat w.username password))
      else (show_error (bytes "Incorrect password") w, none)

  -- `createTcpClient` always gives a client.
  unfoldable pub on_submit_clicked :
      {D : Type 0}
      → IDatabase D
      → D
      → PasswordWindow
      → (PasswordWindow × Option (ChatWindow × List Event)) × D
  unfolding after_check
  on_submit_clicked db d w =
      let password = trimmed w.password_field in
      let (valid, d') = db.check_user w.username password d in
      if is_empty password
      then ((show_error (bytes "Please enter a password") w, none), d)
      else (after_check password valid w, d')
