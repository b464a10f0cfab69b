-- ===== src/Client/RegisterWindow.antt =====
-- client/src/register_window.cpp: the slot of the register button.
pub mod Ui
pub mod Shows
use qt_messenger.Prelude.{Bool, true, false, ◌||◌, bytes, Bytes, if◌then◌else◌}
use qt_messenger.Qt.{Qt}
use qt_messenger.Database.{IDatabase}

module _ ⦃qt : Qt⦄ where
  open qt use {QString, from_std_string, trimmed, is_empty}

  -- `accepts`: the timer that accepts the dialog is started.
  pub record RegisterWindow : Type 0 where
    pub username_field : QString
    pub password_field : QString
    pub status : QString
    pub status_is_error : Bool
    pub accepts : Bool

  unfoldable pub show_message : Bytes → Bool → RegisterWindow → RegisterWindow
  show_message message is_error w = record w {
    status = from_std_string message;
    status_is_error = is_error;
  }

  -- What the answer of `addUser` leads to.
  unfoldable pub after_add : Bool → RegisterWindow → RegisterWindow
  unfolding show_message
  after_add added w =
      if added
      then record (show_message (bytes "Registration successful!") false w) { accepts = true }
      else show_message (bytes "Registration failed") true w

  unfoldable pub add_new :
      {D : Type 0}
      → IDatabase D
      → QString
      → QString
      → Bool × D
      → RegisterWindow
      → RegisterWindow × D
  unfolding after_add
  add_new db username password (exists, d) w =
      let (added, d') = db.add_user username password d in
      if exists
      then (show_message (bytes "Username already exists") true w, d)
      else (after_add added w, d')

  unfoldable pub on_register_clicked :
      {D : Type 0} → IDatabase D → D → RegisterWindow → RegisterWindow × D
  unfolding add_new
  on_register_clicked db d w =
      let username = trimmed w.username_field in
      let password = trimmed w.password_field in
      if is_empty username || is_empty password
      then (show_message (bytes "Please fill in all fields") true w, d)
      else add_new db username password (db.user_exists username d) w
