-- ===== src/Client/Application/Dialogs.antt =====
-- The windows of client/src/main.cpp fit together: login_window.cpp, password_window.cpp and
-- register_window.cpp.
use qt_messenger.Prelude.{◌≡◌, refl, ap, subst, ◌∙◌, true, false, not, Option, List, if_intro}
use qt_messenger.Qt.{Qt}
use qt_messenger.Database.{Sql, database_manager, check_user, user_exists}
use qt_messenger.Database.Users.{check_user-accepts, check_user-same}
use qt_messenger.Client.NetworkClient.{
  Event, connect_to_server, set_message_callback, set_connection_callback,
  set_disconnected_callback, set_user_list_callback,
}
use qt_messenger.Client.ChatController.{
  new_controller, setup_network_callbacks, set_username, connect_controller,
}
use qt_messenger.Client.QtText.{QtText}
use qt_messenger.Client.ChatWindow.{ChatWindow, new_window, update_connection_status}
use qt_messenger.Client.LoginWindow.{
  LoginWindow, on_login_clicked, login_known, display_error_message, chat_opened,
}
use qt_messenger.Client.PasswordWindow.{
  PasswordWindow, open_chat, after_check, show_error, on_submit_clicked,
}
use qt_messenger.Client.Windows.{
  Dialog, no_dialog, asks_password, registers, LoginAct, PasswordAct, RegisterAct, types_username,
  clicks_login, clicks_register, types_password, submits, types_account, creates, times_out,
  password_dialog, register_dialog,
}
use qt_messenger.Client.Application.{
  if_free, if_password, if_register, in_password, in_register, Application, click_login, enter,
  submit, create_account, in_login,
}
use qt_messenger.Client.Application.Consistent.{
  NamesUser, Modal, Named, Modal-visible, password_dialog-Named, nothing, HasAccount, IsConsistent,
  no_chat, with_db,
}

module _ ⦃qt : Qt⦄ ⦃text : QtText⦄ {Db : Type 0} ⦃sql : Sql Db⦄ where
  open qt use {QString, DateTime, trimmed, is_empty, to_std_string}

  on_login_clicked-NamesUser :
      (d : Db) (l : LoginWindow)
      → let r = on_login_clicked database_manager d l in
        (r.0.0.is_visible ≡ l.is_visible) × NamesUser r.0.1
  unfolding on_login_clicked login_known display_error_message
  on_login_clicked-NamesUser d l =
      let u = trimmed l.username_field in
      if_intro
        (λ (r : (LoginWindow × Option QString) × Db).
          (r.0.0.is_visible ≡ l.is_visible) × NamesUser r.0.1)
        (is_empty u) (λ _. (refl, tt))
        (λ named.
          if_intro
            (λ (r : LoginWindow × Option QString). (r.0.is_visible ≡ l.is_visible) × NamesUser r.1)
            (not (user_exists u d).0) (λ _. (refl, tt)) (λ _. (refl, named)))

  click_login-IsConsistent :
      (a : Application Db)
      → IsConsistent a
      → a.login.is_visible ≡ true
      → IsConsistent (click_login a)
  unfolding click_login
  click_login-IsConsistent a h visible =
      let r = on_login_clicked database_manager a.db a.login in
      let k = on_login_clicked-NamesUser a.db a.login in
      record {
        one_window = k.0 ∙ h.one_window;
        modal = Modal-visible (password_dialog r.0.1) r.0.0.is_visible (k.0 ∙ visible);
        named = password_dialog-Named r.0.1 k.1;
        accounts = nothing (HasAccount r.1) a.chat (no_chat a h visible);
      }

  -- A chat that opens has the account that was checked.
  open_chat-HasAccount :
      (u p : QString) (d : Db)
      → is_empty u ≡ false
      → is_empty p ≡ false
      → (check_user u p d).0 ≡ true
      → HasAccount (check_user u p d).1 (open_chat u p).0
  unfolding open_chat new_window new_controller setup_network_callbacks set_username
      connect_controller connect_to_server update_connection_status set_message_callback
      set_connection_callback set_disconnected_callback set_user_list_callback
  open_chat-HasAccount u p d named secret valid = record {
    user = u;
    password = p;
    named = named;
    secret = secret;
    stored = ap (λ e. sql.password_of e u) (check_user-same u p d) ∙ check_user-accepts u p d valid;
    same = refl;
  }

  submit-IsConsistent :
      (w : PasswordWindow) (a : Application Db)
      → IsConsistent a
      → a.login.is_visible ≡ true
      → is_empty w.username ≡ false
      → IsConsistent (submit w a)
  unfolding submit enter on_submit_clicked after_check show_error chat_opened
  submit-IsConsistent w a h visible named =
      let p = trimmed w.password_field in
      let checked = check_user w.username p a.db in
      if_intro
        (λ (r : (PasswordWindow × Option (ChatWindow × List Event)) × Db).
          IsConsistent (enter r.0.0 r.0.1 (record a { db = r.1 })))
        (is_empty p) (λ _. with_db a _ a.db h visible named)
        (λ secret.
          if_intro
            (λ (r : PasswordWindow × Option (ChatWindow × List Event)).
              IsConsistent (enter r.0 r.1 (record a { db = checked.1 })))
            checked.0
            (λ valid. record {
              one_window = refl;
              modal = tt;
              named = tt;
              accounts = open_chat-HasAccount w.username p a.db named secret valid;
            })
            (λ _. with_db a _ checked.1 h visible named))

  pub if_free-IsConsistent :
      (x : LoginAct) (before : Dialog) (a : Application Db)
      → IsConsistent a
      → IsConsistent (if_free x before a)
  unfolding if_free in_login register_dialog
  if_free-IsConsistent x no_dialog a h =
      if_intro IsConsistent a.login.is_visible (λ visible. free x visible) (λ _. h)
    where
      free : (x : LoginAct) → a.login.is_visible ≡ true → IsConsistent (in_login x a)
      free (types_username q) visible = record {
        one_window = h.one_window;
        modal = h.modal;
        named = h.named;
        accounts = h.accounts;
      }
      free clicks_login visible = click_login-IsConsistent a h visible
      free clicks_register visible = with_db a register_dialog a.db h visible tt
  if_free-IsConsistent x (asks_password w) a h = h
  if_free-IsConsistent x (registers w) a h = h

  -- What stands before the login window.
  behind :
      (before : Dialog) (a : Application Db)
      → IsConsistent a
      → a.dialog ≡ before
      → Modal before a.login.is_visible × Named before
  behind before a h e = subst (λ x. Modal x a.login.is_visible × Named x) e (h.modal, h.named)

  pub if_password-IsConsistent :
      (x : PasswordAct) (before : Dialog) (a : Application Db)
      → IsConsistent a
      → a.dialog ≡ before
      → IsConsistent (if_password x before a)
  unfolding if_password in_password
  if_password-IsConsistent x no_dialog a h e = h
  if_password-IsConsistent (types_password q) (asks_password w) a h e =
      let k = behind (asks_password w) a h e in with_db a _ a.db h k.0 k.1
  if_password-IsConsistent submits (asks_password w) a h e =
      let k = behind (asks_password w) a h e in submit-IsConsistent w a h k.0 k.1
  if_password-IsConsistent x (registers w) a h e = h

  pub if_register-IsConsistent :
      (x : RegisterAct) (before : Dialog) (a : Application Db)
      → IsConsistent a
      → a.dialog ≡ before
      → IsConsistent (if_register x before a)
  unfolding if_register in_register create_account
  if_register-IsConsistent x no_dialog a h e = h
  if_register-IsConsistent x (asks_password w) a h e = h
  if_register-IsConsistent (types_account u p) (registers w) a h e =
      with_db a _ a.db h (behind (registers w) a h e).0 tt
  if_register-IsConsistent creates (registers w) a h e =
      with_db a _ _ h (behind (registers w) a h e).0 tt
  if_register-IsConsistent times_out (registers w) a h e =
      if_intro IsConsistent w.accepts
        (λ _. with_db a no_dialog a.db h (behind (registers w) a h e).0 tt) (λ _. h)
