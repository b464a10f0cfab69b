-- ===== src/Client/Application.antt =====
-- client/src/main.cpp and the windows that it leads to: login_window.cpp, password_window.cpp,
-- register_window.cpp and chat_window.cpp, with what Qt does between them. A dialog that runs in
-- `exec` blocks the window behind it. The program ends with its last window, or by an error.
pub mod Credentials
pub mod Kept
pub mod Consistent
pub mod Dialogs
pub mod Accounts
pub mod Entering
use qt_messenger.Prelude.{ℕ, zero, suc, false, Option, none, some, List, [], ◌∷◌, if◌then◌else◌}
use qt_messenger.Qt.{Qt}
use qt_messenger.Database.{Sql, database_manager, initialize}
use qt_messenger.Client.NetworkClient.{Event}
use qt_messenger.Client.QtText.{QtText}
use qt_messenger.Client.ChatWindow.{ChatWindow, handle_events}
use qt_messenger.Client.ChatWindow.Wiring.{Action, emit_signal}
use qt_messenger.Client.LoginWindow.{LoginWindow, on_login_clicked, chat_opened}
use qt_messenger.Client.RegisterWindow.{RegisterWindow, on_register_clicked}
use qt_messenger.Client.PasswordWindow.{PasswordWindow, on_submit_clicked}
use qt_messenger.Client.Windows.{
  LoginAct, PasswordAct, RegisterAct, ChatAct, Act, new_login, notify, network_events, leaves,
  respond, Dialog, password_dialog, register_dialog, hear, types_username, clicks_login,
  clicks_register, types_password, submits, types_account, creates, times_out, types_text, signals,
  notices, at_login, at_password, at_register, at_chat, cancels, closes_hidden, quits, no_dialog,
  asks_password, registers,
}

module _ ⦃qt : Qt⦄ ⦃text : QtText⦄ (Db : Type 0) where
  -- `timers`: the password windows whose timer has not fired yet.
  pub record Application : Type 0 where
    pub login : LoginWindow
    pub dialog : Dialog
    pub chat : Option ChatWindow
    pub timers : ℕ
    pub db : Db

module _ ⦃qt : Qt⦄ ⦃text : QtText⦄ {Db : Type 0} ⦃sql : Sql Db⦄ where
  open qt use {QString, DateTime}

  -- `main`, up to the event loop
  unfoldable pub launch : Db → Option (Application Db)
  launch d = elim (initialize d) [
    | none ↦ none
    | some d' ↦
        some (record { login = new_login; dialog = no_dialog; chat = none; timers = 0; db = d' })
  ]

  -- The slots of the login window.
  unfoldable pub click_login : Application Db → Application Db
  unfolding password_dialog
  click_login a =
      let ((login, username), d) = on_login_clicked database_manager a.db a.login in
      record a { login = login; dialog = password_dialog username; db = d }

  -- The password window has opened a chat window, or not.
  unfoldable pub enter :
      PasswordWindow → Option (ChatWindow × List Event) → Application Db → Application Db
  enter w none a = record a { dialog = asks_password w }
  enter w (some (chat, es)) a = record a {
    login = chat_opened a.login;
    dialog = no_dialog;
    chat = some chat;
    timers = suc a.timers;
  }

  unfoldable pub submit : PasswordWindow → Application Db → Application Db
  unfolding enter
  submit w a =
      let ((w', opened), d) = on_submit_clicked database_manager a.db w in
      enter w' opened (record a { db = d })

  unfoldable pub create_account : RegisterWindow → Application Db → Application Db
  create_account w a =
      let (w', d) = on_register_clicked database_manager a.db w in
      record a { dialog = registers w'; db = d }

  -- The login window takes input while it is visible and no dialog is before it.
  unfoldable pub in_login : LoginAct → Application Db → Application Db
  unfolding click_login
  in_login (types_username q) a = record a { login = record a.login { username_field = q } }
  in_login clicks_login a = click_login a
  in_login clicks_register a = record a { dialog = register_dialog }

  unfoldable pub if_free : LoginAct → Dialog → Application Db → Application Db
  unfolding in_login
  if_free x no_dialog a = if a.login.is_visible then in_login x a else a
  if_free x (asks_password w) a = a
  if_free x (registers w) a = a

  unfoldable pub in_password : PasswordAct → PasswordWindow → Application Db → Application Db
  unfolding submit
  in_password (types_password q) w a = record a {
    dialog = asks_password (record w { password_field = q });
  }
  in_password submits w a = submit w a

  unfoldable pub if_password : PasswordAct → Dialog → Application Db → Application Db
  unfolding in_password
  if_password x no_dialog a = a
  if_password x (asks_password w) a = in_password x w a
  if_password x (registers w) a = a

  unfoldable pub in_register : RegisterAct → RegisterWindow → Application Db → Application Db
  unfolding create_account
  in_register (types_account u p) w a = record a {
    dialog = registers (record w { username_field = u; password_field = p });
  }
  in_register creates w a = create_account w a
  in_register times_out w a = if w.accepts then record a { dialog = no_dialog } else a

  unfoldable pub if_register : RegisterAct → Dialog → Application Db → Application Db
  unfolding in_register
  if_register x no_dialog a = a
  if_register x (asks_password w) a = a
  if_register x (registers w) a = in_register x w a

  -- A chat window has run its slots.
  unfoldable pub conclude :
      List Action → Option ChatWindow → Application Db → Option (Application Db)
  conclude as' none a = none
  conclude as' (some w) a =
      some (record a { login = respond as' a.login; chat = if leaves as' then none else some w })

  -- The dialogs of a slot are part of it: a notice comes before or after it.
  unfoldable pub in_chat : ChatAct → ChatWindow → Application Db → Option (Application Db)
  unfolding conclude
  in_chat (types_text q) w a = some (record a { chat = some (record w { input_field = q }) })
  in_chat (signals answers now s) w a =
      let (w', as') = emit_signal answers s w in
      conclude as' (handle_events now (network_events as') w') a
  in_chat (notices now n) w a = conclude [] (hear now w (notify n w.controller.network_client)) a

  unfoldable pub if_chat : ChatAct → Option ChatWindow → Application Db → Option (Application Db)
  unfolding in_chat
  if_chat x none a = some a
  if_chat x (some w) a = in_chat x w a

  -- The timer of a password window closes the login window; without a chat window that is the last.
  unfoldable pub close_hidden : ℕ → Option ChatWindow → Application Db → Option (Application Db)
  close_hidden zero _ a = some a
  close_hidden (suc n) none a = none
  close_hidden (suc n) (some w) a =
      some (record a { login = record a.login { is_visible = false }; timers = n })

  unfoldable pub act : Act → Application Db → Option (Application Db)
  unfolding if_free if_password if_register if_chat close_hidden
  act (at_login x) a = some (if_free x a.dialog a)
  act (at_password x) a = some (if_password x a.dialog a)
  act (at_register x) a = some (if_register x a.dialog a)
  act (at_chat x) a = if_chat x a.chat a
  act cancels a = some (record a { dialog = no_dialog })
  act closes_hidden a = close_hidden a.timers a.chat a
  act quits a = none

  abbrev pub and_play :
      (Application Db → Option (Application Db)) → Option (Application Db) → Option (Application Db)
  and_play next none = none
  and_play next (some a) = next a

  -- `none`: the program has ended.
  unfoldable pub play : List Act → Application Db → Option (Application Db)
  unfolding act
  play [] a = some a
  play (x ∷ xs) a = and_play (play xs) (act x a)
