-- ===== src/Client/Application/Entering.antt =====
-- From the login window of client/src/main.cpp to a chat window.
use qt_messenger.Prelude.{
  suc, ◌≡◌, refl, ap, ◌∙◌, true, false, some, is_some, List, [], ◌∷◌, decide_iff,
}
use qt_messenger.Qt.{Qt}
use qt_messenger.Database.{Sql, check_user, user_exists, select_password, count_user}
use qt_messenger.Database.Users.{
  Answers, has_password, check_user-password_of, user_exists-password_of,
}
use qt_messenger.Client.QtText.{QtText}
use qt_messenger.Client.LoginWindow.{on_login_clicked, login_known, chat_opened}
use qt_messenger.Client.PasswordWindow.{open_chat, after_check, on_submit_clicked}
use qt_messenger.Client.NetworkClient.{connecting, connect_to_server}
use qt_messenger.Client.ChatController.{new_controller, set_username, connect_controller}
use qt_messenger.Client.ChatWindow.{ChatWindow, new_window, update_connection_status}
use qt_messenger.Client.Windows.{
  no_dialog, Act, at_login, at_password, types_username, clicks_login, types_password, submits,
  password_dialog,
}
use qt_messenger.Client.Application.{
  Application, click_login, enter, submit, in_login, if_free, in_password, if_password, act, play,
}

module _ ⦃qt : Qt⦄ where
  open qt use {QString}

  -- A user types a name, clicks to log in, types a password, and submits it.
  abbrev pub logging_in : QString → QString → List Act
  logging_in u p =
      at_login (types_username u)
      ∷ at_login clicks_login
      ∷ at_password (types_password p)
      ∷ at_password submits
      ∷ []

module _ ⦃qt : Qt⦄ ⦃text : QtText⦄ {Db : Type 0} ⦃sql : Sql Db⦄ where
  open qt use {QString, qstring_eq, trimmed, is_empty, to_std_string}
  open sql use {password_of}

  known :
      (u p : QString) (d : Db)
      → password_of d u ≡ some p
      → Answers (count_user u) d
      → user_exists u d ≡ (true, d)
  known u p d stored counts = user_exists-password_of u d counts ∙ ap (λ o. (is_some o, d)) stored

  valid :
      (u p : QString) (d : Db)
      → password_of d u ≡ some p
      → Answers (select_password u) d
      → check_user u p d ≡ (true, d)
  valid u p d stored selects =
      check_user-password_of u p d selects
      ∙ ap (λ o. (has_password o p, d)) stored
      ∙ ap (λ b. (b, d)) ((decide_iff (qstring_eq p p)).1 refl)

  -- What these acts make of the application.
  pub account_enters :
      (u p : QString) (a : Application Db)
      → a.login.is_visible ≡ true
      → a.dialog ≡ no_dialog
      → trimmed u ≡ u
      → trimmed p ≡ p
      → is_empty u ≡ false
      → is_empty p ≡ false
      → password_of a.db u ≡ some p
      → Answers (count_user u) a.db
      → Answers (select_password u) a.db
      → play (logging_in u p) a
        ≡ some (record a {
          login = chat_opened (record a.login { username_field = u });
          dialog = no_dialog;
          chat = some (open_chat u p).0;
          timers = suc a.timers;
        })
  unfolding play act if_free in_login click_login on_login_clicked login_known password_dialog
      if_password in_password submit enter on_submit_clicked after_check
  account_enters u p a visible free tu tp named secret stored counts selects =
      let k = known u p a.db stored counts in
      let v = valid u p a.db stored selects in rw (free, visible, tu, named, k, tp, secret, v) refl

  -- A user in the table who types the name and the password of the account into the login window,
  -- where no dialog is open, gets an open chat window without messages, whose controller has this name
  -- and whose client is connecting with this name and this password; the login window is hidden, with
  -- the name in its field, and no dialog is left open. The queries do not fail; name and password are
  -- not empty, and begin and end without blanks.
  pub account_opens_chat :
      (u p : QString) (a : Application Db)
      → a.login.is_visible ≡ true
      → a.dialog ≡ no_dialog
      → trimmed u ≡ u
      → trimmed p ≡ p
      → is_empty u ≡ false
      → is_empty p ≡ false
      → password_of a.db u ≡ some p
      → Answers (count_user u) a.db
      → Answers (select_password u) a.db
      → (w : ChatWindow) × (play (logging_in u p) a
          ≡ some (record a {
            login = record a.login { username_field = u; is_visible = false };
            dialog = no_dialog;
            chat = some w;
            timers = suc a.timers;
          }))
        × (w.is_open ≡ true)
        × (w.items ≡ [])
        × (w.controller.username ≡ to_std_string u)
        × (w.controller.network_client.socket ≡ some connecting)
        × (w.controller.network_client.username ≡ to_std_string u)
        × (w.controller.network_client.password ≡ to_std_string p)
  unfolding chat_opened open_chat new_window update_connection_status new_controller set_username
      connect_controller connect_to_server
  account_opens_chat u p a visible free tu tp named secret stored counts selects =
      let enters = account_enters u p a visible free tu tp named secret stored counts selects in
      ((open_chat u p).0, enters, refl, refl, refl, refl, refl, refl)
