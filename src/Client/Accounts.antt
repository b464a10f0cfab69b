-- ===== src/Client/Accounts.antt =====
-- Registering, logging in and connecting: register_window.cpp, login_window.cpp and
-- password_window.cpp over database_manager.cpp, and the server's check of what the client sends.
use qt_messenger.Prelude.{
  if◌then◌else◌, sym, ℕ, [], ◌∷◌, append-nil, ◌≡◌, refl, ap, ap₂, subst, ◌∙◌, Bool, true, false,
  ◌||◌, some, decide_iff, if_intro,
}
use qt_messenger.Qt.{Qt}
use qt_messenger.Database.{
  Sql, database_manager, select_password, count_user, check_user, user_exists, add_user,
}
use qt_messenger.Database.Users.{Answers, check_user-add_user}
use qt_messenger.Client.QtText.{QtText}
use qt_messenger.Client.LoginWindow.{LoginWindow, login_known, on_login_clicked}
use qt_messenger.Client.RegisterWindow.{
  RegisterWindow, after_add, add_new, on_register_clicked, show_message,
}
use qt_messenger.Client.PasswordWindow.{PasswordWindow, open_chat, after_check, on_submit_clicked}
use qt_messenger.Message.Texts.{IsText}
use qt_messenger.Client.AuthHandler.{send_credentials}
use qt_messenger.Client.NetworkClient.{
  wrote, connection_status_changed, calls_connection, on_connected, connect_to_server,
  set_message_callback, set_connection_callback, set_disconnected_callback, set_user_list_callback,
}
use qt_messenger.Client.ChatController.{
  new_controller, setup_network_callbacks, set_username, connect_controller,
}
use qt_messenger.Client.ChatWindow.{new_window, update_connection_status}
use qt_messenger.Server.Auth.{handle_credentials-send_credentials}
use qt_messenger.Server.{Server, CheckUser, authenticate_client, handle_credentials, admit, closed}

neither : (a b : Bool) → (a || b) ≡ false → (a ≡ false) × (b ≡ false)
neither false b e = (refl, e)
neither true b e = cc

module _ ⦃qt : Qt⦄ {Db : Type 0} ⦃sql : Sql Db⦄ where
  open qt use {QString, trimmed, is_empty, from_std_string, to_std_string}

  -- A registration that succeeded: what the slot did.
  record Registered (u p : QString) (d d' : Db) : Type 0 where
    named : is_empty u ≡ false
    secret : is_empty p ≡ false
    added : (add_user u p (user_exists u d).1).0 ≡ true
    result : d' ≡ (add_user u p (user_exists u d).1).1

  register-Registered :
      (d : Db) (r : RegisterWindow)
      → r.accepts ≡ false
      → (on_register_clicked database_manager d r).0.accepts ≡ true
      → Registered
          (trimmed r.username_field)
          (trimmed r.password_field)
          d
          (on_register_clicked database_manager d r).1
  unfolding on_register_clicked add_new after_add show_message
  register-Registered d r before =
      let u = trimmed r.username_field in
      let p = trimmed r.password_field in
      let d' = (add_user u p (user_exists u d).1).1 in
      if_intro (λ (x : RegisterWindow × Db). x.0.accepts ≡ true → Registered u p d x.1)
        (is_empty u || is_empty p) (λ _ e. absurd (cc))
        (λ filled.
          if_intro (λ (x : RegisterWindow × Db). x.0.accepts ≡ true → Registered u p d x.1)
            (user_exists u d).0 (λ _ e. absurd (cc))
            (λ new.
              if_intro (λ (x : RegisterWindow). x.accepts ≡ true → Registered u p d d')
                (add_user u p (user_exists u d).1).0
                (λ yes_ _. record {
                  named = (neither _ _ filled).0;
                  secret = (neither _ _ filled).1;
                  added = yes_;
                  result = refl;
                })
                (λ _ e. absurd (cc))))

  login_opens :
      (u : QString) (d : Db) (l : LoginWindow)
      → trimmed l.username_field ≡ u
      → is_empty u ≡ false
      → (user_exists u d).0 ≡ true
      → (on_login_clicked database_manager d l).0.1 ≡ some u
  unfolding on_login_clicked login_known
  login_opens u d l typed named known = rw (typed, named, known) refl

module _ ⦃qt : Qt⦄ ⦃text : QtText⦄ {Db : Type 0} ⦃sql : Sql Db⦄ where
  open qt use {QString, qstring_eq, trimmed, is_empty, from_std_string, to_std_string}

  submit_opens :
      (p : QString) (d : Db) (w : PasswordWindow)
      → trimmed w.password_field ≡ p
      → is_empty p ≡ false
      → (check_user w.username p d).0 ≡ true
      → (on_submit_clicked database_manager d w).0.1 ≡ some (open_chat w.username p)
  unfolding on_submit_clicked after_check
  submit_opens p d w typed secret valid = rw (typed, secret, valid) refl

  -- A user who registered with success can log in: as long as the queries do not fail, the login
  -- window with the same name opens the password window, the password window with the same password
  -- opens a chat with that name and password, and a server over the same database accepts these, if
  -- they survive the conversion to bytes and back.
  pub registered_user_logs_in :
      (d : Db) (r : RegisterWindow) (l : LoginWindow) (w : PasswordWindow)
      → r.accepts ≡ false
      → (on_register_clicked database_manager d r).0.accepts ≡ true
      → trimmed l.username_field ≡ trimmed r.username_field
      → w.username ≡ trimmed r.username_field
      → trimmed w.password_field ≡ trimmed r.password_field
      → Answers (count_user (trimmed r.username_field)) (on_register_clicked database_manager d r).1
      → Answers
          (select_password (trimmed r.username_field))
          (on_register_clicked database_manager d r).1
      → from_std_string (to_std_string (trimmed r.username_field)) ≡ trimmed r.username_field
      → from_std_string (to_std_string (trimmed r.password_field)) ≡ trimmed r.password_field
      → let d' = (on_register_clicked database_manager d r).1 in
        ((on_login_clicked database_manager d' l).0.1 ≡ some (trimmed r.username_field))
        × ((on_submit_clicked database_manager d' w).0.1
            ≡ some (open_chat (trimmed r.username_field) (trimmed r.password_field)))
        × (authenticate_client
              (some (λ u p. (check_user u p d').0))
              (to_std_string (trimmed r.username_field))
              (to_std_string (trimmed r.password_field))
            ≡ true)
  unfolding authenticate_client
  registered_user_logs_in d r l w before success name name' secret counts selects back back' =
      let u = trimmed r.username_field in
      let p = trimmed r.password_field in
      let d' = (on_register_clicked database_manager d r).1 in
      let k : Registered u p d d' = register-Registered d r before success in
      let known =
        check_user-add_user u p p (user_exists u d).1 k.added
          (subst (Answers (select_password u)) k.result selects)
          (subst (Answers (count_user u)) k.result counts) in
      let exists : (user_exists u d').0 ≡ true = ap (λ e. (user_exists u e).0) k.result ∙ known.1 in
      let valid : (check_user u p d').0 ≡ true =
        ap (λ e. (check_user u p e).0) k.result ∙ known.0 ∙ (decide_iff (qstring_eq p p)).1 refl in
      (
        login_opens u d' l name k.named exists,
        submit_opens p d' w secret k.secret (ap (λ v. (check_user v p d').0) name' ∙ valid)
            ∙ ap (λ v. some (open_chat v p)) name',
        ap₂ (λ a b. (check_user a b d').0) back back' ∙ valid,
      )

module _ ⦃qt : Qt⦄ ⦃text : QtText⦄ where
  open qt use {Uuid, QString, to_std_string}

  -- The client of a chat that the password window opened, once connected, writes its credentials and
  -- signals the connection; and a server to whom they arrive in one read, and whose check they pass,
  -- admits it under that name, if they fit the format.
  pub opened_chat_is_admitted :
      (u p : QString) (db : CheckUser) (socket : ℕ) (id : Uuid) (s : Server)
      → IsText (to_std_string u)
      → IsText (to_std_string p)
      → authenticate_client db (to_std_string u) (to_std_string p) ≡ true
      → let credentials = send_credentials (to_std_string u) (to_std_string p) in
        ((on_connected (open_chat u p).0.controller.network_client).1
          ≡ wrote credentials ∷ connection_status_changed true ∷ calls_connection true ∷ [])
        × (handle_credentials db socket (some credentials) id s
            ≡ admit id (to_std_string u) (to_std_string p) s)
  unfolding on_connected open_chat new_window new_controller setup_network_callbacks set_username
      connect_controller connect_to_server update_connection_status set_message_callback
      set_connection_callback set_disconnected_callback set_user_list_callback
  opened_chat_is_admitted u p db socket id s fits fits' passes =
      let credentials = send_credentials (to_std_string u) (to_std_string p) in
      (
        refl,
        ap (λ b. handle_credentials db socket (some b) id s) (sym (append-nil credentials))
            ∙ handle_credentials-send_credentials db socket (to_std_string u) (to_std_string p) []
                id s fits fits'
            ∙ ap
                (λ b.
                  if b
                  then admit id (to_std_string u) (to_std_string p) s
                  else (s, closed socket ∷ []))
                passes,
      )
