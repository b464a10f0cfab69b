-- ===== src/Examples/Widgets.antt =====
-- The widgets of the windows: the theorems at one session of each.
use qt_messenger.Prelude.{true, ◌≡◌, refl, false, some, List, [], ◌∷◌, bytes}
use qt_messenger.Database.{database_manager}
use qt_messenger.Client.Widgets.{Ui}
use qt_messenger.Client.Widgets.Runs.{Agrees, run_acts, Alike, run_until}
use qt_messenger.Client.Windows.{
  PasswordAct, types_password, submits, RegisterAct, types_account, creates, times_out, new_login,
}
use qt_messenger.Client.PasswordWindow.Ui.{
  setup_named, apply_styles, new_password_ui, password_act_ui,
}
use qt_messenger.Client.PasswordWindow.Shows.{
  ShowsPassword, password_act, password_opened, password_widgets_show_window,
}
use qt_messenger.Client.RegisterWindow.Ui.{new_register_ui, RegisterUi, register_act_ui}
use qt_messenger.Client.RegisterWindow.Shows.{
  ShowsRegister, register_act, register_opened, account_widgets_show_window,
}
use qt_messenger.Client.LoginWindow.Ui.{
  LoginEvent, typed, clicked, opened_chat, left_chat, new_login_ui, login_act_ui,
}
use qt_messenger.Client.LoginWindow.Shows.{ShowsLogin, login_act, login_widgets_show_window}
use qt_messenger.Client.ChatWindow.{new_window}
use qt_messenger.Client.ChatWindow.Happenings.{
  ChatEvent, typed_text, heard, searched_users, chat_window, chat_ui,
}
use qt_messenger.Client.ChatWindow.Screen.{ShowsChat, opened_ui, chat_widgets_show_window}
use qt_messenger.Client.NetworkClient.{new_client, calls_message, calls_disconnected}
use qt_messenger.Examples.SampleQt.{sample_qt}
use qt_messenger.Examples.SampleSql.{sample_sql, sample_text}
use qt_messenger.Examples.SampleWidgets.{sample_widgets}
use qt_messenger.Examples.Messages.{hello}
use qt_messenger.Examples.Client.{online}
use qt_messenger.Examples.Accounts.{ann_only}

-- Ann submits nothing, a wrong password and the right one.
abbrev tries : List PasswordAct
tries = submits ∷ types_password (bytes "no") ∷ submits ∷ types_password (bytes "pw") ∷ submits ∷ []

abbrev for_ann : Ui
for_ann = apply_styles (setup_named (bytes "ann"))

ann_opens : new_password_ui (bytes "ann") ≡ some for_ann
unfolding new_password_ui
ann_opens = refl

password_widgets_show_window_example :
    Agrees
      (λ p w. ShowsPassword w p.ui)
      (run_acts
        (password_act_ui database_manager)
        tries
        ann_only
        (record { username = bytes "ann"; ui = for_ann }))
      (run_acts (password_act database_manager) tries ann_only (password_opened (bytes "ann")))
password_widgets_show_window_example =
    password_widgets_show_window database_manager tries ann_only (bytes "ann") for_ann ann_opens

-- Bob forgets the fields, takes a name that is taken, and then his own.
abbrev accounts : List RegisterAct
accounts =
    creates
    ∷ types_account (bytes "ann") (bytes "pw")
    ∷ creates
    ∷ types_account (bytes "bob") (bytes "pw")
    ∷ creates
    ∷ times_out
    ∷ []

account_widgets_show_window_example :
    Agrees
      (λ (r : RegisterUi) w. ShowsRegister w r.ui)
      (run_acts
        (register_act_ui database_manager)
        accounts
        ann_only
        (record { ui = new_register_ui; accepts = false }))
      (run_acts (register_act database_manager) accounts ann_only register_opened)
account_widgets_show_window_example = account_widgets_show_window database_manager accounts ann_only

-- Nobody, an unknown user and Ann log in; Ann chats and comes back.
abbrev logins : List LoginEvent
logins =
    clicked
    ∷ typed (bytes "eve")
    ∷ clicked
    ∷ typed (bytes "ann")
    ∷ clicked
    ∷ opened_chat
    ∷ left_chat
    ∷ []

login_widgets_show_window_example :
    Agrees
      (λ ui w. ShowsLogin w ui)
      (run_acts (login_act_ui database_manager) logins ann_only new_login_ui)
      (run_acts (login_act database_manager) logins ann_only new_login)
    × ((run_acts (login_act_ui database_manager) logins ann_only new_login_ui).0.0.is_shown ≡ true)
login_widgets_show_window_example = login_widgets_show_window database_manager logins ann_only

-- A text, a message, a search without the window of the users, and the end of the connection.
abbrev happenings : List ChatEvent
happenings =
    typed_text (bytes "hi")
    ∷ heard 5 online (calls_message hello ∷ [])
    ∷ searched_users (bytes "a")
    ∷ heard 6 new_client (calls_disconnected ∷ [])
    ∷ []

chat_widgets_show_window_example :
    Alike ShowsChat
      (run_until chat_window happenings (new_window new_client))
      (run_until chat_ui happenings (opened_ui new_client))
chat_widgets_show_window_example = chat_widgets_show_window happenings new_client
