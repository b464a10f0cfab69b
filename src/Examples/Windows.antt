-- ===== src/Examples/Windows.antt =====
-- The windows of the client over a table with one user: the theorems at one session of its user.
use qt_messenger.Prelude.{◌≡◌, refl, true, false, none, some, [], bytes}
use qt_messenger.Database.{initialize, create, seed}
use qt_messenger.Client.LoginWindow.{clear_error_message, chat_opened}
use qt_messenger.Client.PasswordWindow.{open_chat}
use qt_messenger.Client.NetworkClient.{connecting}
use qt_messenger.Client.ChatWindow.{ChatWindow}
use qt_messenger.Client.Windows.{no_dialog, new_login}
use qt_messenger.Client.Application.{Application, launch, play}
use qt_messenger.Client.Application.Consistent.{IsConsistent}
use qt_messenger.Client.Application.Accounts.{chats_have_accounts}
use qt_messenger.Client.Application.Entering.{logging_in, account_enters, account_opens_chat}
use qt_messenger.Examples.SampleQt.{sample_qt}
use qt_messenger.Examples.SampleSql.{Table, sample_sql, sample_text}
use qt_messenger.Examples.Accounts.{ann_only, ann_found}

abbrev started : Application Table
started = record { login = new_login; dialog = no_dialog; chat = none; timers = 0; db = ann_only }

launched : launch ann_only ≡ some started
unfolding launch initialize create seed
launched = refl

-- After Ann has logged in.
abbrev entered : Application Table
entered = record started {
  login = chat_opened (record new_login { username_field = bytes "ann" });
  chat = some (open_chat (bytes "ann") (bytes "pw")).0;
  timers = 1;
}

visible : new_login.is_visible ≡ true
unfolding new_login clear_error_message
visible = refl

ann_enters : play (logging_in (bytes "ann") (bytes "pw")) started ≡ some entered
ann_enters =
    account_enters (bytes "ann") (bytes "pw") started visible refl refl refl refl refl ann_found
      refl refl

account_opens_chat_example :
    (w : ChatWindow) × (play (logging_in (bytes "ann") (bytes "pw")) started
      ≡ some (record started {
        login = record new_login { username_field = bytes "ann"; is_visible = false };
        dialog = no_dialog;
        chat = some w;
        timers = 1;
      }))
    × (w.is_open ≡ true)
    × (w.items ≡ [])
    × (w.controller.username ≡ bytes "ann")
    × (w.controller.network_client.socket ≡ some connecting)
    × (w.controller.network_client.username ≡ bytes "ann")
    × (w.controller.network_client.password ≡ bytes "pw")
account_opens_chat_example =
    account_opens_chat (bytes "ann") (bytes "pw") started visible refl refl refl refl refl ann_found
      refl refl

chats_have_accounts_example : IsConsistent entered
chats_have_accounts_example =
    chats_have_accounts ann_only started entered (logging_in (bytes "ann") (bytes "pw")) launched
      ann_enters
