-- ===== src/Examples/Accounts.antt =====
-- The database and the windows: a table with one user, and a chat window.
use qt_messenger.Prelude.{
  ◌≡◌, refl, true, false, none, some, [], ◌∷◌, bytes, decide, decide_iff, ap, arith, append-nil,
  map, All, length, not, if◌then◌else◌,
}
use qt_messenger.UnorderedMap.{find}
use qt_messenger.Message.{Message, user_list, is_user_list, type_value, type_of_int}
use qt_messenger.Message.Wire.{IsSendable}
use qt_messenger.Database.{
  add_user, check_user, user_exists, initialize, database_manager, create, seed,
}
use qt_messenger.Database.Users.{check_user-add_user, initialize-Keeps}
use qt_messenger.Client.NetworkClient.{
  new_client, wrote, connection_status_changed, calls_connection, on_connected,
}
use qt_messenger.Client.NetworkClient.Loop.{encode}
use qt_messenger.Client.NetworkClient.Reassembly.{receive}
use qt_messenger.Client.ChatWindow.{ChatWindow, handle_events, new_window}
use qt_messenger.Client.ChatWindow.Shown.{IsShowable, shown, displayed-encode, displayed_or_stopped}
use qt_messenger.Client.UserListWindow.{
  UserRow, UserListWindow, is_match, search_rows, counter_text,
}
use qt_messenger.Client.UserListWindow.Search.{visible, search_rows_correct}
use qt_messenger.Client.EmojiWindow.{add_emoji_buttons_to_grid}
use qt_messenger.Client.EmojiWindow.Grid.{Fills, add_emoji_buttons_to_grid-Fills}
use qt_messenger.Client.LoginWindow.{LoginWindow, on_login_clicked}
use qt_messenger.Client.RegisterWindow.{
  RegisterWindow, on_register_clicked, add_new, after_add, show_message,
}
use qt_messenger.Client.PasswordWindow.{PasswordWindow, on_submit_clicked, open_chat}
use qt_messenger.Client.Accounts.{registered_user_logs_in, opened_chat_is_admitted}
use qt_messenger.Client.AuthHandler.{send_credentials}
use qt_messenger.Server.{authenticate_client, handle_credentials, admit, new_server}
use qt_messenger.Examples.SampleQt.{sample_qt, Bytes-discrete}
use qt_messenger.Examples.SampleSql.{Table, sample_sql, sample_text}
use qt_messenger.Examples.Messages.{hello, hello-IsSendable}
use qt_messenger.Examples.Client.{online, parts, parts-bytes}

abbrev no_users : Table
no_users = []

abbrev pub ann_only : Table
ann_only = (bytes "ann", bytes "pw") ∷ []

-- The insertion into an empty table succeeds.
bob_added : (add_user (bytes "bob") (bytes "pw") no_users).0 ≡ true
unfolding add_user find
bob_added = refl

check_user-add_user_example :
    ((check_user (bytes "bob") (bytes "x") (add_user (bytes "bob") (bytes "pw") no_users).1).0
      ≡ decide (Bytes-discrete (bytes "pw") (bytes "x")))
    × ((user_exists (bytes "bob") (add_user (bytes "bob") (bytes "pw") no_users).1).0 ≡ true)
check_user-add_user_example =
    check_user-add_user (bytes "bob") (bytes "pw") (bytes "x") no_users bob_added refl refl

pub initialized : initialize ann_only ≡ some ann_only
unfolding initialize create seed
initialized = refl

pub ann_found : find Bytes-discrete (bytes "ann") ann_only ≡ some (bytes "pw")
unfolding find
ann_found =
    ap (λ b. if b then some (bytes "pw") else none)
      ((decide_iff (Bytes-discrete (bytes "ann") (bytes "ann"))).1 refl)

initialize-Keeps_example : find Bytes-discrete (bytes "ann") ann_only ≡ some (bytes "pw")
initialize-Keeps_example =
    initialize-Keeps ann_only ann_only (bytes "ann") (bytes "pw") initialized ann_found

abbrev registering : RegisterWindow
registering = record {
  username_field = bytes "bob";
  password_field = bytes "pw";
  status = [];
  status_is_error = false;
  accepts = false;
}

abbrev logging_in : LoginWindow
logging_in = record {
  username_field = bytes "bob";
  title = [];
  error_state = false;
  is_visible = true;
}

abbrev entering : PasswordWindow
entering = record {
  username = bytes "bob";
  password_field = bytes "pw";
  error = none;
  accepted = false;
}

bob_registered : (on_register_clicked database_manager no_users registering).0.accepts ≡ true
unfolding on_register_clicked add_new after_add show_message user_exists add_user find
bob_registered = refl

abbrev with_bob : Table
with_bob = (on_register_clicked database_manager no_users registering).1

registered_user_logs_in_example :
    ((on_login_clicked database_manager with_bob logging_in).0.1 ≡ some (bytes "bob"))
    × ((on_submit_clicked database_manager with_bob entering).0.1
        ≡ some (open_chat (bytes "bob") (bytes "pw")))
    × (authenticate_client (some (λ u p. (check_user u p with_bob).0)) (bytes "bob") (bytes "pw")
        ≡ true)
registered_user_logs_in_example =
    registered_user_logs_in no_users registering logging_in entering refl bob_registered refl refl
      refl refl refl refl refl

abbrev pub window : ChatWindow
window = new_window new_client

pub hello-IsShowable : IsShowable hello
unfolding is_user_list
hello-IsShowable = record { chats = refl; named = refl }

displayed-encode_example :
    handle_events 5 (receive parts online).1 window ≡ some (shown window (hello ∷ hello ∷ []))
displayed-encode_example =
    displayed-encode 5 parts online (hello ∷ hello ∷ []) window
      (hello-IsSendable, (hello-IsSendable, tt)) (hello-IsShowable, (hello-IsShowable, tt)) refl
      refl parts-bytes

abbrev names : Message
names = record hello { kind = user_list; users = bytes "ann" ∷ bytes "bob" ∷ [] }

abbrev list_window : UserListWindow
list_window = record {
  rows = record { name = bytes "ann"; avatar = []; hidden = true } ∷ [];
  counter = [];
}

abbrev with_list : ChatWindow
with_list = record window { user_list_window = some list_window }

names_listed : is_user_list names.kind ≡ true
unfolding is_user_list
names_listed = refl

search_rows_correct_example :
    (map (λ (r : UserRow). r.name) (search_rows (bytes "bob") list_window).rows ≡ bytes "ann" ∷ [])
    × All
        (λ (r : UserRow). r.hidden ≡ not (is_match (bytes "bob") r))
        (search_rows (bytes "bob") list_window).rows
    × ((search_rows (bytes "bob") list_window).counter
        ≡ counter_text (length (visible (search_rows (bytes "bob") list_window).rows)))
search_rows_correct_example = search_rows_correct (bytes "bob") list_window

add_emoji_buttons_to_grid-Fills_example :
    Fills 5 0 (bytes "abcdefg") (add_emoji_buttons_to_grid (bytes "abcdefg") 5)
add_emoji_buttons_to_grid-Fills_example =
    add_emoji_buttons_to_grid-Fills 5 (bytes "abcdefg") (omega arith)

abbrev nameless : Message
nameless = record hello { username = [] }

nameless-IsSendable : IsSendable nameless
unfolding type_value type_of_int
nameless-IsSendable = record {
  username = record { round = refl; fits = tt };
  text = record { round = refl; fits = tt };
  in_range = omega arith;
  named = refl;
  listed = refl;
}

nameless_chats : is_user_list nameless.kind ≡ false
unfolding is_user_list
nameless_chats = refl

displayed_or_stopped_example :
    handle_events 5 (receive (encode (hello ∷ nameless ∷ []) ∷ []) online).1 window ≡ none
displayed_or_stopped_example =
    displayed_or_stopped 5 (encode (hello ∷ nameless ∷ []) ∷ []) online (hello ∷ nameless ∷ [])
      window (hello-IsSendable, (nameless-IsSendable, tt))
      (hello-IsShowable.chats, (nameless_chats, tt)) refl refl
      (append-nil (encode (hello ∷ nameless ∷ [])))

no_database_accepts : authenticate_client none (bytes "bob") (bytes "pw") ≡ true
unfolding authenticate_client
no_database_accepts = refl

opened_chat_is_admitted_example :
    ((on_connected (open_chat (bytes "bob") (bytes "pw")).0.controller.network_client).1
      ≡ wrote (send_credentials (bytes "bob") (bytes "pw"))
        ∷ connection_status_changed true
        ∷ calls_connection true
        ∷ [])
    × (handle_credentials none 3
          (some (send_credentials (bytes "bob") (bytes "pw")))
          8
          (new_server 4)
        ≡ admit 8 (bytes "bob") (bytes "pw") (new_server 4))
opened_chat_is_admitted_example =
    opened_chat_is_admitted (bytes "bob") (bytes "pw") none 3 8 (new_server 4)
      (record { round = refl; fits = tt }) (record { round = refl; fits = tt }) no_database_accepts
