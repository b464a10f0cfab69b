-- ===== src/Client/ChatWindow/Acts.antt =====
-- client/src/chat_window.cpp: the slots of the chat window over its widgets.
use qt_messenger.Prelude.{
  ℕ, suc, Bool, false, Option, none, some, List, [], ◌∷◌, ◌++◌, Bytes, bytes, bytes_eq, map,
  if◌then◌else◌,
}
use qt_messenger.Qt.{Qt}
use qt_messenger.Message.{Message}
use qt_messenger.Client.Widgets.Children.{QtWidgets}
use qt_messenger.Client.QtText.{QtText, is_fatal}
use qt_messenger.Client.NetworkClient.{Event, request_user_list}
use qt_messenger.Client.ChatController.{ChatController, send_input, disconnect_controller}
use qt_messenger.Client.UserListWindow.Ui.{UserListUi, new_users_ui}
use qt_messenger.Client.UserListWindow.Rows.{update_rows_ui}
use qt_messenger.Client.Widgets.{Ui, first, is_variable, with_variable, set_text, said}
use qt_messenger.Client.ChatWindow.Ui.{update_status_ui}
use qt_messenger.Client.ChatWindow.Rows.{message_widget, system_widget, system_text}
use qt_messenger.Client.ChatWindow.Wiring.{
  Signal, Slot, sends, opens_emojis, logs_out, opens_users, Answer, Action, network, shows_emojis,
  asks_to_log_out, logged_out, setup_connections, connect_signals, slots_of,
}

module _ ⦃qt : Qt⦄ ⦃widgets : QtWidgets⦄ ⦃text : QtText⦄ where
  open qt use {Uuid, DateTime, QString, from_std_string, to_std_string, trimmed, is_empty}
  open text use {insert_at}

  -- `history`: the widgets of the items of `m_chatHistory`; `users`: `m_userListWindow`.
  pub record ChatUi : Type 0 where
    pub controller : ChatController
    pub ui : Ui
    pub history : List Ui
    pub users : Option UserListUi
    pub is_open : Bool

  abbrev pub input_of : Ui → QString
  input_of ui = said (first (is_variable (bytes "m_inputField")) ui.children)

  abbrev pub set_input : QString → Ui → Ui
  set_input q = with_variable (bytes "m_inputField") (set_text q)

  -- `displayChatMessage`
  unfoldable pub display_message_ui : Message → ChatUi → Option ChatUi
  display_message_ui m p =
      if is_fatal (from_std_string m.username)
      then none
      else some (record p {
        history = p.history ++ message_widget (bytes_eq m.username p.controller.username) m ∷ [];
      })

  -- `displaySystemMessage`
  unfoldable pub display_system_ui : DateTime → Bytes → ChatUi → ChatUi
  display_system_ui now message p = record p {
    history = p.history ++ system_widget (system_text now message) ∷ [];
  }

  abbrev pub put_users : ChatUi → Option UserListUi → Option ChatUi
  put_users p none = none
  put_users p (some l) = some (record p { users = some l })

  abbrev pub update_users : List QString → Option UserListUi → ChatUi → Option ChatUi
  update_users us none p = some p
  update_users us (some l) p = put_users p (update_rows_ui us l)

  -- `updateUserList`
  unfoldable pub update_users_ui : List QString → ChatUi → Option ChatUi
  update_users_ui us p = update_users us p.users p

  unfoldable pub handle_event_ui : DateTime → Event → ChatUi → Option ChatUi
  unfolding update_users_ui
  handle_event_ui now (Event.connection_status_changed on) p =
      some (record p { ui = update_status_ui on p.ui })
  handle_event_ui now (Event.calls_connection on) p =
      some (record p { ui = update_status_ui on p.ui })
  handle_event_ui now (Event.user_list_received us) p = update_users_ui us p
  handle_event_ui now (Event.calls_user_list us) p = update_users_ui us p
  handle_event_ui now (Event.calls_message m) p = display_message_ui m p
  handle_event_ui now Event.calls_disconnected p =
      some (display_system_ui now (bytes "Disconnected from server") p)
  handle_event_ui now _ p = some p

  -- `sendMessage`, with `getInputText` and `clearInput`
  unfoldable pub send_ui : Uuid → DateTime → ChatUi → ChatUi × List Event
  send_ui id now p =
      let (es, cleared) =
        send_input id now (to_std_string (trimmed (input_of p.ui))) p.controller in
      (if cleared then record p { ui = set_input (from_std_string []) p.ui } else p, es)

  -- `logout`
  unfoldable pub logout_ui : Bool → Bool → ChatUi → ChatUi × List Event
  logout_ui confirmed at_once p =
      if confirmed
      then (let (controller, es) = disconnect_controller at_once p.controller in
          (record p { controller = controller; is_open = false }, es))
      else (p, [])

  abbrev pub or_new_ui : Option UserListUi → Option UserListUi
  or_new_ui none = some new_users_ui
  or_new_ui (some l) = some l

  -- `openUserListWindow`
  unfoldable pub open_users_ui : Uuid → DateTime → ChatUi → ChatUi × List Event
  open_users_ui id now p =
      (record p { users = or_new_ui p.users }, request_user_list id now p.controller.network_client)

  -- `insertEmoji`, if one was chosen
  unfoldable pub insert_emoji_ui : ℕ → Option QString → ChatUi → ChatUi
  insert_emoji_ui cursor none p = p
  insert_emoji_ui cursor (some emoji) p = record p {
    ui = set_input (insert_at cursor emoji (input_of p.ui)) p.ui;
  }

  unfoldable pub call_slot_ui : Slot → Answer → ChatUi → ChatUi × List Action
  unfolding insert_emoji_ui
  call_slot_ui sends a p = let (p', es) = send_ui a.id a.now p in (p', map network es)
  call_slot_ui opens_emojis a p = (insert_emoji_ui a.cursor a.emoji p, shows_emojis ∷ [])
  call_slot_ui logs_out a p =
      let (p', es) = logout_ui a.confirmed a.at_once p in
      (p', asks_to_log_out ∷ map network es ++ (if a.confirmed then logged_out ∷ [] else []))
  call_slot_ui opens_users a p = let (p', es) = open_users_ui a.id a.now p in (p', map network es)

  -- The slots one after the other, the `k`-th with the `k`-th answer.
  unfoldable pub call_slots_ui : (ℕ → Answer) → ℕ → List Slot → ChatUi → ChatUi × List Action
  unfolding call_slot_ui
  call_slots_ui answers k [] p = (p, [])
  call_slots_ui answers k (slot ∷ slots) p =
      let (p', as') = call_slot_ui slot (answers k) p in
      let (p'', bs) = call_slots_ui answers (suc k) slots p' in (p'', as' ++ bs)

  unfoldable pub emit_signal_ui : (ℕ → Answer) → Signal → ChatUi → ChatUi × List Action
  unfolding slots_of call_slots_ui
  emit_signal_ui answers signal p =
      call_slots_ui answers 0 (slots_of signal (setup_connections ++ connect_signals)) p
