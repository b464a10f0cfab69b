-- ===== src/Client/ChatWindow/Hearing.antt =====
-- What the network client of the chat window reports (chat_window.cpp), with and without the widgets.
use qt_messenger.Prelude.{
  ◌≡◌, sym, ◌∙◌, ap, subst, Bool, true, false, Option, none, some, List, [], ◌∷◌, ◌++◌, Bytes,
  bytes, map, map-append,
}
use qt_messenger.Qt.{Qt}
use qt_messenger.Message.{Message}
use qt_messenger.Client.Widgets.Children.{QtWidgets}
use qt_messenger.Client.QtText.{QtText, is_fatal}
use qt_messenger.Client.NetworkClient.{Event}
use qt_messenger.Client.UserListWindow.{UserListWindow, update_rows}
use qt_messenger.Client.UserListWindow.Ui.{UserListUi}
use qt_messenger.Client.UserListWindow.Rows.{update_rows_ui}
use qt_messenger.Client.UserListWindow.Shows.{DrawsUsers, update_rows-DrawsUsers}
use qt_messenger.Client.Widgets.{Ui}
use qt_messenger.Client.Widgets.Runs.{Alike, and_run, if_both, run_until}
use qt_messenger.Client.ChatWindow.{
  chat_item, system_item, ChatWindow, bubble_of, is_own_message, display_chat_message,
  display_system_message, put_list, update_list, update_user_list, update_connection_status,
  and_handle, handle_event, handle_events,
}
use qt_messenger.Client.ChatWindow.Ui.{update_status_ui}
use qt_messenger.Client.ChatWindow.Rows.{message_widget, system_text}
use qt_messenger.Client.ChatWindow.Acts.{
  ChatUi, display_message_ui, display_system_ui, put_users, update_users, update_users_ui,
  handle_event_ui,
}
use qt_messenger.Client.ChatWindow.Draws.{
  item_widget, message_widget-bubble_of, chat_drawn, DrawsChat,
}

module _ ⦃qt : Qt⦄ ⦃widgets : QtWidgets⦄ ⦃text : QtText⦄ where
  open qt use {Uuid, DateTime, QString, from_std_string, is_empty}

  display_chat-DrawsChat :
      (m : Message) (w : ChatWindow) (p : ChatUi)
      → DrawsChat w p
      → Alike DrawsChat (display_chat_message m w) (display_message_ui m p)
  unfolding display_chat_message display_message_ui
  display_chat-DrawsChat m w p d =
      let own = is_own_message w m in
      let same : map item_widget w.items ++ message_widget own m ∷ []
          ≡ map item_widget (w.items ++ chat_item (bubble_of own m) ∷ []) =
        ap (λ (row : Ui). map item_widget w.items ++ row ∷ []) (message_widget-bubble_of own m)
        ∙ sym (map-append item_widget w.items (chat_item (bubble_of own m) ∷ [])) in
      subst (λ p. Alike DrawsChat (display_chat_message m w) (display_message_ui m p)) (sym d.same)
        (if_both (Alike DrawsChat) (is_fatal (from_std_string m.username)) tt (record {
          users = d.users;
          same = ap (λ (h : List Ui). record (chat_drawn w d.users) { history = h }) same;
          alike = d.alike;
        }))

  display_system-DrawsChat :
      (now : DateTime) (m : Bytes) (w : ChatWindow) (p : ChatUi)
      → DrawsChat w p
      → DrawsChat (display_system_message now m w) (display_system_ui now m p)
  unfolding display_system_message display_system_ui
  display_system-DrawsChat now m w p d =
      let item = system_item (system_text now m) in
      subst (λ p. DrawsChat (display_system_message now m w) (display_system_ui now m p))
        (sym d.same)
        (record {
          users = d.users;
          same =
              ap (λ (h : List Ui). record (chat_drawn w d.users) { history = h })
                (sym (map-append item_widget w.items (item ∷ [])));
          alike = d.alike;
        })

  pub status-DrawsChat :
      (on : Bool) (w : ChatWindow) (p : ChatUi)
      → DrawsChat w p
      → DrawsChat (update_connection_status on w) (record p { ui = update_status_ui on p.ui })
  unfolding update_connection_status
  status-DrawsChat true w p d = record {
    users = d.users;
    same = ap (λ (p : ChatUi). record p { ui = update_status_ui true p.ui }) d.same;
    alike = d.alike;
  }
  status-DrawsChat false w p d = record {
    users = d.users;
    same = ap (λ (p : ChatUi). record p { ui = update_status_ui false p.ui }) d.same;
    alike = d.alike;
  }

  put_list-DrawsChat :
      (w : ChatWindow) (p : ChatUi) (o : Option UserListWindow) (o' : Option UserListUi)
      → DrawsChat w p
      → Alike DrawsUsers o o'
      → Alike DrawsChat (put_list w o) (put_users p o')
  put_list-DrawsChat w p none none d h = tt
  put_list-DrawsChat w p none (some l') d h = absurd h
  put_list-DrawsChat w p (some l) none d h = absurd h
  put_list-DrawsChat w p (some l) (some l') d h = record {
    users = some l';
    same = ap (λ (p : ChatUi). record p { users = some l' }) d.same;
    alike = h;
  }

  update_list-DrawsChat :
      (us : List QString) (o : Option UserListWindow) (o' : Option UserListUi) (w : ChatWindow)
      → (p : ChatUi) → Alike DrawsUsers o o'
      → DrawsChat w p
      → Alike DrawsChat (update_list us o w) (update_users us o' p)
  update_list-DrawsChat us none none w p h d = d
  update_list-DrawsChat us none (some l') w p h d = absurd h
  update_list-DrawsChat us (some l) none w p h d = absurd h
  update_list-DrawsChat us (some l) (some l') w p h d =
      put_list-DrawsChat w p (update_rows us l) (update_rows_ui us l') d
        (update_rows-DrawsUsers us l l' h)

  update_user_list-DrawsChat :
      (us : List QString) (w : ChatWindow) (p : ChatUi)
      → DrawsChat w p
      → Alike DrawsChat (update_user_list us w) (update_users_ui us p)
  unfolding update_user_list update_users_ui
  update_user_list-DrawsChat us w p d =
      update_list-DrawsChat us w.user_list_window p.users w p
        (subst (Alike DrawsUsers w.user_list_window) (sym (ap (λ (p : ChatUi). p.users) d.same))
          d.alike)
        d

  handle_event-DrawsChat :
      (now : DateTime) (e : Event) (w : ChatWindow) (p : ChatUi)
      → DrawsChat w p
      → Alike DrawsChat (handle_event now e w) (handle_event_ui now e p)
  unfolding handle_event handle_event_ui
  handle_event-DrawsChat now (Event.connection_status_changed on) w p d = status-DrawsChat on w p d
  handle_event-DrawsChat now (Event.calls_connection on) w p d = status-DrawsChat on w p d
  handle_event-DrawsChat now (Event.user_list_received us) w p d =
      update_user_list-DrawsChat us w p d
  handle_event-DrawsChat now (Event.calls_user_list us) w p d = update_user_list-DrawsChat us w p d
  handle_event-DrawsChat now (Event.calls_message m) w p d = display_chat-DrawsChat m w p d
  handle_event-DrawsChat now Event.calls_disconnected w p d =
      display_system-DrawsChat now (bytes "Disconnected from server") w p d
  handle_event-DrawsChat now (Event.connect_to_host h n) w p d = d
  handle_event-DrawsChat now Event.disconnect_from_host w p d = d
  handle_event-DrawsChat now (Event.wrote b) w p d = d
  handle_event-DrawsChat now (Event.message_received m) w p d = d
  handle_event-DrawsChat now Event.disconnected w p d = d

  and_handle-Alike :
      (f : ChatWindow → Option ChatWindow) (g : ChatUi → Option ChatUi)
      → ((w : ChatWindow) (p : ChatUi) → DrawsChat w p → Alike DrawsChat (f w) (g p))
      → (o : Option ChatWindow) (o' : Option ChatUi) → Alike DrawsChat o o'
      → Alike DrawsChat (and_handle f o) (and_run g o')
  and_handle-Alike f g keeps none none h = tt
  and_handle-Alike f g keeps none (some p) h = absurd h
  and_handle-Alike f g keeps (some w) none h = absurd h
  and_handle-Alike f g keeps (some w) (some p) h = keeps w p h

  pub handle_events-DrawsChat :
      (now : DateTime) (es : List Event) (w : ChatWindow) (p : ChatUi)
      → DrawsChat w p
      → Alike DrawsChat (handle_events now es w) (run_until (handle_event_ui now) es p)
  unfolding handle_events run_until
  handle_events-DrawsChat now [] w p d = d
  handle_events-DrawsChat now (e ∷ es) w p d =
      and_handle-Alike (handle_events now es) (run_until (handle_event_ui now) es)
        (handle_events-DrawsChat now es) (handle_event now e w) (handle_event_ui now e p)
        (handle_event-DrawsChat now e w p d)
