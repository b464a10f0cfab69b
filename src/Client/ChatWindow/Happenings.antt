-- ===== src/Client/ChatWindow/Happenings.antt =====
-- What happens to the chat window (chat_window.cpp), with and without its widgets.
use qt_messenger.Prelude.{ap, subst, ℕ, Option, none, some, List, ◌++◌}
use qt_messenger.Qt.{Qt}
use qt_messenger.Client.Widgets.Children.{QtWidgets}
use qt_messenger.Client.QtText.{QtText}
use qt_messenger.Client.NetworkClient.{NetworkClient, Event}
use qt_messenger.Client.UserListWindow.{UserListWindow, search_rows}
use qt_messenger.Client.UserListWindow.Ui.{UserListUi}
use qt_messenger.Client.UserListWindow.Rows.{type_search_ui}
use qt_messenger.Client.UserListWindow.Shows.{DrawsUsers, search_rows-DrawsUsers}
use qt_messenger.Client.Widgets.Runs.{Alike, run_until}
use qt_messenger.Client.ChatWindow.{ChatWindow, handle_events}
use qt_messenger.Client.ChatWindow.Wiring.{
  Signal, Answer, emit_signal, slots_of, setup_connections, connect_signals,
}
use qt_messenger.Client.ChatWindow.Acts.{ChatUi, set_input, handle_event_ui, emit_signal_ui}
use qt_messenger.Client.ChatWindow.Draws.{DrawsChat}
use qt_messenger.Client.ChatWindow.Hearing.{handle_events-DrawsChat}
use qt_messenger.Client.Windows.{network_events}
use qt_messenger.Client.ChatWindow.Slots.{type_text-DrawsChat, call_slots-Matches}

module _ ⦃qt : Qt⦄ ⦃widgets : QtWidgets⦄ ⦃text : QtText⦄ where
  open qt use {Uuid, DateTime, QString, from_std_string}

  -- What happens to a chat window: its user types, its widgets signal, the network client reports
  -- while it becomes another, and the user searches in the window of the users.
  pub data ChatEvent : Type 0 where
    typed_text : QString → ChatEvent
    signalled : (ℕ → Answer) → DateTime → Signal → ChatEvent
    heard : DateTime → NetworkClient → List Event → ChatEvent
    searched_users : QString → ChatEvent

  abbrev search_in : QString → Option UserListWindow → Option UserListWindow
  search_in field none = none
  search_in field (some l) = some (search_rows field l)

  abbrev search_in_ui : QString → Option UserListUi → Option UserListUi
  search_in_ui field none = none
  search_in_ui field (some l) = some (type_search_ui field l)

  search_in-Alike :
      (field : QString) (o : Option UserListWindow) (o' : Option UserListUi)
      → Alike DrawsUsers o o'
      → Alike DrawsUsers (search_in field o) (search_in_ui field o')
  search_in-Alike field none none h = h
  search_in-Alike field (some l) (some l') h = search_rows-DrawsUsers field l l' h
  search_in-Alike field none (some l') h = absurd h
  search_in-Alike field (some l) none h = absurd h

  unfoldable pub chat_window : ChatEvent → ChatWindow → Option ChatWindow
  chat_window (typed_text q) w = some (record w { input_field = q })
  chat_window (signalled answers now s) w =
      let (w', as') = emit_signal answers s w in handle_events now (network_events as') w'
  chat_window (heard now c es) w =
      handle_events now es (record w { controller = record w.controller { network_client = c } })
  chat_window (searched_users field) w =
      some (record w { user_list_window = search_in field w.user_list_window })

  unfoldable pub chat_ui : ChatEvent → ChatUi → Option ChatUi
  chat_ui (typed_text q) p = some (record p { ui = set_input q p.ui })
  chat_ui (signalled answers now s) p =
      let (p', as') = emit_signal_ui answers s p in
      run_until (handle_event_ui now) (network_events as') p'
  chat_ui (heard now c es) p =
      run_until (handle_event_ui now) es
        (record p { controller = record p.controller { network_client = c } })
  chat_ui (searched_users field) p = some (record p { users = search_in_ui field p.users })

  pub chat-DrawsChat :
      (x : ChatEvent) (w : ChatWindow) (p : ChatUi)
      → DrawsChat w p
      → Alike DrawsChat (chat_window x w) (chat_ui x p)
  unfolding chat_window chat_ui emit_signal emit_signal_ui
  chat-DrawsChat (typed_text q) w p d = type_text-DrawsChat q w p d
  chat-DrawsChat (signalled answers now s) w p d =
      let m =
        call_slots-Matches answers 0 (slots_of s (setup_connections ++ connect_signals)) w p d in
      let r = emit_signal answers s w in
      let q = emit_signal_ui answers s p in
      subst
        (λ as'.
          Alike DrawsChat (handle_events now (network_events r.1) r.0)
            (run_until (handle_event_ui now) (network_events as') q.0))
        m.1 (handle_events-DrawsChat now (network_events r.1) r.0 q.0 m.0)
  chat-DrawsChat (heard now c es) w p d = handle_events-DrawsChat now es _ _ (record {
    users = d.users;
    same =
        ap (λ (p : ChatUi). record p { controller = record p.controller { network_client = c } })
          d.same;
    alike = d.alike;
  })
  chat-DrawsChat (searched_users field) w p d = record {
    users = search_in_ui field d.users;
    same = ap (λ (p : ChatUi). record p { users = search_in_ui field p.users }) d.same;
    alike = search_in-Alike field w.user_list_window d.users d.alike;
  }
