-- ===== src/Client/Application/Kept.antt =====
-- The names and the password that a chat window (chat_window.cpp) and its network client
-- (network_client.cpp) run on: nothing that happens to the window changes them.
use qt_messenger.Prelude.{
  ℕ, suc, ◌≡◌, refl, ap, ◌∙◌, Bool, true, false, Option, none, some, List, [], ◌∷◌, ◌++◌, Bytes,
  if_intro,
}
use qt_messenger.Qt.{Qt}
use qt_messenger.Message.{Message}
use qt_messenger.Client.NetworkClient.{NetworkClient, Event}
use qt_messenger.Client.ChatController.{disconnect_controller, send_input}
use qt_messenger.Client.QtText.{QtText, is_fatal}
use qt_messenger.Client.UserListWindow.{UserListWindow, update_rows}
use qt_messenger.Client.ChatWindow.{
  ChatWindow, update_connection_status, display_chat_message, display_system_message, put_list,
  update_list, update_user_list, and_handle, handle_event, handle_events, get_input_text,
  send_from_window, logout, open_user_list_window,
}
use qt_messenger.Client.ChatWindow.Wiring.{
  Signal, Slot, Answer, sends, opens_emojis, logs_out, opens_users, insert_emoji, call_slot,
  call_slots, slots_of, emit_signal, setup_connections, connect_signals,
}
use qt_messenger.Client.Windows.{Notice, notify, hear}
use qt_messenger.Client.Application.Credentials.{
  Whenever, credentials, disconnect-credentials, notify-credentials,
}

module _ ⦃qt : Qt⦄ ⦃text : QtText⦄ where
  open qt use {QString, DateTime, from_std_string, is_empty}

  -- The name that the window takes for its user's, and what its client logs in with.
  abbrev pub account : ChatWindow → Bytes × (Bytes × Bytes)
  account w = (w.controller.username, credentials w.controller.network_client)

  -- The other window has the same account, if there is one.
  abbrev pub SameAccount : ChatWindow → Option ChatWindow → Type 0
  SameAccount w = Whenever (λ w'. account w' ≡ account w)

  update_connection_status-account :
      (on : Bool) (w : ChatWindow) → account (update_connection_status on w) ≡ account w
  unfolding update_connection_status
  update_connection_status-account true w = refl
  update_connection_status-account false w = refl

  put_list-SameAccount : (o : Option UserListWindow) (w : ChatWindow) → SameAccount w (put_list w o)
  put_list-SameAccount none w = tt
  put_list-SameAccount (some l) w = refl

  update_list-SameAccount :
      (us : List QString) (o : Option UserListWindow) (w : ChatWindow)
      → SameAccount w (update_list us o w)
  update_list-SameAccount us none w = refl
  update_list-SameAccount us (some l) w = put_list-SameAccount (update_rows us l) w

  display_chat_message-SameAccount :
      (m : Message) (w : ChatWindow) → SameAccount w (display_chat_message m w)
  unfolding display_chat_message
  display_chat_message-SameAccount m w =
      if_intro (SameAccount w) (is_fatal (from_std_string m.username)) (λ _. tt) (λ _. refl)

  handle_event-SameAccount :
      (now : DateTime) (e : Event) (w : ChatWindow) → SameAccount w (handle_event now e w)
  unfolding handle_event update_user_list display_system_message
  handle_event-SameAccount now (Event.connection_status_changed on) w =
      update_connection_status-account on w
  handle_event-SameAccount now (Event.calls_connection on) w = update_connection_status-account on w
  handle_event-SameAccount now (Event.user_list_received us) w =
      update_list-SameAccount us w.user_list_window w
  handle_event-SameAccount now (Event.calls_user_list us) w =
      update_list-SameAccount us w.user_list_window w
  handle_event-SameAccount now (Event.calls_message m) w = display_chat_message-SameAccount m w
  handle_event-SameAccount now Event.calls_disconnected w = refl
  handle_event-SameAccount now (Event.connect_to_host h p) w = refl
  handle_event-SameAccount now Event.disconnect_from_host w = refl
  handle_event-SameAccount now (Event.wrote b) w = refl
  handle_event-SameAccount now (Event.message_received m) w = refl
  handle_event-SameAccount now Event.disconnected w = refl

  SameAccount-trans :
      (w v : ChatWindow) (o : Option ChatWindow)
      → account w ≡ account v
      → SameAccount w o
      → SameAccount v o
  SameAccount-trans w v none e h = tt
  SameAccount-trans w v (some u) e h = h ∙ e

  and_handle-SameAccount :
      (w : ChatWindow) (next : ChatWindow → Option ChatWindow) (o : Option ChatWindow)
      → ((v : ChatWindow) → SameAccount v (next v))
      → SameAccount w o
      → SameAccount w (and_handle next o)
  and_handle-SameAccount w next none step h = tt
  and_handle-SameAccount w next (some v) step h = SameAccount-trans v w (next v) h (step v)

  pub handle_events-SameAccount :
      (now : DateTime) (es : List Event) (w : ChatWindow) → SameAccount w (handle_events now es w)
  unfolding handle_events
  handle_events-SameAccount now [] w = refl
  handle_events-SameAccount now (e ∷ es) w =
      and_handle-SameAccount w (handle_events now es) (handle_event now e w)
        (handle_events-SameAccount now es) (handle_event-SameAccount now e w)

  logout-account :
      (confirmed at_once : Bool) (w : ChatWindow)
      → account (logout confirmed at_once w).0 ≡ account w
  unfolding logout disconnect_controller
  logout-account true at_once w =
      ap (λ (c : Bytes × Bytes). (w.controller.username, c))
        (disconnect-credentials at_once w.controller.network_client)
  logout-account false at_once w = refl

  call_slot-account :
      (s : Slot) (a : Answer) (w : ChatWindow) → account (call_slot s a w).0 ≡ account w
  unfolding call_slot send_from_window open_user_list_window insert_emoji
  call_slot-account sends a w =
      if_intro (λ v. account v ≡ account w)
        (send_input a.id a.now (get_input_text w) w.controller).1 (λ _. refl) (λ _. refl)
  call_slot-account opens_emojis a w =
      elim a.emoji as (λ o. account (insert_emoji a.cursor o w) ≡ account w) [
        | none ↦ refl
        | some e ↦ refl
      ]
  call_slot-account logs_out a w = logout-account a.confirmed a.at_once w
  call_slot-account opens_users a w = refl

  call_slots-account :
      (answers : ℕ → Answer) (k : ℕ) (slots : List Slot) (w : ChatWindow)
      → account (call_slots answers k slots w).0 ≡ account w
  unfolding call_slots
  call_slots-account answers k [] w = refl
  call_slots-account answers k (s ∷ slots) w =
      call_slots-account answers (suc k) slots (call_slot s (answers k) w).0
      ∙ call_slot-account s (answers k) w

  pub emit_signal-account :
      (answers : ℕ → Answer) (s : Signal) (w : ChatWindow)
      → account (emit_signal answers s w).0 ≡ account w
  unfolding emit_signal
  emit_signal-account answers s w =
      call_slots-account answers 0 (slots_of s (setup_connections ++ connect_signals)) w

  hear-SameAccount :
      (now : DateTime) (w : ChatWindow) (r : Option (NetworkClient × List Event))
      → Whenever
          (λ (x : NetworkClient × List Event).
            credentials x.0 ≡ credentials w.controller.network_client)
          r
      → SameAccount w (hear now w r)
  unfolding hear
  hear-SameAccount now w none h = tt
  hear-SameAccount now w (some (c, es)) h =
      let w' : ChatWindow = record w { controller = record w.controller { network_client = c } } in
      SameAccount-trans w' w (handle_events now es w')
        (ap (λ (x : Bytes × Bytes). (w.controller.username, x)) h)
        (handle_events-SameAccount now es w')

  -- Whatever the network does, and whatever signal a widget emits, the window keeps its account.
  pub hear_notice-SameAccount :
      (now : DateTime) (n : Notice) (w : ChatWindow)
      → SameAccount w (hear now w (notify n w.controller.network_client))
  hear_notice-SameAccount now n w =
      hear-SameAccount now w _ (notify-credentials n w.controller.network_client)

  pub heard_signal-SameAccount :
      (answers : ℕ → Answer) (now : DateTime) (s : Signal) (es : List Event) (w : ChatWindow)
      → SameAccount w (handle_events now es (emit_signal answers s w).0)
  heard_signal-SameAccount answers now s es w =
      SameAccount-trans (emit_signal answers s w).0 w
        (handle_events now es (emit_signal answers s w).0) (emit_signal-account answers s w)
        (handle_events-SameAccount now es (emit_signal answers s w).0)
