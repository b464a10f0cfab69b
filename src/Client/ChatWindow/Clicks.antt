-- ===== src/Client/ChatWindow/Clicks.antt =====
-- What a click does in chat_window.cpp, where every signal is connected twice.
use qt_messenger.Prelude.{
  ◌≡◌, refl, ap, ◌∙◌, true, false, List, [], ◌∷◌, ◌++◌, Bytes, is_nil, some, ℕ, append-nil, Option,
  none,
}
use qt_messenger.Qt.{Qt}
use qt_messenger.Message.{new_message, write_message}
use qt_messenger.Client.NetworkClient.{
  wrote, is_connected, send_message, request_user_list, user_list_request,
}
use qt_messenger.Client.ChatController.{send_input}
use qt_messenger.Client.QtText.{QtText}
use qt_messenger.Client.UserListWindow.{UserListWindow}
use qt_messenger.Client.ChatWindow.{
  ChatWindow, get_input_text, send_from_window, open_user_list_window, or_new,
}
use qt_messenger.Client.ChatWindow.Wiring.{
  Slot, Answer, Action, network, call_slot, call_slots, emit_signal, slots_of, sends, opens_users,
  send_clicked, users_clicked,
}

module _ ⦃qt : Qt⦄ ⦃text : QtText⦄ where
  open qt use {from_std_string, trimmed_empty}

  -- The network client of a window is connected.
  abbrev pub Online : ChatWindow → Type 0
  Online w = is_connected w.controller.network_client.socket ≡ true

  -- The message that the window sends with an answer of the world.
  abbrev pub typed_message : Answer → ChatWindow → Bytes
  typed_message a w =
      write_message (new_message a.id w.controller.network_client.username (get_input_text w) a.now)

  send_typed :
      (a : Answer) (w : ChatWindow)
      → Online w
      → is_nil (get_input_text w) ≡ false
      → call_slot sends a w
        ≡ (record w { input_field = from_std_string [] }, network (wrote (typed_message a w)) ∷ [])
  unfolding call_slot send_from_window send_input send_message
  send_typed a w online typed = rw (typed, online) refl

  send_nothing :
      (a : Answer) (w : ChatWindow)
      → is_nil (get_input_text w) ≡ true
      → call_slot sends a w ≡ (w, [])
  unfolding call_slot send_from_window send_input
  send_nothing a w empty = rw empty refl

  cleared :
      (w : ChatWindow)
      → is_nil (get_input_text (record w { input_field = from_std_string [] })) ≡ true
  unfolding get_input_text
  cleared w = ap is_nil trimmed_empty

  -- Two slots, one after the other.
  call_two :
      (answers : ℕ → Answer) (s t : Slot) (w w' w'' : ChatWindow) (es fs : List Action)
      → call_slot s (answers 0) w ≡ (w', es)
      → call_slot t (answers 1) w' ≡ (w'', fs)
      → call_slots answers 0 (s ∷ t ∷ []) w ≡ (w'', es ++ fs)
  unfolding call_slots
  call_two answers s t w w' w'' es fs e f =
      ap
        (λ (r : ChatWindow × List Action).
          let q = call_slots answers 1 (t ∷ []) r.0 in (q.0, r.1 ++ q.1))
        e
      ∙ ap (λ (r : ChatWindow × List Action). (r.0, es ++ (r.1 ++ []))) f
      ∙ ap (λ as'. (w'', es ++ as')) (append-nil fs)

  sends_twice :
      (answers : ℕ → Answer) (w : ChatWindow)
      → Online w
      → is_nil (get_input_text w) ≡ false
      → call_slots answers 0 (sends ∷ sends ∷ []) w ≡ (
        record w { input_field = from_std_string [] },
        network (wrote (typed_message (answers 0) w)) ∷ [],
      )
  sends_twice answers w online typed =
      call_two answers sends sends w (record w { input_field = from_std_string [] }) _ _ []
        (send_typed (answers 0) w online typed)
        (send_nothing (answers 1) (record w { input_field = from_std_string [] }) (cleared w))

  -- A click on the send button of a connected window with a text writes this text once, as one
  -- message, although the click is connected twice: the first slot clears the field, and the second
  -- finds it empty.
  pub emit_signal-send_clicked :
      (answers : ℕ → Answer) (w : ChatWindow)
      → Online w
      → is_nil (get_input_text w) ≡ false
      → emit_signal answers send_clicked w ≡ (
        record w { input_field = from_std_string [] },
        network (wrote (typed_message (answers 0) w)) ∷ [],
      )
  unfolding emit_signal slots_of
  emit_signal-send_clicked answers w online typed = sends_twice answers w online typed

  -- The request that the window writes with an answer of the world.
  abbrev pub request_frame : Answer → ChatWindow → Bytes
  request_frame a w = write_message (user_list_request a.id a.now w.controller.network_client)

  open_users :
      (a : Answer) (w : ChatWindow)
      → Online w
      → call_slot opens_users a w ≡ (
        record w { user_list_window = or_new w.user_list_window },
        network (wrote (request_frame a w)) ∷ [],
      )
  unfolding call_slot open_user_list_window request_user_list
  open_users a w online = rw online refl

  or_new_twice : (o : Option UserListWindow) → or_new (or_new o) ≡ or_new o
  or_new_twice none = refl
  or_new_twice (some l) = refl

  -- A click on the users button of a connected window opens the user list window and requests the
  -- list twice.
  pub emit_signal-users_clicked :
      (answers : ℕ → Answer) (w : ChatWindow)
      → Online w
      → emit_signal answers users_clicked w ≡ (
        record w { user_list_window = or_new w.user_list_window },
        network (wrote (request_frame (answers 0) w))
            ∷ network (wrote (request_frame (answers 1) w))
            ∷ [],
      )
  unfolding emit_signal slots_of
  emit_signal-users_clicked answers w online =
      let w' : ChatWindow = record w { user_list_window = or_new w.user_list_window } in
      call_two answers opens_users opens_users w w' _ _ _ (open_users (answers 0) w online)
        (open_users (answers 1) w' online)
      ∙ λ i. (
        record w { user_list_window = or_new_twice w.user_list_window i },
        network (wrote (request_frame (answers 0) w))
            ∷ network (wrote (request_frame (answers 1) w))
            ∷ [],
      )
