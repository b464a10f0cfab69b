-- ===== src/System/Chat.antt =====
-- From the send button of one client (chat_window.cpp) through the server
-- (boost_asio_client_session.cpp, message_handler.cpp, client_manager.cpp) to the window of another.
use qt_messenger.Prelude.{
  ℕ, ◌≡◌, refl, ap, ◌∙◌, true, false, some, List, [], ◌∷◌, ◌++◌, Bytes, is_nil, is_some, flatten,
  if◌then◌else◌, arith,
}
use qt_messenger.Qt.{Qt}
use qt_messenger.Message.{
  Message, new_message, is_user_list, is_system, type_value, type_of_int, write_message,
}
use qt_messenger.Message.Texts.{IsText}
use qt_messenger.Message.Wire.{IsSendable}
use qt_messenger.UnorderedMap.{find}
use qt_messenger.Session.Boost.{BoostAsioClientSession, wrapped_session}
use qt_messenger.ClientManager.Delivery.{received}
use qt_messenger.MessageHandler.{is_user_list_request}
use qt_messenger.Server.{Server, handle_read_message}
use qt_messenger.Server.Auth.{IsReady}
use qt_messenger.Server.Invariant.{IsSound}
use qt_messenger.Server.Relay.{writes, relay}
use qt_messenger.Client.NetworkClient.{NetworkClient}
use qt_messenger.Client.NetworkClient.Reassembly.{receive}
use qt_messenger.Client.QtText.{QtText}
use qt_messenger.Client.ChatWindow.{ChatWindow, get_input_text, handle_events}
use qt_messenger.Client.ChatWindow.Shown.{IsShowable, shown, displayed-encode}
use qt_messenger.Client.ChatWindow.Wiring.{Answer, Action, emit_signal, send_clicked}
use qt_messenger.Client.ChatWindow.Clicks.{Online, emit_signal-send_clicked}
use qt_messenger.System.{sent}

module _ ⦃qt : Qt⦄ where
  open qt use {Uuid, DateTime, from_std_string, is_empty}

  pub new_message-IsSendable :
      (id : Uuid) (username message : Bytes) (now : DateTime)
      → IsText username
      → IsText message
      → IsSendable (new_message id username message now)
  unfolding new_message type_value type_of_int
  new_message-IsSendable id username message now hu ht = record {
    username = hu;
    text = ht;
    in_range = omega arith;
    named = refl;
    listed = refl;
  }

  new_message_chats :
      (id : Uuid) (username message : Bytes) (now : DateTime)
      → (is_user_list_request (new_message id username message now) ≡ false)
        × (is_user_list (new_message id username message now).kind ≡ false)
  unfolding new_message is_user_list_request is_system is_user_list
  new_message_chats id username message now = (refl, refl)

  new_message-username :
      (id : Uuid) (username message : Bytes) (now : DateTime)
      → (new_message id username message now).username ≡ username
  unfolding new_message
  new_message-username id username message now = refl

module _ ⦃qt : Qt⦄ ⦃text : QtText⦄ where
  open qt use {Uuid, DateTime, uuid_eq, from_std_string, is_empty}

  -- The message that a window makes of its input field.
  abbrev pub typed : Answer → ChatWindow → Message
  typed a w = new_message a.id w.controller.network_client.username (get_input_text w) a.now

  typed-IsShowable :
      (a : Answer) (w : ChatWindow)
      → is_empty (from_std_string w.controller.network_client.username) ≡ false
      → IsShowable (typed a w)
  typed-IsShowable a w named = record {
    chats =
        (new_message_chats a.id w.controller.network_client.username (get_input_text w) a.now).1;
    named =
        ap (λ u. is_empty (from_std_string u))
          (new_message-username a.id w.controller.network_client.username (get_input_text w) a.now)
        ∙ named;
  }

  module _ (answers : ℕ → Answer) (sender : ChatWindow) (online : Online sender)
      (some_text : is_nil (get_input_text sender) ≡ false)
      (user : IsText sender.controller.network_client.username)
      (fits : IsText (get_input_text sender)) where
    sent-typed :
        sent (emit_signal answers send_clicked sender).1
        ≡ write_message (typed (answers 0) sender) ++ []
    sent-typed =
        ap (λ (r : ChatWindow × List Action). sent r.1)
          (emit_signal-send_clicked answers sender online some_text)

    relayed :
        (fresh : Uuid) (now : DateTime) (session : BoostAsioClientSession) (s : Server) (j : Uuid)
        → IsReady (session.uuid, session)
        → IsSound s
        → is_some (find uuid_eq j s.manager.clients) ≡ true
        → received j (
            writes
              (handle_read_message fresh now session
                (some (sent (emit_signal answers send_clicked sender).1))
                s).1)
          ≡ write_message (typed (answers 0) sender) ∷ []
    relayed fresh now session s j ready sound there =
        ap (λ b. received j (writes (handle_read_message fresh now session (some b) s).1))
          sent-typed
        ∙ (relay fresh now session (typed (answers 0) sender) [] s j
            (new_message-IsSendable _ _ _ _ user fits) ready sound (new_message_chats _ _ _ _).0).0
        ∙ ap (λ b. if b then write_message (typed (answers 0) sender) ∷ [] else []) there

  -- A text that a connected user types and sends with the button is shown, once, in the window of every
  -- client in the manager, the sender's too. The user name is not empty, name and text fit the format,
  -- the server is sound, reads the bytes in one read of a session that is ready, and what it writes
  -- reaches the other client, however it is cut, whose buffer is empty and whose message callback is
  -- set.
  pub typed_is_displayed :
      (answers : ℕ → Answer) (sender : ChatWindow) (fresh : Uuid) (now : DateTime)
      (session : BoostAsioClientSession) (s : Server) (j : Uuid) (later : DateTime)
      (bs : List Bytes) (c : NetworkClient) (w : ChatWindow)
      → Online sender
      → is_nil (get_input_text sender) ≡ false
      → IsText sender.controller.network_client.username
      → IsText (get_input_text sender)
      → is_empty (from_std_string sender.controller.network_client.username) ≡ false
      → IsReady (session.uuid, session)
      → IsSound s
      → is_some (find uuid_eq j s.manager.clients) ≡ true
      → c.received_buffer ≡ []
      → c.message_callback ≡ true
      → flatten bs
        ≡ flatten (
            received j (
              writes
                (handle_read_message fresh now session
                  (some (sent (emit_signal answers send_clicked sender).1))
                  s).1))
      → handle_events later (receive bs c).1 w ≡ some (shown w (typed (answers 0) sender ∷ []))
  typed_is_displayed answers sender fresh now session s j later bs c w online some_text user fits
        named ready sound there empty set arrives =
      displayed-encode later bs c (typed (answers 0) sender ∷ []) w
        (new_message-IsSendable _ _ _ _ user fits, tt)
        (typed-IsShowable (answers 0) sender named, tt) empty set
        (arrives
          ∙ ap flatten (
              relayed answers sender online some_text user fits fresh now session s j ready sound
                there))
