-- ===== src/System/UserList.antt =====
-- From the users button of a client (chat_window.cpp) to the server and back to its user list window
-- (user_list_window.cpp).
use qt_messenger.Prelude.{
  none, Option, sym, subst, filter_by, ℕ, ◌^◌, ◌<◌, ◌≡◌, refl, ap, ◌∙◌, true, some, List, [], ◌∷◌,
  ◌++◌, append-nil, map, All, Bytes, bytes, length, flatten, if◌then◌else◌, arith, decide_iff,
}
use qt_messenger.Qt.{Qt}
use qt_messenger.Message.{
  Message, new_message, is_user_list, is_system, type_value, type_of_int, write_message,
}
use qt_messenger.Message.Texts.{IsText}
use qt_messenger.Message.Wire.{IsSendable}
use qt_messenger.UnorderedMap.{find, All-find}
use qt_messenger.Session.Boost.{BoostAsioClientSession, wrapped_session}
use qt_messenger.ClientManager.{get_usernames}
use qt_messenger.ClientManager.Delivery.{received, delivered}
use qt_messenger.MessageHandler.{is_user_list_request, user_list_response, handle_message}
use qt_messenger.MessageHandler.Routing.{get_usernames-eq-map, user_list_answered}
use qt_messenger.Server.{Server, Effect, message_received, handle_parsed, handle_read_message}
use qt_messenger.Server.Auth.{IsReady}
use qt_messenger.Server.Invariant.{IsSound}
use qt_messenger.Server.Relay.{writes, writes-map, deliver-effects, handle_read_message-parsed}
use qt_messenger.Client.NetworkClient.{NetworkClient, Event, Ending, dispatch, user_list_request}
use qt_messenger.Client.NetworkClient.Reassembly.{receive, receive-encode}
use qt_messenger.Client.QtText.{QtText}
use qt_messenger.Client.UserListWindow.{UserListWindow, update_rows}
use qt_messenger.Client.ChatWindow.{ChatWindow, handle_events, put_list, or_new}
use qt_messenger.Client.ChatWindow.Shown.{user_list_shown}
use qt_messenger.Client.ChatWindow.Wiring.{Answer, Action, emit_signal, users_clicked}
use qt_messenger.Client.ChatWindow.Clicks.{Online, request_frame, emit_signal-users_clicked}
use qt_messenger.System.{sent}
use qt_messenger.System.Listing.{listing, has_fatal, put_listing}

module _ ⦃qt : Qt⦄ where
  open qt use {Uuid, DateTime, uuid_eq, can_reserve}

  -- What the server of `s` answers to a request, with an identifier and the time.
  abbrev pub answer : Uuid → DateTime → Server → Message
  answer fresh now s = user_list_response fresh now (get_usernames s.manager)

  -- The names of the authenticated clients of a server, in the order of its map.
  abbrev pub names_of : Server → List Bytes
  names_of s =
      map (λ (c : Uuid × BoostAsioClientSession). c.1.username)
        (filter_by (λ (c : Uuid × BoostAsioClientSession). c.1.authenticated) s.manager.clients)

  request-IsSendable :
      (id : Uuid) (now : DateTime) (c : NetworkClient)
      → IsText c.username
      → IsText (bytes "REQUEST_USER_LIST")
      → IsSendable (user_list_request id now c)
  unfolding user_list_request new_message type_value type_of_int
  request-IsSendable id now c user word = record {
    username = user;
    text = word;
    in_range = omega arith;
    named = refl;
    listed = refl;
  }

  request_asks :
      (id : Uuid) (now : DateTime) (c : NetworkClient)
      → is_user_list_request (user_list_request id now c) ≡ true
  unfolding user_list_request new_message is_user_list_request is_system
  request_asks id now c = refl

  pub response-IsSendable :
      (id : Uuid) (now : DateTime) (us : List Bytes)
      → IsText (bytes "Server")
      → IsText (bytes "User list")
      → All IsText us
      → length us < 2 ^ 31
      → can_reserve (length us) ≡ true
      → IsSendable (user_list_response id now us)
  unfolding user_list_response type_value type_of_int
  response-IsSendable id now us server list texts few room = record {
    username = server;
    text = list;
    in_range = omega arith;
    named = refl;
    listed = (texts, few, room);
  }

  response_lists :
      (id : Uuid) (now : DateTime) (us : List Bytes)
      → (is_user_list (user_list_response id now us).kind ≡ true)
        × ((user_list_response id now us).users ≡ us)
  unfolding user_list_response is_user_list
  response_lists id now us = (refl, refl)

  -- A request at the beginning of a read is answered to the session that read it.
  request_answered :
      (fresh : Uuid) (now : DateTime) (session t : BoostAsioClientSession) (m : Message)
      (tail : Bytes) (s : Server)
      → IsSendable m
      → is_user_list_request m ≡ true
      → IsReady (session.uuid, session)
      → IsSound s
      → find uuid_eq session.uuid s.manager.clients ≡ some t
      → received session.uuid
          (writes (handle_read_message fresh now session (some (write_message m ++ tail)) s).1)
        ≡ write_message (answer fresh now s) ∷ []
  unfolding handle_parsed
  request_answered fresh now session t m tail s sendable asks ready sound found =
      let id = session.uuid in
      let written = (handle_message fresh now m id s.manager).1 in
      ap (λ (r : Server × List Effect). received id (writes r.1))
        (handle_read_message-parsed fresh now session m tail s sendable ready.authenticated)
      ∙ ap (λ es. received id (writes es)) (deliver-effects fresh now session m s ready.messages)
      ∙ ap (received id) (writes-map written (message_received m ∷ []) ∙ append-nil written)
      ∙ (user_list_answered fresh now m id id s.manager sound.serving.valid asks).1
      ∙ ap
          (λ b.
            if b then delivered (find uuid_eq id s.manager.clients) (answer fresh now s) else [])
          ((decide_iff (uuid_eq id id)).1 refl)
      ∙ ap (λ o. delivered o (answer fresh now s)) found
      ∙ ap (λ b. if b then write_message (answer fresh now s) ∷ [] else [])
          (All-find uuid_eq IsReady id t s.manager.clients sound.serving.ready found).authenticated

module _ ⦃qt : Qt⦄ ⦃text : QtText⦄ where
  open qt use {Uuid, DateTime, QString, uuid_eq, from_std_string, can_reserve}
  open text use {first_letter, arg_count}

  -- A click on the users button of a connected window shows, once the answer has arrived, how many
  -- clients of the server are authenticated at the moment of the answer, and a row for each of them
  -- in the order of the map, with the name and its first letter, and no others; or the program stops,
  -- if a name is empty and `at` is checked. Nothing else of the window changes. The server is sound,
  -- has the client as the session that reads, and reads the bytes of the click in one read; names and
  -- literals fit the format; there are fewer than 2 ^ 31 names, and memory for them; and the answer
  -- reaches the client, cut in any way, with an empty buffer and the user list callback set.
  pub users_button_shows_names :
      (answers : ℕ → Answer) (w : ChatWindow) (fresh : Uuid) (now : DateTime)
      (session t : BoostAsioClientSession) (s : Server) (later : DateTime) (bs : List Bytes)
      (c : NetworkClient)
      → Online w
      → IsText w.controller.network_client.username
      → IsText (bytes "REQUEST_USER_LIST")
      → IsText (bytes "Server")
      → IsText (bytes "User list")
      → All IsText (names_of s)
      → length (names_of s) < 2 ^ 31
      → can_reserve (length (names_of s)) ≡ true
      → IsReady (session.uuid, session)
      → IsSound s
      → find uuid_eq session.uuid s.manager.clients ≡ some t
      → c.received_buffer ≡ []
      → c.user_list_callback ≡ true
      → flatten bs
        ≡ flatten (
            received session.uuid (
              writes
                (handle_read_message fresh now session
                  (some (sent (emit_signal answers users_clicked w).1))
                  s).1))
      → let shown_names = map from_std_string (names_of s) in
        handle_events later (receive bs c).1 (emit_signal answers users_clicked w).0 ≡ (
          if has_fatal shown_names
          then none
          else some (record w { user_list_window = some (listing shown_names) }))
  users_button_shows_names answers w fresh now session t s later bs c online user word server list
        texts few room ready sound found empty set arrives =
      let click = emit_signal-users_clicked answers w online in
      let same = get_usernames-eq-map s.manager in
      let reply = answer fresh now s in
      let kinds = response_lists fresh now (get_usernames s.manager) in
      let (l, opened) = opens w.user_list_window in
      let w' : ChatWindow = record w { user_list_window = or_new w.user_list_window } in
      let answered =
        ap
          (λ (r : ChatWindow × List Action).
            received session.uuid
              (writes (handle_read_message fresh now session (some (sent r.1)) s).1))
          click
        ∙ request_answered fresh now session t _ (request_frame (answers 1) w ++ []) s
            (request-IsSendable (answers 0).id (answers 0).now w.controller.network_client user
              word)
            (request_asks (answers 0).id (answers 0).now w.controller.network_client) ready sound
            found in
      ap
        (λ (r : NetworkClient × List Event × Ending).
          handle_events later r.1 (emit_signal answers users_clicked w).0)
        (receive-encode bs c (reply ∷ [])
          (
            response-IsSendable fresh now _ server list (subst (All IsText) (sym same) texts)
                (subst (λ (ns : List Bytes). length ns < 2 ^ 31) (sym same) few)
                (subst (λ (ns : List Bytes). can_reserve (length ns) ≡ true) (sym same) room),
            tt,
          )
          empty (arrives ∙ ap flatten answered))
      ∙ ap (λ es. handle_events later es (emit_signal answers users_clicked w).0)
          (append-nil (dispatch c reply))
      ∙ ap (λ (r : ChatWindow × List Action). handle_events later (dispatch c reply) r.0) click
      ∙ user_list_shown later c reply w' l set kinds.0 opened
      ∙ ap (λ us. put_list w' (update_rows (map from_std_string us) l)) (kinds.1 ∙ same)
      ∙ put_listing w' l (map from_std_string (names_of s))
    where
      opens : (o : Option UserListWindow) → (l : UserListWindow) × (or_new o ≡ some l)
      opens none = (_, refl)
      opens (some l) = (l, refl)
