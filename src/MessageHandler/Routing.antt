-- ===== src/MessageHandler/Routing.antt =====
-- Where message_handler.cpp sends what: a request for the user list to its sender alone, with the
-- names of the authenticated clients; anything else to all of them.
use qt_messenger.Prelude.{
  ap, ◌∙◌, bytes, ◌≡◌, refl, true, false, List, [], ◌∷◌, map, filter_by, decide, if◌then◌else◌,
  Bytes, arith,
}
use qt_messenger.Qt.{Qt}
use qt_messenger.Message.{Message, system, user_list, is_system}
use qt_messenger.Session.{ClientSession}
use qt_messenger.UnorderedMap.{find}
use qt_messenger.ClientManager.{
  ClientManager, usernames_of, get_usernames, Call, broadcast, send_to, perform,
}
use qt_messenger.ClientManager.Invariant.{IsValid}
use qt_messenger.ClientManager.Delivery.{received, delivered, received-broadcast, received-send_to}
use qt_messenger.MessageHandler.{is_user_list_request, user_list_response, handle_message}

module _ ⦃qt : Qt⦄ {S : Type 0} ⦃session : ClientSession S⦄ where
  open qt use {Uuid}
  open session use {username, is_authenticated}

  -- The names are those of the authenticated clients, one for each, in the map's order.
  pub get_usernames-eq-map :
      (cm : ClientManager S)
      → get_usernames cm
        ≡ map
            (λ (c : Uuid × S). username c.1)
            (filter_by (λ (c : Uuid × S). is_authenticated c.1) cm.clients)
  unfolding get_usernames
  get_usernames-eq-map cm = names cm.clients
    where
      names :
          (cs : List (Uuid × S))
          → usernames_of cs
            ≡ map
                (λ (c : Uuid × S). username c.1)
                (filter_by (λ (c : Uuid × S). is_authenticated c.1) cs)
      names [] = refl
      names ((j, s) ∷ cs) = ground (arith, names cs)

module _ ⦃qt : Qt⦄ {S : Type 0} ⦃session : ClientSession S⦄ (id : qt.Uuid) (now : qt.DateTime) where
  open qt use {Uuid, uuid_eq}
  open session use {username, is_authenticated}

  -- The call of the client manager that a message leads to, when the names that it reads are `us`.
  abbrev pub call_of : Message → Uuid → List Bytes → Call S
  call_of m sender us =
      if is_user_list_request m then send_to sender (user_list_response id now us) else broadcast m

  -- Handling a message is one call of the client manager.
  pub handle_message-perform :
      (m : Message) (sender : Uuid) (cm : ClientManager S)
      → handle_message id now m sender cm ≡ perform (call_of m sender (get_usernames cm)) cm
  unfolding handle_message perform
  handle_message-perform m sender cm = ground arith

  -- In a valid state, a request is answered to its sender, if that client is connected and
  -- authenticated; nobody else is written to, and the state stays.
  pub user_list_answered :
      (m : Message) (sender j : Uuid) (cm : ClientManager S)
      → IsValid cm
      → is_user_list_request m ≡ true
      → ((handle_message id now m sender cm).0 ≡ cm)
        × (received j (handle_message id now m sender cm).1 ≡ (
            if decide (uuid_eq sender j)
            then delivered
                (find uuid_eq j cm.clients)
                (user_list_response id now (get_usernames cm))
            else []))
  unfolding handle_message
  user_list_answered m sender j cm v h =
      rw h (refl, received-send_to j sender (user_list_response id now (get_usernames cm)) cm v)

  -- In a valid state, a system message with the text "REQUEST_USER_LIST" leaves the state as it is
  -- and is answered to its sender alone, if that client is connected and authenticated: a user list
  -- from "Server" with the text "User list", the identifier and the time of the answer, and the names
  -- of the authenticated clients, one for each of them and in the order of the map. No other client is
  -- written anything.
  pub user_list_request_answered :
      (m : Message) (sender j : Uuid) (cm : ClientManager S)
      → IsValid cm
      → m.kind ≡ system
      → m.text ≡ bytes "REQUEST_USER_LIST"
      → ((handle_message id now m sender cm).0 ≡ cm)
        × (received j (handle_message id now m sender cm).1 ≡ (
            if decide (uuid_eq sender j)
            then delivered (find uuid_eq j cm.clients) (record {
              sender_id = id;
              username = bytes "Server";
              text = bytes "User list";
              timestamp = now;
              kind = user_list;
              users =
                  map
                    (λ (c : Uuid × S). username c.1)
                    (filter_by (λ (c : Uuid × S). is_authenticated c.1) cm.clients);
            })
            else []))
  unfolding is_user_list_request is_system user_list_response
  user_list_request_answered m sender j cm v k t =
      let (stays, answered) = user_list_answered m sender j cm v (rw (k, t) refl) in
      (
        stays,
        answered
            ∙ ap
                (λ us.
                  if decide (uuid_eq sender j)
                  then delivered (find uuid_eq j cm.clients) (user_list_response id now us)
                  else [])
                (get_usernames-eq-map cm),
      )

  -- Any other message, whatever its type and its claimed sender, reaches every authenticated client
  -- unchanged, the sender too.
  pub chat_message :
      (m : Message) (sender j : Uuid) (cm : ClientManager S)
      → IsValid cm
      → is_user_list_request m ≡ false
      → received j (handle_message id now m sender cm).1 ≡ delivered (find uuid_eq j cm.clients) m
  unfolding handle_message
  chat_message m sender j cm v h = rw h (received-broadcast j m cm v)
