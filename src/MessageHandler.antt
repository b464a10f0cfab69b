-- ===== src/MessageHandler.antt =====
-- server/include/message_handler.h, server/src/message_handler.cpp: what the server does with a
-- message that a client sent. A request for the user list takes the client manager's mutex twice:
-- once to read the names, once to send them.
pub mod Routing
pub mod Threads
use qt_messenger.Prelude.{Bool, ◌&&◌, List, Bytes, bytes, bytes_eq, if◌then◌else◌}
use qt_messenger.Qt.{Qt}
use qt_messenger.Message.{Message, user_list, is_system}
use qt_messenger.Session.{Write, ClientSession}
use qt_messenger.ClientManager.{
  ClientManager, get_usernames, send_message_to_client, broadcast_message,
}

module _ ⦃qt : Qt⦄ where
  open qt use {Uuid, DateTime}

  unfoldable pub is_user_list_request : Message → Bool
  is_user_list_request m = is_system m.kind && bytes_eq m.text (bytes "REQUEST_USER_LIST")

  -- The response, with the identifier from `createUuid` and the current time.
  unfoldable pub user_list_response : Uuid → DateTime → List Bytes → Message
  user_list_response id now usernames = record {
    sender_id = id;
    username = bytes "Server";
    text = bytes "User list";
    timestamp = now;
    kind = user_list;
    users = usernames;
  }

module _ ⦃qt : Qt⦄ {S : Type 0} ⦃session : ClientSession S⦄ (id : qt.Uuid) (now : qt.DateTime) where
  open qt use {Uuid}

  unfoldable pub handle_user_list_request : Uuid → ClientManager S → ClientManager S × List Write
  handle_user_list_request sender cm =
      (cm, send_message_to_client sender (user_list_response id now (get_usernames cm)) cm)

  unfoldable pub handle_chat_message : Message → ClientManager S → ClientManager S × List Write
  handle_chat_message m cm = broadcast_message m cm

  unfoldable pub handle_message : Message → Uuid → ClientManager S → ClientManager S × List Write
  unfolding handle_user_list_request handle_chat_message
  handle_message m sender cm =
      if is_user_list_request m
      then handle_user_list_request sender cm
      else handle_chat_message m cm
