-- ===== src/Client/ChatController.antt =====
-- client/include/chat_controller.h, client/src/chat_controller.cpp: between the chat window and the
-- network client.
use qt_messenger.Prelude.{ℕ, Bool, true, false, not, List, [], Bytes, is_nil, if◌then◌else◌}
use qt_messenger.Qt.{Qt}
use qt_messenger.Client.NetworkClient.{
  NetworkClient, Event, set_message_callback, set_connection_callback, set_disconnected_callback,
  set_user_list_callback, send_message, connect_to_server, disconnect,
}

module _ ⦃qt : Qt⦄ where
  open qt use {Uuid, DateTime}

  pub record ChatController : Type 0 where
    pub network_client : NetworkClient
    pub username : Bytes

  -- `setupNetworkCallbacks`
  unfoldable pub setup_network_callbacks : NetworkClient → NetworkClient
  setup_network_callbacks c =
      set_user_list_callback
        (set_disconnected_callback (set_connection_callback (set_message_callback c)))

  -- the constructor
  unfoldable pub new_controller : NetworkClient → ChatController
  unfolding setup_network_callbacks
  new_controller c = record { network_client = setup_network_callbacks c; username = [] }

  -- `sendMessage(const std::string&)`
  unfoldable pub send_text_message : Uuid → DateTime → Bytes → ChatController → List Event
  send_text_message id now message c =
      if not (is_nil message) then send_message id now message c.network_client else []

  -- `sendMessage()` on the text of the input field, and whether it clears the field.
  unfoldable pub send_input : Uuid → DateTime → Bytes → ChatController → List Event × Bool
  send_input id now input c =
      if not (is_nil input) then (send_message id now input c.network_client, true) else ([], false)

  unfoldable pub set_username : Bytes → ChatController → ChatController
  set_username username c = record c { username = username }

  unfoldable pub connect_controller :
      Bytes → ℕ → Bytes → Bytes → ChatController → ChatController × List Event
  connect_controller host port username password c =
      let (client, es) = connect_to_server host port username password c.network_client in
      (record c { username = username; network_client = client }, es)

  unfoldable pub disconnect_controller : Bool → ChatController → ChatController × List Event
  disconnect_controller at_once c =
      let (client, es) = disconnect at_once c.network_client in
      (record c { network_client = client }, es)
