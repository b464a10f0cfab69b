-- ===== src/Client/ChatWindow.antt =====
-- client/include/chat_window.h, client/src/chat_window.cpp: what the chat window shows, and its slots.
-- Layouts are kept as far as they tell the user's own messages from the others'.
pub mod Shown
pub mod Wiring
pub mod Clicks
pub mod Ui
pub mod Rows
pub mod Acts
pub mod Draws
pub mod Hearing
pub mod Slots
pub mod Happenings
pub mod Screen
use qt_messenger.Prelude.{
  Bool, true, false, Option, none, some, List, [], ◌∷◌, ◌++◌, Bytes, bytes, bytes_eq, if◌then◌else◌,
}
use qt_messenger.Qt.{Qt}
use qt_messenger.Message.{Message}
use qt_messenger.Client.NetworkClient.{NetworkClient, Event, request_user_list}
use qt_messenger.Client.ChatController.{
  ChatController, new_controller, send_input, disconnect_controller,
}
use qt_messenger.Client.QtText.{QtText, is_fatal}
use qt_messenger.Client.UserListWindow.{UserListWindow, update_rows}

-- The parts of a row of the chat, in the order of its layout.
pub data Part : Type 0 where
  stretch bubble avatar : Part

module _ ⦃qt : Qt⦄ where
  open qt use {QString}

  pub record Bubble : Type 0 where
    pub widget_name : Bytes
    pub bubble_name : Bytes
    pub avatar_letter : QString
    pub avatar_color : Bytes
    pub bubble_color : Bytes
    pub sharp_corner : Bytes
    pub name : QString
    pub name_color : Bytes
    pub time : QString
    pub text : QString
    pub order : List Part

  pub data Item : Type 0 where
    chat_item : Bubble → Item
    system_item : QString → Item

  pub record ChatWindow : Type 0 where
    pub controller : ChatController
    pub input_field : QString
    pub items : List Item
    pub status : QString
    pub status_color : Bytes
    pub user_list_window : Option UserListWindow
    pub is_open : Bool

module _ ⦃qt : Qt⦄ ⦃text : QtText⦄ where
  open qt use {Uuid, DateTime, QString, from_std_string, to_std_string, trimmed, is_empty}
  open text use {first_letter, hours_minutes, arg_texts}

  unfoldable pub update_connection_status : Bool → ChatWindow → ChatWindow
  update_connection_status connected w =
      if connected
      then record w { status = from_std_string (bytes "Connected"); status_color = bytes "#28a745" }
      else record w {
        status = from_std_string (bytes "Disconnected");
        status_color = bytes "#dc3545";
      }

  -- the constructor
  unfoldable pub new_window : NetworkClient → ChatWindow
  unfolding update_connection_status
  new_window c = update_connection_status false (record {
    controller = new_controller c;
    input_field = from_std_string [];
    items = [];
    status = from_std_string [];
    status_color = [];
    user_list_window = none;
    is_open = true;
  })

  unfoldable pub get_input_text : ChatWindow → Bytes
  get_input_text w = to_std_string (trimmed w.input_field)

  -- What `displayChatMessage` builds for a message of the user `me` or of another.
  unfoldable pub bubble_of : Bool → Message → Bubble
  bubble_of own m = record {
    widget_name = if own then bytes "ownMessageWidget" else bytes "otherMessageWidget";
    bubble_name = if own then bytes "ownBubble" else bytes "otherBubble";
    avatar_letter = first_letter (from_std_string m.username);
    avatar_color = if own then bytes "#179cde" else bytes "#9e9e9e";
    bubble_color = if own then bytes "#e3f2fd" else bytes "white";
    sharp_corner = if own then bytes "top-right" else bytes "top-left";
    name = if own then from_std_string (bytes "You") else from_std_string m.username;
    name_color = if own then bytes "#179cde" else bytes "#333333";
    time = hours_minutes m.timestamp;
    text = from_std_string m.text;
    order = if own then stretch ∷ bubble ∷ avatar ∷ [] else avatar ∷ bubble ∷ stretch ∷ [];
  }

  abbrev pub is_own_message : ChatWindow → Message → Bool
  is_own_message w m = bytes_eq m.username w.controller.username

  -- `.at(0)` is out of range for an empty user name: the program stops there if `at` is checked.
  unfoldable pub display_chat_message : Message → ChatWindow → Option ChatWindow
  unfolding bubble_of
  display_chat_message m w =
      if is_fatal (from_std_string m.username)
      then none
      else some (record w { items = w.items ++ chat_item (bubble_of (is_own_message w m) m) ∷ [] })

  -- `displaySystemMessage` at the time `now`
  unfoldable pub display_system_message : DateTime → Bytes → ChatWindow → ChatWindow
  display_system_message now message w = record w {
    items =
        w.items
        ++ system_item (arg_texts (bytes "[%1] %2") (hours_minutes now) (from_std_string message))
          ∷ [];
  }

  abbrev pub put_list : ChatWindow → Option UserListWindow → Option ChatWindow
  put_list w none = none
  put_list w (some l) = some (record w { user_list_window = some l })

  abbrev pub update_list : List QString → Option UserListWindow → ChatWindow → Option ChatWindow
  update_list us none w = some w
  update_list us (some l) w = put_list w (update_rows us l)

  unfoldable pub update_user_list : List QString → ChatWindow → Option ChatWindow
  update_user_list us w = update_list us w.user_list_window w

  -- What the network client signals and calls, as `connectSignals` and `setupNetworkCallbacks` wire
  -- it; nothing is connected to `messageReceived` and `disconnected`.
  unfoldable pub handle_event : DateTime → Event → ChatWindow → Option ChatWindow
  unfolding update_user_list
  handle_event now (Event.connection_status_changed on) w = some (update_connection_status on w)
  handle_event now (Event.calls_connection on) w = some (update_connection_status on w)
  handle_event now (Event.user_list_received us) w = update_user_list us w
  handle_event now (Event.calls_user_list us) w = update_user_list us w
  handle_event now (Event.calls_message m) w = display_chat_message m w
  handle_event now Event.calls_disconnected w =
      some (display_system_message now (bytes "Disconnected from server") w)
  handle_event now _ w = some w

  abbrev pub and_handle : (ChatWindow → Option ChatWindow) → Option ChatWindow → Option ChatWindow
  and_handle next none = none
  and_handle next (some w) = next w

  unfoldable pub handle_events : DateTime → List Event → ChatWindow → Option ChatWindow
  unfolding handle_event
  handle_events now [] w = some w
  handle_events now (e ∷ es) w = and_handle (handle_events now es) (handle_event now e w)

  -- `sendMessage`: the controller clears the field of a text that is not empty.
  unfoldable pub send_from_window : Uuid → DateTime → ChatWindow → ChatWindow × List Event
  unfolding get_input_text
  send_from_window id now w =
      let (es, cleared) = send_input id now (get_input_text w) w.controller in
      (if cleared then record w { input_field = from_std_string [] } else w, es)

  -- `logout`, with the answer of the dialog and how the socket closed
  unfoldable pub logout : Bool → Bool → ChatWindow → ChatWindow × List Event
  logout confirmed at_once w =
      if confirmed
      then (let (controller, es) = disconnect_controller at_once w.controller in
          (record w { controller = controller; is_open = false }, es))
      else (w, [])

  abbrev pub or_new : Option UserListWindow → Option UserListWindow
  or_new none = some (record { rows = []; counter = from_std_string (bytes "0 users") })
  or_new (some l) = some l

  -- `openUserListWindow`
  unfoldable pub open_user_list_window : Uuid → DateTime → ChatWindow → ChatWindow × List Event
  open_user_list_window id now w = (
    record w { user_list_window = or_new w.user_list_window },
    request_user_list id now w.controller.network_client,
  )
