-- ===== src/Client/NetworkClient.antt =====
-- client/include/network_client.h, client/include/inetwork_client.h, client/src/network_client.cpp:
-- the client's side of the connection. Each method and slot returns the new state and what it did,
-- in order: bytes written, signals emitted, callbacks called.
pub mod Loop
pub mod Cut
pub mod Reassembly
pub mod Lifecycle
use qt_messenger.Prelude.{
  ℕ, zero, suc, ◌-◌, Bool, true, false, not, ◌&&◌, Option, none, some, List, [], ◌∷◌, ◌++◌, map,
  length, drop, is_nil, Bytes, bytes, ltb, if◌then◌else◌,
}
use qt_messenger.Qt.{Qt, Status, Stream, open_read}
use qt_messenger.Reader.{Outcome, returned, threw}
use qt_messenger.Message.{
  Message, blank, new_message, system, is_user_list, write_message, read_message,
}
use qt_messenger.Client.AuthHandler.{send_credentials}

-- `QAbstractSocket::SocketState`, the states that a TCP client goes through
pub data SocketState : Type 0 where
  unconnected connecting connected closing : SocketState

unfoldable pub is_connected : Option SocketState → Bool
is_connected (some connected) = true
is_connected _ = false

abbrev pub is_ok : Status → Bool
is_ok Status.ok = true
is_ok _ = false

-- How the loop of `processBuffer` ended: by its condition or `break`, by an exception out of
-- `operator>>`, or, in the model alone, without fuel.
pub data Ending : Type 0 where
  finished raised out_of_fuel : Ending

module _ ⦃qt : Qt⦄ where
  open qt use {Uuid, DateTime, QString, from_std_string}

  -- Of a callback only whether it is set is part of the client.
  pub record NetworkClient : Type 0 where
    pub socket : Option SocketState
    pub username : Bytes
    pub password : Bytes
    pub message_callback : Bool
    pub connection_callback : Bool
    pub disconnected_callback : Bool
    pub user_list_callback : Bool
    pub received_buffer : Bytes
    pub connected_flag : Bool

  pub data Event : Type 0 where
    connect_to_host : Bytes → ℕ → Event
    disconnect_from_host : Event
    wrote : Bytes → Event
    connection_status_changed : Bool → Event
    user_list_received : List QString → Event
    message_received : Message → Event
    disconnected : Event
    calls_connection : Bool → Event
    calls_user_list : List QString → Event
    calls_message : Message → Event
    calls_disconnected : Event

  -- `if (callback) callback(...)`
  abbrev pub if_set : Bool → Event → List Event
  if_set callback e = if callback then e ∷ [] else []

  unfoldable pub new_client : NetworkClient
  new_client = record {
    socket = none;
    username = [];
    password = [];
    message_callback = false;
    connection_callback = false;
    disconnected_callback = false;
    user_list_callback = false;
    received_buffer = [];
    connected_flag = false;
  }

  -- `setMessageCallback`, `setConnectionCallback`, `setDisconnectedCallback`, `setUserListCallback`
  unfoldable pub set_message_callback : NetworkClient → NetworkClient
  set_message_callback c = record c { message_callback = true }

  unfoldable pub set_connection_callback : NetworkClient → NetworkClient
  set_connection_callback c = record c { connection_callback = true }

  unfoldable pub set_disconnected_callback : NetworkClient → NetworkClient
  set_disconnected_callback c = record c { disconnected_callback = true }

  unfoldable pub set_user_list_callback : NetworkClient → NetworkClient
  set_user_list_callback c = record c { user_list_callback = true }

  -- `connectToServer`, with the fresh socket of `setupSocket`
  unfoldable pub connect_to_server :
      Bytes → ℕ → Bytes → Bytes → NetworkClient → NetworkClient × List Event
  connect_to_server host port username password c = (
    record c { socket = some connecting; username = username; password = password },
    connect_to_host host port ∷ [],
  )

  unfoldable pub on_connected : NetworkClient → NetworkClient × List Event
  on_connected c = (
    record c { socket = some connected; connected_flag = true },
    wrote (send_credentials c.username c.password)
        ∷ connection_status_changed true
        ∷ if_set c.connection_callback (calls_connection true),
  )

  unfoldable pub on_disconnected : NetworkClient → NetworkClient × List Event
  on_disconnected c = (
    record c { socket = some unconnected; connected_flag = false },
    if_set c.disconnected_callback calls_disconnected
        ++ (disconnected
            ∷ connection_status_changed false
            ∷ if_set c.connection_callback (calls_connection false)),
  )

  -- `onError`, with the state that the socket is in by then
  unfoldable pub on_error : Option SocketState → NetworkClient → NetworkClient × List Event
  on_error state c = (
    record c { socket = state },
    if_set (c.connection_callback && not (is_connected state)) (calls_connection false),
  )

  -- `disconnectFromHost` may emit `disconnected` before it returns.
  unfoldable pub close_socket : Bool → NetworkClient → NetworkClient × List Event
  unfolding on_disconnected
  close_socket at_once c =
      if at_once then on_disconnected c else (record c { socket = some closing }, [])

  unfoldable pub leave_host : Bool → NetworkClient → NetworkClient × List Event
  unfolding close_socket
  leave_host at_once c =
      let (c', es) = close_socket at_once c in
      if is_connected c.socket then (c', disconnect_from_host ∷ es) else (c, [])

  unfoldable pub disconnect : Bool → NetworkClient → NetworkClient × List Event
  unfolding leave_host
  disconnect at_once c =
      let (c', es) = leave_host at_once c in
      (record c' { received_buffer = []; connected_flag = false }, es)

  unfoldable pub send_message : Uuid → DateTime → Bytes → NetworkClient → List Event
  unfolding is_connected
  send_message id now text c =
      if not (is_connected c.socket)
      then []
      else wrote (write_message (new_message id c.username text now)) ∷ []

  unfoldable pub user_list_request : Uuid → DateTime → NetworkClient → Message
  user_list_request id now c = record (new_message id c.username (bytes "REQUEST_USER_LIST") now) {
    kind = system;
  }

  unfoldable pub request_user_list : Uuid → DateTime → NetworkClient → List Event
  unfolding is_connected
  request_user_list id now c =
      if not (is_connected c.socket)
      then []
      else wrote (write_message (user_list_request id now c)) ∷ []

  -- What the loop of `processBuffer` does with one message.
  unfoldable pub dispatch : NetworkClient → Message → List Event
  dispatch c m =
      if is_user_list m.kind
      then (let users = map from_std_string m.users in
          user_list_received users ∷ if_set c.user_list_callback (calls_user_list users))
      else message_received m ∷ if_set c.message_callback (calls_message m)

  -- The rest of the loop: its events, the bytes behind the position, how it ended.
  pub record Pass : Type 0 where
    pub events : List Event
    pub rest : Bytes
    pub ending : Ending

  abbrev pub stop_at : Ending → Stream → Pass
  stop_at ending s = record { events = []; rest = s.rest; ending = ending }

  abbrev pub after_message : List Event → Pass → Pass
  after_message es p = record p { events = es ++ p.events }

  -- After `stream >> msg`, at the position `s` before it: `seek` goes back there.
  unfoldable pub after_read :
      NetworkClient → Stream → (Stream → Pass) → Outcome Message × Stream → Pass
  after_read c s loop (threw, s') = stop_at raised s
  after_read c s loop (returned m, s') =
      if is_ok s'.status then after_message (dispatch c m) (loop s') else stop_at finished s

  -- `while (!stream.atEnd())`
  unfoldable pub process_loop : ℕ → NetworkClient → Stream → Pass
  unfolding after_read
  process_loop zero c s = stop_at out_of_fuel s
  process_loop (suc fuel) c s =
      if is_nil s.rest
      then stop_at finished s
      else after_read c s (process_loop fuel c) (read_message blank s)

  -- An exception leaves the buffer as it is.
  unfoldable pub remove_processed : NetworkClient → Pass → NetworkClient × List Event × Ending
  remove_processed c p = elim p.ending [
    | finished ↦
        let processed = length c.received_buffer - length p.rest in
        (
          record c {
            received_buffer =
                if ltb 0 processed then drop processed c.received_buffer else c.received_buffer;
          },
          p.events,
          finished,
        )
    | other ↦ (c, p.events, other)
  ]

  -- Each round takes a byte at least, so one round more than there are bytes is enough.
  unfoldable pub process_buffer : NetworkClient → NetworkClient × List Event × Ending
  unfolding process_loop remove_processed
  process_buffer c =
      remove_processed c
        (process_loop (suc (length c.received_buffer)) c (open_read c.received_buffer))

  -- `onReadyRead`, with the bytes that `readAll` gave
  unfoldable pub on_ready_read : Bytes → NetworkClient → NetworkClient × List Event × Ending
  unfolding process_buffer
  on_ready_read received c =
      process_buffer (record c { received_buffer = c.received_buffer ++ received })
