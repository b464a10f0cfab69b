-- ===== src/ClientManager.antt =====
-- server/include/client_manager.h, server/src/client_manager.cpp: the registry of clients and the
-- chat history. Each method runs under `m_clientsMutex`, so it is one function from state to state;
-- what the clients' sockets are given comes back beside the state, in order.
pub mod History
pub mod Invariant
pub mod Delivery
pub mod Joining
pub mod Room
pub mod Runs
pub mod Refinement
use qt_messenger.Prelude.{
  ℕ, Option, none, some, List, [], ◌∷◌, ◌++◌, length, drop, leb, Bytes, if◌then◌else◌,
}
use qt_messenger.Qt.{Qt}
use qt_messenger.Message.{Message}
use qt_messenger.Session.{Write, ClientSession}
use qt_messenger.UnorderedMap.{find, emplace, erase}

-- `MAX_HISTORY_SIZE`
abbrev pub max_history_size : ℕ
max_history_size = 100

-- The oldest message goes when the history is full.
unfoldable pub push_message {ℓ} : {A : Type ℓ} → A → List A → List A
push_message m history =
    (if leb max_history_size (length history) then drop 1 history else history) ++ m ∷ []

module _ ⦃qt : Qt⦄ (S : Type 0) where
  open qt use {Uuid}

  pub record ClientManager : Type 0 where
    pub clients : List (Uuid × S)
    pub chat_history : List Message

  -- A call of one of the methods that change the state or write to clients.
  pub data Call : Type 0 where
    add : Uuid → S → Call
    remove : Uuid → Call
    broadcast : Message → Call
    send_to : Uuid → Message → Call
    clears : Call

module _ ⦃qt : Qt⦄ {S : Type 0} ⦃session : ClientSession S⦄ where
  open qt use {Uuid, uuid_eq}
  open session use {username, is_authenticated, send_message}

  -- the constructor
  unfoldable pub new_manager : ClientManager S
  new_manager = record { clients = []; chat_history = [] }

  -- `for (const auto& msg : m_chatHistory) sessionPtr->sendMessage(msg)`
  unfoldable pub replay : S → List Message → List Write
  replay s [] = []
  replay s (m ∷ ms) = send_message s m ++ replay s ms

  -- `m_clients.at(clientId)` behind the insertion always finds a session.
  unfoldable pub replay_to : Option S → List Message → List Write
  replay_to none history = []
  replay_to (some s) history = replay s history

  unfoldable pub add_client : Uuid → S → ClientManager S → ClientManager S × List Write
  unfolding replay_to
  add_client id s cm =
      let clients = emplace uuid_eq id s cm.clients in
      (record cm { clients = clients }, replay_to (find uuid_eq id clients) cm.chat_history)

  unfoldable pub remove_client : Uuid → ClientManager S → ClientManager S
  remove_client id cm = record cm { clients = erase uuid_eq id cm.clients }

  unfoldable pub add_message : Message → ClientManager S → ClientManager S
  unfolding push_message
  add_message m cm = record cm { chat_history = push_message m cm.chat_history }

  -- `if (client->isAuthenticated()) client->sendMessage(message)`
  unfoldable pub send_if_authenticated : S → Message → List Write
  send_if_authenticated s m = if is_authenticated s then send_message s m else []

  unfoldable pub send_all : List (Uuid × S) → Message → List Write
  unfolding send_if_authenticated
  send_all [] m = []
  send_all ((id, s) ∷ rest) m = send_if_authenticated s m ++ send_all rest m

  unfoldable pub broadcast_message : Message → ClientManager S → ClientManager S × List Write
  unfolding add_message
  broadcast_message m cm = (add_message m cm, send_all cm.clients m)

  unfoldable pub usernames_of : List (Uuid × S) → List Bytes
  usernames_of [] = []
  usernames_of ((id, s) ∷ rest) =
      if is_authenticated s then username s ∷ usernames_of rest else usernames_of rest

  unfoldable pub get_usernames : ClientManager S → List Bytes
  unfolding usernames_of
  get_usernames cm = usernames_of cm.clients

  unfoldable pub send_found : Option S → Message → List Write
  unfolding send_if_authenticated
  send_found none m = []
  send_found (some s) m = send_if_authenticated s m

  unfoldable pub send_message_to_client : Uuid → Message → ClientManager S → List Write
  unfolding send_found
  send_message_to_client id m cm = send_found (find uuid_eq id cm.clients) m

  unfoldable pub get_client_count : ClientManager S → ℕ
  get_client_count cm = length cm.clients

  unfoldable pub get_chat_history : ClientManager S → List Message
  get_chat_history cm = cm.chat_history

  unfoldable pub clear : ClientManager S → ClientManager S
  clear cm = record { clients = []; chat_history = [] }

  unfoldable pub perform : Call S → ClientManager S → ClientManager S × List Write
  perform (add id s) cm = add_client id s cm
  perform (remove id) cm = (remove_client id cm, [])
  perform (broadcast m) cm = broadcast_message m cm
  perform (send_to id m) cm = (cm, send_message_to_client id m cm)
  perform clears cm = (clear cm, [])

  -- Calls in the order in which they take the mutex, whichever threads make them.
  unfoldable pub run : List (Call S) → ClientManager S → ClientManager S × List Write
  run [] cm = (cm, [])
  run (c ∷ cs) cm = let (cm', ws) = perform c cm in let (cm'', vs) = run cs cm' in (cm'', ws ++ vs)
