-- ===== src/Server.antt =====
-- server/include/multithreaded_server.h, server/src/multithreaded_server.cpp, and the reading half of
-- server/src/boost_asio_client_session.cpp: the server as a machine over the completions that
-- `io_context` delivers. Sockets and sessions that wait for a completion are part of the state.
pub mod Auth
pub mod Serving
pub mod Invariant
pub mod Relay
pub mod Lifecycle
pub mod Accepting
pub mod Framing
pub mod Calls
pub mod Making
pub mod Served
pub mod Main
use qt_messenger.Prelude.{
  ℕ, suc, ◌+◌, ◌-◌, ◌||◌, Bool, true, false, not, ◌&&◌, Option, none, some, List, [], ◌∷◌, ◌++◌,
  map, Bytes, is_nil, if◌then◌else◌, ◌==◌, ltb, filter_by, contains, is_some,
}
use qt_messenger.Qt.{Qt, Stream, open_read}
use qt_messenger.Reader.{Outcome, Reader, returned, threw, ◌>>=◌, pure}
use qt_messenger.Message.{Message, blank, read_text, read_message}
use qt_messenger.Session.{Write}
use qt_messenger.Session.Boost.{
  wrapped_session, BoostAsioClientSession, new_session, authenticate, set_message_callback,
  set_disconnect_callback,
}
use qt_messenger.UnorderedMap.{find, emplace, erase}
use qt_messenger.ClientManager.{ClientManager, new_manager, add_client, remove_client, clear}
use qt_messenger.MessageHandler.{handle_message}

module _ ⦃qt : Qt⦄ where
  open qt use {Uuid, DateTime, QString, uuid_eq, from_std_string}

  pub record Server : Type 0 where
    pub running : Bool
    -- `m_io_context` after `stop()`: it runs no more handlers.
    pub io_stopped : Bool
    -- An exception has left a thread: the process has ended, and none of its threads is left.
    pub terminated : Bool
    -- `m_threads.size()` and `m_threads.capacity()`
    pub threads : ℕ
    pub capacity : ℕ
    -- accepts that were started and have not completed
    pub accepts : ℕ
    -- connections whose credentials are being read
    pub pending : List ℕ
    -- sessions with a read in progress
    pub sessions : List (Uuid × BoostAsioClientSession)
    pub manager : ClientManager BoostAsioClientSession

  -- What the outside sees: the writes, the closed sockets, the signals.
  pub data Effect : Type 0 where
    wrote : Write → Effect
    closed : ℕ → Effect
    new_connection : Uuid → Effect
    client_disconnected : Uuid → Effect
    message_received : Message → Effect

  -- What an accept gives: an error, a socket, or a socket whose peer is gone already, so that
  -- `remote_endpoint()` throws.
  pub data Accept : Type 0 where
    accept_error : Accept
    connected_socket : ℕ → Accept
    lost_socket : Accept

  -- A completion, with what the world adds to it. A read error carries no bytes.
  pub data Completion : Type 0 where
    -- `async_accept`
    accepted : Accept → Completion
    -- the first read on a socket: the bytes or an error, and the identifier of the new session
    credentials : ℕ → Option Bytes → Uuid → Completion
    -- a read of a session, with an identifier and the time for a response
    read_done : Uuid → Option Bytes → Uuid → DateTime → Completion

  -- `checkUser` of the database at the moment of the call; `none` is a server without a database.
  abbrev pub CheckUser : Type 0
  CheckUser = Option (QString → QString → Bool)

  -- the constructor, where `reserve` gave `capacity`
  unfoldable pub new_server : ℕ → Server
  new_server capacity = record {
    running = false;
    io_stopped = false;
    terminated = false;
    threads = 0;
    capacity = capacity;
    accepts = 0;
    pending = [];
    sessions = [];
    manager = new_manager;
  }

  unfoldable pub accept_connections : Server → Server
  accept_connections s = record s { accepts = s.accepts + 1 }

  unfoldable pub start : Server → Server
  unfolding accept_connections
  start s =
      if s.running
      then s
      else let s' = accept_connections (record s { running = true }) in
        record s' { threads = s'.threads + s'.capacity }

  unfoldable pub stop : Server → Server
  stop s =
      if not s.running
      then s
      else record s { running = false; io_stopped = true; threads = 0; manager = clear s.manager }

  -- `authenticate_client_impl`; `authenticate_client` runs it on the thread of the server object.
  unfoldable pub authenticate_client : CheckUser → Bytes → Bytes → Bool
  authenticate_client (some check_user) username password =
      check_user (from_std_string username) (from_std_string password)
  authenticate_client none username password = not (is_nil username) && not (is_nil password)

  -- `stream >> username >> password`
  unfoldable pub read_credentials : Reader (Bytes × Bytes)
  read_credentials = do username ← read_text; password ← read_text; pure (username, password)

  -- The accepted branch: the session joins the manager, and its first read starts.
  unfoldable pub admit : Uuid → Bytes → Bytes → Server → Server × List Effect
  admit id username password s =
      let (session, _) = authenticate (new_session id) username password in
      let session' = set_disconnect_callback (set_message_callback session) in
      let (manager, writes) = add_client id session' s.manager in
      (
        record s { manager = manager; sessions = emplace uuid_eq id session' s.sessions },
        map wrote writes ++ new_connection id ∷ [],
      )

  unfoldable pub check_credentials :
      CheckUser → ℕ → Uuid → Outcome (Bytes × Bytes) → Server → Server × List Effect
  unfolding admit
  check_credentials db socket id (returned (username, password)) s =
      if authenticate_client db username password
      then admit id username password s
      else (s, closed socket ∷ [])
  check_credentials db socket id threw s = (s, closed socket ∷ [])

  -- The handler that `handle_connection` gives to the first read.
  unfoldable pub handle_credentials :
      CheckUser → ℕ → Option Bytes → Uuid → Server → Server × List Effect
  unfolding check_credentials
  handle_credentials db socket none id s = (s, [])
  handle_credentials db socket (some received) id s =
      check_credentials db socket id (read_credentials (open_read received)).0 s

  -- The disconnect callback, if it is set.
  unfoldable pub disconnect : BoostAsioClientSession → Server → Server × List Effect
  disconnect session s =
      if session.disconnect_callback
      then (
        record s { manager = remove_client session.uuid s.manager },
        client_disconnected session.uuid ∷ [],
      )
      else (s, [])

  -- The message callback, if it is set.
  unfoldable pub deliver :
      Uuid → DateTime → BoostAsioClientSession → Message → Server → Server × List Effect
  deliver fresh now session m s =
      if session.message_callback
      then (let (manager, writes) = handle_message fresh now m session.uuid s.manager in
          (record s { manager = manager }, map wrote writes ++ message_received m ∷ []))
      else (s, [])

  unfoldable pub async_read : BoostAsioClientSession → Server → Server
  async_read session s = record s { sessions = emplace uuid_eq session.uuid session s.sessions }

  -- What `stream >> msg` gave; an exception is caught. Either way the next read starts.
  unfoldable pub handle_parsed :
      Uuid → DateTime → BoostAsioClientSession → Outcome Message → Server → Server × List Effect
  unfolding deliver async_read
  handle_parsed fresh now session (returned m) s =
      let (s', effects) = deliver fresh now session m s in (async_read session s', effects)
  handle_parsed fresh now session threw s = (async_read session s, [])

  -- `handleReadMessage`. The read that completed is no longer in progress.
  unfoldable pub handle_read_message :
      Uuid → DateTime → BoostAsioClientSession → Option Bytes → Server → Server × List Effect
  unfolding disconnect handle_parsed
  handle_read_message fresh now session none s = disconnect session s
  handle_read_message fresh now session (some received) s =
      if not session.authenticated
      then disconnect session s
      else handle_parsed fresh now session (read_message blank (open_read received)).0 s

  -- `handle_connection`: the first read starts; or the exception of `remote_endpoint()` leaves the
  -- handler and the thread that runs it, and the process ends.
  unfoldable pub handle_accept : Accept → Server → Server
  handle_accept accept_error s = s
  handle_accept (connected_socket socket) s = record s { pending = socket ∷ s.pending }
  handle_accept lost_socket s = record s { terminated = true; threads = 0 }

  unfoldable pub resume_session :
      Uuid → DateTime → Option BoostAsioClientSession → Option Bytes → Server → Server × List Effect
  unfolding handle_read_message
  resume_session fresh now none received s = (s, [])
  resume_session fresh now (some session) received s =
      handle_read_message fresh now session received
        (record s { sessions = erase uuid_eq session.uuid s.sessions })

  -- One completion, run by one of the threads.
  unfoldable pub complete : CheckUser → Completion → Server → Server × List Effect
  unfolding handle_accept accept_connections handle_credentials resume_session
  complete db (accepted result) s =
      let s' = handle_accept result (record s { accepts = s.accepts - 1 }) in
      (if s'.running && not s'.terminated then accept_connections s' else s', [])
  complete db (credentials socket received id) s =
      handle_credentials db socket received id
        (record s { pending = filter_by (λ p. not (p == socket)) s.pending })
  complete db (read_done id received fresh now) s =
      resume_session fresh now (find uuid_eq id s.sessions) received s

  -- Only an operation that was started completes.
  unfoldable pub is_outstanding : Completion → Server → Bool
  is_outstanding (accepted result) s = ltb 0 s.accepts
  is_outstanding (credentials socket received id) s = contains socket s.pending
  is_outstanding (read_done id received fresh now) s = is_some (find uuid_eq id s.sessions)

  -- A completion runs only while threads run the context.
  unfoldable pub step : CheckUser → Completion → Server → Server × List Effect
  unfolding is_outstanding
  step db c s =
      if s.io_stopped || s.threads == 0 || not (is_outstanding c s)
      then (s, [])
      else complete db c s

  -- Completions, one after the other. The database may change from one to the next: `dbs k` is what
  -- `checkUser` says when the k-th of them runs.
  unfoldable pub run : (ℕ → CheckUser) → List Completion → Server → Server × List Effect
  run dbs [] s = (s, [])
  run dbs (c ∷ cs) s =
      let (s', es) = step (dbs 0) c s in
      let (s'', fs) = run (λ k. dbs (suc k)) cs s' in (s'', es ++ fs)
