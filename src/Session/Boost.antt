-- ===== src/Session/Boost.antt =====
-- server/include/boost_asio_client_session.h, server/src/boost_asio_client_session.cpp: the session
-- of one client, and `SharedSessionWrapper` of server/src/multithreaded_server.cpp, through which
-- the client manager holds it.
use qt_messenger.Prelude.{
  ◌≡◌, refl, inl, inr, Bool-cases, All, Bool, true, false, not, ◌&&◌, List, [], ◌∷◌, Bytes, bytes,
  is_nil, arith, if◌then◌else◌,
}
use qt_messenger.Qt.{Qt}
use qt_messenger.Message.{Message, chat, is_system, write_message}
use qt_messenger.Session.{Write, ClientSession}

module _ ⦃qt : Qt⦄ where
  open qt use {Uuid, DateTime}

  -- The callbacks are installed or not; what they run is the server's.
  pub record BoostAsioClientSession : Type 0 where
    pub uuid : Uuid
    pub username : Bytes
    pub authenticated : Bool
    pub message_callback : Bool
    pub disconnect_callback : Bool

  -- The constructor, with the identifier that `QUuid::createUuid` gave.
  unfoldable pub new_session : Uuid → BoostAsioClientSession
  new_session id = record {
    uuid = id;
    username = bytes "Guest";
    authenticated = false;
    message_callback = false;
    disconnect_callback = false;
  }

  -- `sendMessage(const Message&)`
  unfoldable pub send_message : BoostAsioClientSession → Message → List Write
  send_message s m =
      if not s.authenticated && not (is_system m.kind)
      then []
      else record { to = s.uuid; frame = write_message m } ∷ []

  -- `sendMessage(const std::string&)` at the time `now`
  unfoldable pub send_text : BoostAsioClientSession → Bytes → DateTime → List Write
  unfolding send_message
  send_text s message now =
      if not s.authenticated
      then []
      else send_message s (record {
        sender_id = s.uuid;
        username = s.username;
        text = message;
        timestamp = now;
        kind = chat;
        users = [];
      })

  -- `authenticate`: the password is not looked at here.
  unfoldable pub authenticate :
      BoostAsioClientSession → Bytes → Bytes → BoostAsioClientSession × Bool
  authenticate s username password =
      if not (is_nil username)
      then (record s { username = username; authenticated = true }, true)
      else (s, false)

  unfoldable pub set_message_callback : BoostAsioClientSession → BoostAsioClientSession
  set_message_callback s = record s { message_callback = true }

  unfoldable pub set_disconnect_callback : BoostAsioClientSession → BoostAsioClientSession
  set_disconnect_callback s = record s { disconnect_callback = true }

  -- Before authentication a session sends messages of type `System` and nothing else.
  pub send_message_unauthenticated :
      (s : BoostAsioClientSession) (m : Message)
      → s.authenticated ≡ false
      → send_message s m
        ≡ (if is_system m.kind then record { to = s.uuid; frame = write_message m } ∷ [] else [])
  unfolding send_message
  send_message_unauthenticated s m h = ground arith

  -- An authenticated session writes each message to its own socket, once.
  pub send_message_authenticated :
      (s : BoostAsioClientSession) (m : Message)
      → s.authenticated ≡ true
      → send_message s m ≡ record { to = s.uuid; frame = write_message m } ∷ []
  unfolding send_message
  send_message_authenticated s m h = rw h

  pub send_message_own :
      (s : BoostAsioClientSession) (m : Message) → All (λ w. w.to ≡ s.uuid) (send_message s m)
  unfolding send_message
  send_message_own s m = elim (Bool-cases (not s.authenticated && not (is_system m.kind))) [
    | inl e ↦ rw e tt
    | inr e ↦ rw e (refl, tt)
  ]

  -- `SharedSessionWrapper` forwards every call.
  instance abbrev pub wrapped_session : ClientSession BoostAsioClientSession
  wrapped_session = record {
    uuid = λ s. s.uuid;
    username = λ s. s.username;
    is_authenticated = λ s. s.authenticated;
    send_message = send_message;
    sends_once = send_message_authenticated;
    sends_own = send_message_own;
  }
