-- ===== src/Session.antt =====
-- server/include/client_session_interface.h: what the server asks of a client's session, and the
-- frames that a session hands to its socket.
pub mod Boost
use qt_messenger.Prelude.{◌≡◌, Bool, true, List, [], ◌∷◌, All, Bytes}
use qt_messenger.Qt.{Qt}
use qt_messenger.Message.{Message, write_message}

module _ ⦃qt : Qt⦄ where
  open qt use {Uuid}

  -- One `async_write` on the socket of the session `to`.
  pub record Write : Type 0 where
    pub to : Uuid
    pub frame : Bytes

  -- `IClientSession`, and what the client manager relies on: an authenticated session writes each
  -- message to its own socket, once.
  pub record ClientSession (S : Type 0) : Type 0 where
    pub uuid : S → Uuid
    pub username : S → Bytes
    pub is_authenticated : S → Bool
    pub send_message : S → Message → List Write
    pub sends_once :
        (s : S) (m : Message)
        → is_authenticated s ≡ true
        → send_message s m ≡ record { to = uuid s; frame = write_message m } ∷ []
    -- Nothing is written to another session's socket.
    pub sends_own : (s : S) (m : Message) → All (λ w. w.to ≡ uuid s) (send_message s m)
