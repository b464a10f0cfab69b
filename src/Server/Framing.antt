-- ===== src/Server/Framing.antt =====
-- The server takes each read for one message: it neither joins the parts of a message nor goes on to
-- a second one, and it does not look at the stream's status.
use qt_messenger.Prelude.{
  ◌≡◌, ◌≢◌, refl, sym, append-nil, ap, ◌∙◌, true, some, [], ◌∷◌, ◌++◌, map, Bytes,
}
use qt_messenger.Qt.{Qt, Stream, open_read, HasFailed}
use qt_messenger.Reader.{Outcome, returned, threw}
use qt_messenger.Reader.Laws.{Stopped, stopped}
use qt_messenger.Message.{Message, blank, write_message, read_message}
use qt_messenger.Message.Wire.{IsSendable, read_message-Reads}
use qt_messenger.Session.Boost.{BoostAsioClientSession, wrapped_session}
use qt_messenger.UnorderedMap.{emplace}
use qt_messenger.MessageHandler.{handle_message}
use qt_messenger.Server.{
  Server, wrote, message_received, deliver, async_read, handle_parsed, handle_read_message,
}
use qt_messenger.Server.Relay.{handle_read_message-parsed}

module _ ⦃qt : Qt⦄ where
  open qt use {Uuid, DateTime, uuid_eq}

  -- For an authenticated session, two messages that arrive in one read, the first of which fits the
  -- format, have the effect of the first alone: the second is lost.
  pub coalesced_is_lost :
      (fresh : Uuid) (now : DateTime) (session : BoostAsioClientSession) (m n : Message)
      (s : Server)
      → IsSendable m
      → session.authenticated ≡ true
      → handle_read_message fresh now session (some (write_message m ++ write_message n)) s
        ≡ handle_read_message fresh now session (some (write_message m)) s
  coalesced_is_lost fresh now session m n s sendable auth =
      handle_read_message-parsed fresh now session m (write_message n) s sendable auth
      ∙ sym (handle_read_message-parsed fresh now session m [] s sendable auth)
      ∙ ap (λ b. handle_read_message fresh now session (some b) s) (append-nil (write_message m))

  Stopped-parsed :
      (fresh : Uuid) (now : DateTime) (session : BoostAsioClientSession) (s : Server)
      (x : Outcome Message × Stream)
      → Stopped x
      → (n : Message) × (x.0 ≡ returned n) × HasFailed x.1
  Stopped-parsed fresh now session s x (stopped n t h) = (n, refl, h)

  -- For an authenticated session with its message callback set, a message that fits the format and
  -- whose last bytes have not arrived is handed on all the same: the read leaves the stream failed and
  -- some message behind, which is handled, with the identifier of the session, as if it had arrived:
  -- the state is the manager's after it, the writes are those of the manager, the message is signalled,
  -- and the session reads on.
  pub truncated_is_delivered :
      (fresh : Uuid) (now : DateTime) (session : BoostAsioClientSession) (m : Message) (s : Server)
      (p q : Bytes)
      → IsSendable m
      → session.authenticated ≡ true
      → session.message_callback ≡ true
      → write_message m ≡ p ++ q
      → q ≢ []
      → (n : Message) × ((read_message blank (open_read p)).0 ≡ returned n)
        × HasFailed (read_message blank (open_read p)).1
        × (handle_read_message fresh now session (some p) s ≡ (
          record s {
            manager = (handle_message fresh now n session.uuid s.manager).0;
            sessions = emplace uuid_eq session.uuid session s.sessions;
          },
          map wrote (handle_message fresh now n session.uuid s.manager).1
              ++ message_received n ∷ [],
        ))
  unfolding handle_read_message handle_parsed deliver async_read
  truncated_is_delivered fresh now session m s p q sendable auth callback cut rest =
      let (n, e, failed) =
        Stopped-parsed fresh now session s _
          ((read_message-Reads m sendable blank refl).cut p q cut rest) in
      (n, e, failed, simp (auth, e, callback))

  -- A message that makes `operator>>` throw leaves the server as it was, with the next read started.
  pub throwing_read_is_caught :
      (fresh : Uuid) (now : DateTime) (session : BoostAsioClientSession) (received : Bytes)
      (s : Server)
      → session.authenticated ≡ true
      → (read_message blank (open_read received)).0 ≡ threw
      → handle_read_message fresh now session (some received) s ≡ (async_read session s, [])
  unfolding handle_read_message
  throwing_read_is_caught fresh now session received s auth e = simp (auth, e)
