-- ===== src/Server/Auth.antt =====
-- Who gets in: the handler of the first read in multithreaded_server.cpp, on what auth_handler.cpp
-- of the client sends.
use qt_messenger.Prelude.{
  ℕ, ◌≡◌, refl, true, false, some, none, [], ◌∷◌, ◌++◌, append-nil, Bytes, if◌then◌else◌,
}
use qt_messenger.Qt.{Qt}
use qt_messenger.Reader.Laws.{
  Reads, Reads-bind, Reads-pure, StopsWith-sticky, IsSticky-bind, IsSticky-pure,
}
use qt_messenger.Message.{write_text}
use qt_messenger.Message.Texts.{IsText, write_text-Reads, read_text-IsSticky}
use qt_messenger.Client.AuthHandler.{send_credentials}
use qt_messenger.Session.Boost.{
  BoostAsioClientSession, new_session, authenticate, set_message_callback, set_disconnect_callback,
}
use qt_messenger.Server.{
  Server, closed, CheckUser, authenticate_client, read_credentials, admit, handle_credentials,
}

module _ ⦃qt : Qt⦄ where
  open qt use {Uuid}

  read_credentials-Reads :
      (u p : Bytes) → IsText u → IsText p → Reads read_credentials (u, p) (send_credentials u p)
  unfolding read_credentials send_credentials
  read_credentials-Reads u p hu hp =
      Reads-bind _ _ u _ _ _ (write_text-Reads u hu)
        (rw (← append-nil (write_text p)) (
          Reads-bind _ _ p _ _ [] (write_text-Reads p hp) (Reads-pure _)
            (StopsWith-sticky _ _ (λ q. IsSticky-pure _))))
        (StopsWith-sticky _ _ (λ v. IsSticky-bind _ _ read_text-IsSticky (λ q. IsSticky-pure _)))

  -- Credentials that fit the format and arrive whole in the first read admit the client if they
  -- authenticate; otherwise the socket is closed and the server stays as it was. What follows them in
  -- that read is dropped.
  pub handle_credentials-send_credentials :
      (db : CheckUser) (socket : ℕ) (u p tail : Bytes) (id : Uuid) (s : Server)
      → IsText u
      → IsText p
      → handle_credentials db socket (some (send_credentials u p ++ tail)) id s
        ≡ (if authenticate_client db u p then admit id u p s else (s, closed socket ∷ []))
  unfolding handle_credentials
  handle_credentials-send_credentials db socket u p tail id s hu hp =
      rw ((read_credentials-Reads u p hu hp).whole tail)

  -- The database refuses the empty user name.
  abbrev pub RefusesEmpty : CheckUser → Type 0
  RefusesEmpty db = (p : Bytes) → authenticate_client db [] p ≡ false

  -- Without a database an empty user name is refused.
  pub RefusesEmpty-none : RefusesEmpty none
  unfolding authenticate_client
  RefusesEmpty-none p = refl

  -- A session that is ready to read: authenticated, with both callbacks, under its identifier.
  pub record IsReady (entry : Uuid × BoostAsioClientSession) : Type 0 where
    pub own : entry.1.uuid ≡ entry.0
    pub authenticated : entry.1.authenticated ≡ true
    pub messages : entry.1.message_callback ≡ true
    pub disconnects : entry.1.disconnect_callback ≡ true

  abbrev pub admitted : Uuid → Bytes → Bytes → BoostAsioClientSession
  admitted id u p =
      set_disconnect_callback (set_message_callback (authenticate (new_session id) u p).0)

  pub admitted-IsReady :
      (db : CheckUser) (id : Uuid) (u p : Bytes)
      → RefusesEmpty db
      → authenticate_client db u p ≡ true
      → IsReady (id, admitted id u p)
  unfolding set_disconnect_callback set_message_callback authenticate new_session
  admitted-IsReady db id [] p h e = absurd (cc (h p))
  admitted-IsReady db id (a ∷ u) p h e = record {
    own = refl;
    authenticated = refl;
    messages = refl;
    disconnects = refl;
  }
