-- ===== src/Server/Served.antt =====
-- What the clients of multithreaded_server.cpp are sent: the server as the room of client_manager.cpp.
use qt_messenger.Prelude.{
  ℕ, suc, ◌≡◌, sym, ap, subst, ◌∙◌, not, Option, none, some, List, [], ◌∷◌, map, All, All-append,
  Bytes, if_intro,
}
use qt_messenger.Qt.{Qt, open_read}
use qt_messenger.Reader.{Outcome, returned, threw}
use qt_messenger.Message.{Message, write_message}
use qt_messenger.Session.Boost.{BoostAsioClientSession, wrapped_session}
use qt_messenger.UnorderedMap.{find}
use qt_messenger.ClientManager.Delivery.{received}
use qt_messenger.ClientManager.Room.{Room, all_happen, all_heard}
use qt_messenger.ClientManager.Refinement.{Implements, AddsReady, run-Implements}
use qt_messenger.MessageHandler.{is_user_list_request}
use qt_messenger.Server.{
  Server, Completion, accepted, credentials, read_done, CheckUser, authenticate_client,
  read_credentials, run, step,
}
use qt_messenger.Server.Auth.{RefusesEmpty, admitted-IsReady}
use qt_messenger.Server.Serving.{Manager}
use qt_messenger.Server.Relay.{writes}
use qt_messenger.Server.Calls.{
  Calls, calls_of_message, calls_of_parsed, calls_of_leaving, calls_of_read, calls_of_session,
  calls_of_login, calls_of, calls_at, all_calls, is_idle,
}
use qt_messenger.Server.Making.{run-Makes}

module _ ⦃qt : Qt⦄ where
  open qt use {Uuid, DateTime, uuid_eq}

  -- All clients are added authenticated, under their own identifiers.
  abbrev AllReady : Calls → Type 0
  AllReady = All AddsReady

  message-AllReady :
      (fresh : Uuid) (now : DateTime) (m : Message) (sender : Uuid) (cm : Manager)
      → AllReady (calls_of_message fresh now m sender cm)
  unfolding calls_of_message
  message-AllReady fresh now m sender cm =
      if_intro AllReady (is_user_list_request m) (λ _. (tt, tt)) (λ _. (tt, tt))

  parsed-AllReady :
      (fresh : Uuid) (now : DateTime) (session : BoostAsioClientSession) (r : Outcome Message)
      (cm : Manager)
      → AllReady (calls_of_parsed fresh now session r cm)
  unfolding calls_of_parsed
  parsed-AllReady fresh now session (returned m) cm =
      if_intro AllReady session.message_callback (λ _. message-AllReady fresh now m session.uuid cm)
        (λ _. tt)
  parsed-AllReady fresh now session threw cm = tt

  leaving-AllReady : (session : BoostAsioClientSession) → AllReady (calls_of_leaving session)
  unfolding calls_of_leaving
  leaving-AllReady session = if_intro AllReady session.disconnect_callback (λ _. (tt, tt)) (λ _. tt)

  session-AllReady :
      (fresh : Uuid) (now : DateTime) (o : Option BoostAsioClientSession) (b : Option Bytes)
      (cm : Manager)
      → AllReady (calls_of_session fresh now o b cm)
  unfolding calls_of_session calls_of_read
  session-AllReady fresh now none b cm = tt
  session-AllReady fresh now (some session) none cm = leaving-AllReady session
  session-AllReady fresh now (some session) (some b) cm =
      if_intro AllReady (not session.authenticated) (λ _. leaving-AllReady session)
        (λ _. parsed-AllReady fresh now session _ cm)

  login-AllReady :
      (db : CheckUser) (id : Uuid) (r : Outcome (Bytes × Bytes))
      → RefusesEmpty db
      → AllReady (calls_of_login db id r)
  unfolding calls_of_login
  login-AllReady db id threw refuses = tt
  login-AllReady db id (returned (u, p)) refuses =
      if_intro AllReady (authenticate_client db u p)
        (λ passes.
          let r = admitted-IsReady db id u p refuses passes in ((r.own, r.authenticated), tt))
        (λ _. tt)

  calls_of-AllReady :
      (db : CheckUser) (c : Completion) (s : Server) → RefusesEmpty db → AllReady (calls_of db c s)
  unfolding calls_of
  calls_of-AllReady db (accepted socket) s refuses = tt
  calls_of-AllReady db (credentials socket none id) s refuses = tt
  calls_of-AllReady db (credentials socket (some b) id) s refuses =
      login-AllReady db id (read_credentials (open_read b)).0 refuses
  calls_of-AllReady db (read_done id b fresh now) s refuses =
      session-AllReady fresh now (find uuid_eq id s.sessions) b s.manager

  all_calls-AllReady :
      (dbs : ℕ → CheckUser) (cs : List Completion) (s : Server)
      → ((k : ℕ) → RefusesEmpty (dbs k))
      → AllReady (all_calls dbs cs s)
  unfolding all_calls calls_at
  all_calls-AllReady dbs [] s refuses = tt
  all_calls-AllReady dbs (c ∷ cs) s refuses =
      let later : ℕ → CheckUser = λ k. dbs (suc k) in
      let next = (step (dbs 0) c s).0 in
      All-append AddsReady (calls_at (dbs 0) c s) (all_calls later cs next)
        (if_intro AllReady (is_idle c s) (λ _. tt) (λ _. calls_of-AllReady (dbs 0) c s (refuses 0)))
        (all_calls-AllReady later cs next (λ k. refuses (suc k)))

  -- A server whose clients are those of a room serves them as that room, whatever completes and in
  -- whatever order: clients that pass the check come, sessions that fail leave, what is read is said
  -- to all or, if it asks for the users, answered to the one who asked. Each client is sent exactly
  -- the frames of the messages that it hears in the room, in order, if the database, which may
  -- change, refuses the empty user name whenever it is asked.
  pub run-Implements_room :
      (dbs : ℕ → CheckUser) (cs : List Completion) (s : Server) (r : Room BoostAsioClientSession)
      → ((k : ℕ) → RefusesEmpty (dbs k))
      → Implements s.manager r
      → Implements (run dbs cs s).0.manager (all_happen (all_calls dbs cs s) r)
        × ((id : Uuid)
            → received id (writes (run dbs cs s).1)
              ≡ map write_message (all_heard id (all_calls dbs cs s) r))
  run-Implements_room dbs cs s r refuses h =
      let calls = all_calls dbs cs s in
      let made = run-Makes dbs cs s in
      let room = run-Implements calls s.manager r (all_calls-AllReady dbs cs s refuses) h in
      (
        subst (λ (cm : Manager). Implements cm (all_happen calls r)) (sym (ap (λ x. x.0) made))
            room.0,
        λ id. ap (λ x. received id x.1) made ∙ room.1 id,
      )
