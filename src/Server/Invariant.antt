-- ===== src/Server/Invariant.antt =====
-- What every completion preserves in multithreaded_server.cpp, whatever arrives and in whatever order
-- the threads run the handlers.
use qt_messenger.Prelude.{
  ℕ, suc, ◌≡◌, refl, sym, subst, inl, inr, Bool-cases, if_intro, not, Option, none, some, List, [],
  ◌∷◌, All, Bytes, arith, filter_by, ◌==◌,
}
use qt_messenger.Qt.{Qt, open_read}
use qt_messenger.Reader.{Outcome, returned, threw}
use qt_messenger.Message.{Message}
use qt_messenger.Session.Boost.{BoostAsioClientSession, wrapped_session}
use qt_messenger.UnorderedMap.{find, All-emplace, All-erase, All-find}
use qt_messenger.ClientManager.{new_manager, clear}
use qt_messenger.Server.{
  Server, Effect, Completion, accept_error, connected_socket, lost_socket, accepted, credentials,
  read_done, CheckUser, new_server, start, stop, authenticate_client, handle_accept,
  accept_connections, check_credentials, handle_credentials, disconnect, read_credentials, deliver,
  async_read, handle_parsed, handle_read_message, resume_session, complete, step, run,
}
use qt_messenger.Server.Auth.{RefusesEmpty, IsReady, admitted, admitted-IsReady}
use qt_messenger.Server.Serving.{
  IsServing, new_manager-IsServing, add_client-IsServing, remove_client-IsServing,
  handle_message-IsServing,
}

module _ ⦃qt : Qt⦄ where
  open qt use {Uuid, DateTime, uuid_eq}

  -- The manager serves authenticated clients only, and every session that reads is authenticated.
  pub record IsSound (s : Server) : Type 0 where
    pub serving : IsServing s.manager
    pub reading : All IsReady s.sessions

  -- Soundness of the state in a handler's result.
  abbrev SoundAfter : Server × List Effect → Type 0
  SoundAfter r = IsSound r.0

  pub stop-IsSound : (s : Server) → IsSound s → IsSound (stop s)
  unfolding stop clear new_manager
  stop-IsSound s v =
      if_intro IsSound (not s.running) (λ _. v)
        (λ _. record { serving = new_manager-IsServing; reading = v.reading })

  check_credentials-IsSound :
      (db : CheckUser) (socket : ℕ) (id : Uuid) (r : Outcome (Bytes × Bytes)) (s : Server)
      → RefusesEmpty db
      → IsSound s
      → IsSound (check_credentials db socket id r s).0
  unfolding check_credentials
  check_credentials-IsSound db socket id threw s refuses v = v
  check_credentials-IsSound db socket id (returned (u, p)) s refuses v =
      elim (Bool-cases (authenticate_client db u p)) [
        | inl e ↦
            let r : IsReady (id, admitted id u p) = admitted-IsReady db id u p refuses e in
            rw e (record {
              serving = add_client-IsServing id (admitted id u p) s.manager r v.serving;
              reading = All-emplace uuid_eq IsReady id (admitted id u p) s.sessions r v.reading;
            })
        | inr e ↦ rw e v
      ]

  disconnect-IsSound :
      (session : BoostAsioClientSession) (s : Server) → IsSound s → IsSound (disconnect session s).0
  unfolding disconnect
  disconnect-IsSound session s v =
      if_intro SoundAfter session.disconnect_callback
        (λ _. record {
          serving = remove_client-IsServing session.uuid s.manager v.serving;
          reading = v.reading;
        })
        (λ _. v)

  async_read-IsSound :
      (session : BoostAsioClientSession) (s : Server)
      → IsReady (session.uuid, session)
      → IsSound s
      → IsSound (async_read session s)
  unfolding async_read
  async_read-IsSound session s r v = record {
    serving = v.serving;
    reading = All-emplace uuid_eq IsReady session.uuid session s.sessions r v.reading;
  }

  deliver-IsSound :
      (fresh : Uuid) (now : DateTime) (session : BoostAsioClientSession) (m : Message) (s : Server)
      → IsSound s
      → IsSound (deliver fresh now session m s).0
  unfolding deliver
  deliver-IsSound fresh now session m s v =
      if_intro SoundAfter session.message_callback
        (λ _. record {
          serving = handle_message-IsServing fresh now m session.uuid s.manager v.serving;
          reading = v.reading;
        })
        (λ _. v)

  handle_parsed-IsSound :
      (fresh : Uuid) (now : DateTime) (session : BoostAsioClientSession) (r : Outcome Message)
      (s : Server)
      → IsReady (session.uuid, session)
      → IsSound s
      → IsSound (handle_parsed fresh now session r s).0
  unfolding handle_parsed
  handle_parsed-IsSound fresh now session (returned m) s ready v =
      async_read-IsSound session _ ready (deliver-IsSound fresh now session m s v)
  handle_parsed-IsSound fresh now session threw s ready v = async_read-IsSound session s ready v

  handle_read_message-IsSound :
      (fresh : Uuid) (now : DateTime) (session : BoostAsioClientSession) (received : Option Bytes)
      (s : Server)
      → IsReady (session.uuid, session)
      → IsSound s
      → IsSound (handle_read_message fresh now session received s).0
  unfolding handle_read_message
  handle_read_message-IsSound fresh now session none s ready v = disconnect-IsSound session s v
  handle_read_message-IsSound fresh now session (some received) s ready v =
      if_intro SoundAfter (not session.authenticated) (λ _. disconnect-IsSound session s v)
        (λ _. handle_parsed-IsSound fresh now session _ s ready v)

  IsReady-own :
      (id : Uuid) (session : BoostAsioClientSession)
      → IsReady (id, session)
      → IsReady (session.uuid, session)
  IsReady-own id session r = record {
    own = refl;
    authenticated = r.authenticated;
    messages = r.messages;
    disconnects = r.disconnects;
  }

  resume_session-IsSound :
      (id fresh : Uuid) (now : DateTime) (o : Option BoostAsioClientSession)
      (received : Option Bytes) (s : Server)
      → find uuid_eq id s.sessions ≡ o
      → IsSound s
      → IsSound (resume_session fresh now o received s).0
  unfolding resume_session
  resume_session-IsSound id fresh now none received s e v = v
  resume_session-IsSound id fresh now (some session) received s e v =
      handle_read_message-IsSound fresh now session received _
        (IsReady-own id session (All-find uuid_eq IsReady id session s.sessions v.reading e))
        (record {
          serving = v.serving;
          reading = All-erase uuid_eq IsReady session.uuid s.sessions v.reading;
        })

  -- A change of the server that leaves the manager and the reading sessions alone.
  same_clients :
      (s t : Server) → t.manager ≡ s.manager → t.sessions ≡ s.sessions → IsSound s → IsSound t
  same_clients s t m r v = record {
    serving = subst IsServing (sym m) v.serving;
    reading = subst (All IsReady) (sym r) v.reading;
  }

  complete-IsSound :
      (db : CheckUser) (c : Completion) (s : Server)
      → RefusesEmpty db
      → IsSound s
      → IsSound (complete db c s).0
  unfolding complete handle_accept accept_connections handle_credentials
  complete-IsSound db (accepted accept_error) s refuses v =
      same_clients s _ (ground arith) (ground arith) v
  complete-IsSound db (accepted (connected_socket socket)) s refuses v =
      same_clients s _ (ground arith) (ground arith) v
  complete-IsSound db (accepted lost_socket) s refuses v =
      same_clients s _ (ground arith) (ground arith) v
  complete-IsSound db (credentials socket none id) s refuses v = record {
    serving = v.serving;
    reading = v.reading;
  }
  complete-IsSound db (credentials socket (some received) id) s refuses v =
      check_credentials-IsSound db socket id (read_credentials (open_read received)).0
        (record s { pending = filter_by (λ p. not (p == socket)) s.pending }) refuses
        (record { serving = v.serving; reading = v.reading })
  complete-IsSound db (read_done id received fresh now) s refuses v =
      resume_session-IsSound id fresh now _ received s refl v

  pub step-IsSound :
      (db : CheckUser) (c : Completion) (s : Server)
      → RefusesEmpty db
      → IsSound s
      → IsSound (step db c s).0
  unfolding step
  step-IsSound db c s refuses v =
      if_intro SoundAfter _ (λ _. v) (λ _. complete-IsSound db c s refuses v)

  -- From a sound server, whatever completes, and in whatever order, the server stays sound (the
  -- manager is valid, and every client in it and every session that reads is authenticated and under
  -- its own identifier), if the database, which may change, refuses the empty user name whenever it is
  -- asked.
  pub run-IsSound :
      (dbs : ℕ → CheckUser) (cs : List Completion) (s : Server)
      → ((k : ℕ) → RefusesEmpty (dbs k))
      → IsSound s
      → IsSound (run dbs cs s).0
  unfolding run
  run-IsSound dbs [] s refuses v = v
  run-IsSound dbs (c ∷ cs) s refuses v =
      run-IsSound (λ k. dbs (suc k)) cs (step (dbs 0) c s).0 (λ k. refuses (suc k))
        (step-IsSound (dbs 0) c s (refuses 0) v)

  pub new_server-IsSound : (capacity : ℕ) → IsSound (new_server capacity)
  unfolding new_server
  new_server-IsSound capacity = record { serving = new_manager-IsServing; reading = tt }

  pub start-IsSound : (s : Server) → IsSound s → IsSound (start s)
  unfolding start
  start-IsSound s v = same_clients s _ (ground arith) (ground arith) v
