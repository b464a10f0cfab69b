-- ===== src/Server/Making.antt =====
-- The handlers of multithreaded_server.cpp make the calls of the client manager that Server.Calls
-- names, and write what these write.
use qt_messenger.Prelude.{
  ℕ, suc, ◌&&◌, ◌≡◌, refl, sym, ap, ◌∙◌, inl, inr, Bool, true, false, not, ◌==◌, Bool-cases, Option,
  none, some, List, [], ◌∷◌, ◌++◌, map, append-nil, Bytes, if◌then◌else◌, if_intro, filter_by,
}
use qt_messenger.Qt.{Qt, open_read}
use qt_messenger.Reader.{Outcome, returned, threw}
use qt_messenger.Message.{Message, blank, read_message}
use qt_messenger.Session.{Write}
use qt_messenger.Session.Boost.{BoostAsioClientSession, wrapped_session}
use qt_messenger.UnorderedMap.{find, erase}
use qt_messenger.ClientManager.{Call, add, remove, broadcast, send_to, perform, run as run_calls}
use qt_messenger.ClientManager.Runs.{run_one, run_both}
use qt_messenger.MessageHandler.{
  is_user_list_request, handle_user_list_request, handle_chat_message, handle_message,
}
use qt_messenger.Server.{
  Server, Effect, wrote, closed, new_connection, client_disconnected, message_received, Completion,
  accept_error, connected_socket, lost_socket, accepted, credentials, read_done, CheckUser,
  authenticate_client, read_credentials, admit, check_credentials, handle_credentials, disconnect,
  deliver, async_read, handle_parsed, handle_read_message, handle_accept, accept_connections,
  resume_session, complete, step, run,
}
use qt_messenger.Server.Auth.{admitted}
use qt_messenger.Server.Serving.{Manager}
use qt_messenger.Server.Relay.{writes, writes-map}
use qt_messenger.Server.Calls.{
  Calls, calls_of_message, calls_of_parsed, calls_of_leaving, calls_of_read, calls_of_session,
  calls_of_login, calls_of, calls_at, all_calls, is_idle,
}

module _ ⦃qt : Qt⦄ where
  open qt use {Uuid, DateTime, uuid_eq}

  -- What a handler left of the manager, and wrote.
  abbrev pub served : Server × List Effect → Manager × List Write
  served r = (r.0.manager, writes r.1)

  -- A handler did to the manager, and wrote, what the calls do.
  abbrev pub Makes : Server × List Effect → Calls → Manager → Type 0
  Makes r cs cm = served r ≡ run_calls cs cm

  writes-append : (es fs : List Effect) → writes (es ++ fs) ≡ writes es ++ writes fs
  writes-append [] fs = refl
  writes-append (wrote w ∷ es) fs = ap (λ r. w ∷ r) (writes-append es fs)
  writes-append (closed n ∷ es) fs = writes-append es fs
  writes-append (new_connection i ∷ es) fs = writes-append es fs
  writes-append (client_disconnected i ∷ es) fs = writes-append es fs
  writes-append (message_received m ∷ es) fs = writes-append es fs

  makes_nothing : (cm : Manager) → (cm, []) ≡ run_calls [] cm
  unfolding run_calls
  makes_nothing cm = refl

  -- The writes of one call, with a signal behind them.
  makes_one :
      (c : Call BoostAsioClientSession) (cm : Manager) (es : List Effect)
      → writes es ≡ []
      → ((perform c cm).0, writes (map wrote (perform c cm).1 ++ es)) ≡ run_calls (c ∷ []) cm
  makes_one c cm es quiet =
      ap (λ ws. ((perform c cm).0, ws))
        (writes-map (perform c cm).1 es
          ∙ ap (λ vs. (perform c cm).1 ++ vs) quiet
          ∙ append-nil (perform c cm).1)
      ∙ sym (run_one c cm)

  -- A branch makes the calls of the branch.
  if_Makes :
      (b : Bool) (r r' : Server × List Effect) (cs cs' : Calls) (cm : Manager)
      → Makes r cs cm
      → Makes r' cs' cm
      → Makes (if b then r else r') (if b then cs else cs') cm
  if_Makes true r r' cs cs' cm h h' = h
  if_Makes false r r' cs cs' cm h h' = h'

  handle_message-Makes :
      (fresh : Uuid) (now : DateTime) (m : Message) (sender : Uuid) (cm : Manager)
      → handle_message fresh now m sender cm ≡ run_calls (calls_of_message fresh now m sender cm) cm
  unfolding handle_message calls_of_message perform handle_user_list_request handle_chat_message
  handle_message-Makes fresh now m sender cm = elim (Bool-cases (is_user_list_request m)) [
    | inl asks ↦ rw asks (sym (run_one (send_to sender _) cm))
    | inr chats ↦ rw chats (sym (run_one (broadcast m) cm))
  ]

  deliver-Makes :
      (fresh : Uuid) (now : DateTime) (session : BoostAsioClientSession) (m : Message) (s : Server)
      → Makes
          (deliver fresh now session m s)
          (calls_of_parsed fresh now session (returned m) s.manager)
          s.manager
  unfolding deliver calls_of_parsed
  deliver-Makes fresh now session m s =
      let r = handle_message fresh now m session.uuid s.manager in
      if_Makes session.message_callback _ (s, []) _ [] s.manager
        (ap (λ ws. (r.0, ws)) (writes-map r.1 (message_received m ∷ []) ∙ append-nil r.1)
          ∙ handle_message-Makes fresh now m session.uuid s.manager)
        (makes_nothing s.manager)

  disconnect-Makes :
      (session : BoostAsioClientSession) (s : Server)
      → Makes (disconnect session s) (calls_of_leaving session) s.manager
  unfolding disconnect calls_of_leaving perform
  disconnect-Makes session s =
      if_Makes session.disconnect_callback _ (s, []) _ [] s.manager
        (sym (run_one (remove session.uuid) s.manager)) (makes_nothing s.manager)

  handle_parsed-Makes :
      (fresh : Uuid) (now : DateTime) (session : BoostAsioClientSession) (r : Outcome Message)
      (s : Server)
      → Makes
          (handle_parsed fresh now session r s)
          (calls_of_parsed fresh now session r s.manager)
          s.manager
  unfolding handle_parsed async_read
  handle_parsed-Makes fresh now session (returned m) s = deliver-Makes fresh now session m s
  handle_parsed-Makes fresh now session threw s = unfold calls_of_parsed in makes_nothing s.manager

  handle_read_message-Makes :
      (fresh : Uuid) (now : DateTime) (session : BoostAsioClientSession) (b : Option Bytes)
      (s : Server)
      → Makes
          (handle_read_message fresh now session b s)
          (calls_of_read fresh now session b s.manager)
          s.manager
  unfolding handle_read_message calls_of_read
  handle_read_message-Makes fresh now session none s = disconnect-Makes session s
  handle_read_message-Makes fresh now session (some b) s =
      let parsed = (read_message blank (open_read b)).0 in
      if_Makes (not session.authenticated) (disconnect session s)
        (handle_parsed fresh now session parsed s) (calls_of_leaving session)
        (calls_of_parsed fresh now session parsed s.manager) s.manager (disconnect-Makes session s)
        (handle_parsed-Makes fresh now session parsed s)

  resume_session-Makes :
      (fresh : Uuid) (now : DateTime) (o : Option BoostAsioClientSession) (b : Option Bytes)
      (s : Server)
      → Makes (resume_session fresh now o b s) (calls_of_session fresh now o b s.manager) s.manager
  unfolding resume_session calls_of_session
  resume_session-Makes fresh now none b s = makes_nothing s.manager
  resume_session-Makes fresh now (some session) b s =
      handle_read_message-Makes fresh now session b
        (record s { sessions = erase uuid_eq session.uuid s.sessions })

  check_credentials-Makes :
      (db : CheckUser) (socket : ℕ) (id : Uuid) (r : Outcome (Bytes × Bytes)) (s : Server)
      → Makes (check_credentials db socket id r s) (calls_of_login db id r) s.manager
  unfolding check_credentials calls_of_login admit
  check_credentials-Makes db socket id threw s = makes_nothing s.manager
  check_credentials-Makes db socket id (returned (u, p)) s =
      if_Makes (authenticate_client db u p) (admit id u p s) (s, closed socket ∷ [])
        (add id (admitted id u p) ∷ []) [] s.manager
        (unfold perform in
          makes_one (add id (admitted id u p)) s.manager (new_connection id ∷ []) refl)
        (makes_nothing s.manager)

  -- Another accept or none: the manager is left alone.
  if_quiet :
      (b : Bool) (s t t' : Server)
      → t.manager ≡ s.manager
      → t'.manager ≡ s.manager
      → ((if b then t else t').manager, []) ≡ run_calls [] s.manager
  if_quiet b s t t' e e' =
      if_intro (λ (x : Server). (x.manager, []) ≡ run_calls [] s.manager) b
        (λ _. ap (λ cm. (cm, [])) e ∙ makes_nothing s.manager)
        (λ _. ap (λ cm. (cm, [])) e' ∙ makes_nothing s.manager)

  complete-Makes :
      (db : CheckUser) (c : Completion) (s : Server)
      → Makes (complete db c s) (calls_of db c s) s.manager
  unfolding complete calls_of handle_credentials handle_accept accept_connections
  complete-Makes db (accepted accept_error) s =
      if_quiet (s.running && not s.terminated) s _ _ refl refl
  complete-Makes db (accepted (connected_socket socket)) s =
      if_quiet (s.running && not s.terminated) s _ _ refl refl
  complete-Makes db (accepted lost_socket) s = if_quiet (s.running && false) s _ _ refl refl
  complete-Makes db (credentials socket none id) s = makes_nothing s.manager
  complete-Makes db (credentials socket (some b) id) s =
      check_credentials-Makes db socket id (read_credentials (open_read b)).0
        (record s { pending = filter_by (λ p. not (p == socket)) s.pending })
  complete-Makes db (read_done id b fresh now) s =
      resume_session-Makes fresh now (find uuid_eq id s.sessions) b s

  step-Makes :
      (db : CheckUser) (c : Completion) (s : Server)
      → Makes (step db c s) (calls_at db c s) s.manager
  unfolding step calls_at
  step-Makes db c s =
      if_Makes (is_idle c s) (s, []) (complete db c s) [] (calls_of db c s) s.manager
        (makes_nothing s.manager) (complete-Makes db c s)

  -- Whatever completes, the server does to its manager, and writes, what the calls do.
  pub run-Makes :
      (dbs : ℕ → CheckUser) (cs : List Completion) (s : Server)
      → Makes (run dbs cs s) (all_calls dbs cs s) s.manager
  unfolding run all_calls
  run-Makes dbs [] s = makes_nothing s.manager
  run-Makes dbs (c ∷ cs) s =
      let later : ℕ → CheckUser = λ k. dbs (suc k) in
      let r = step (dbs 0) c s in
      let q = run later cs r.0 in
      ap (λ ws. (q.0.manager, ws)) (writes-append r.1 q.1)
      ∙ run_both (calls_at (dbs 0) c s) (all_calls later cs r.0) s.manager r.0.manager q.0.manager
          (writes r.1) (writes q.1) (step-Makes (dbs 0) c s) (run-Makes later cs r.0)
