-- ===== src/Server/Accepting.antt =====
-- The accept loop of multithreaded_server.cpp: how long the server listens.
use qt_messenger.Prelude.{
  ℕ, suc, Bool, ◌||◌, ◌+◌, inl, inr, Bool-cases, sym, ap, subst, ◌∙◌, if◌then◌else◌, ◌≡◌, refl,
  true, false, Option, none, some, List, [], ◌∷◌, arith, Bytes, not, if_intro, filter_by, ◌==◌,
}
use qt_messenger.Qt.{Qt, open_read}
use qt_messenger.Message.{Message}
use qt_messenger.Reader.{Outcome, returned, threw}
use qt_messenger.Session.Boost.{BoostAsioClientSession}
use qt_messenger.Server.{
  Server, Effect, Completion, accept_error, connected_socket, lost_socket, is_outstanding, accepted,
  credentials, read_done, CheckUser, read_credentials, new_server, start, handle_accept,
  accept_connections, check_credentials, handle_credentials, disconnect, handle_parsed,
  handle_read_message, resume_session, complete, step, run,
}

module _ ⦃qt : Qt⦄ where
  open qt use {Uuid, DateTime}

  -- The server runs; and until an accepted connection is lost before its address is asked for, the
  -- process lives, with threads, and exactly one accept is in progress; from then on none is.
  pub record IsAccepting (lost : Bool) (s : Server) : Type 0 where
    pub running : s.running ≡ true
    pub open_ : s.io_stopped ≡ false
    pub ended : s.terminated ≡ lost
    pub staffed : (s.threads == 0) ≡ lost
    pub one : s.accepts ≡ (if lost then 0 else 1)

  -- The completion is that of a connection that is lost so.
  abbrev pub is_lost : Completion → Bool
  is_lost (accepted lost_socket) = true
  is_lost (accepted accept_error) = false
  is_lost (accepted (connected_socket socket)) = false
  is_lost (credentials socket received id) = false
  is_lost (read_done id received fresh now) = false

  -- One of the completions is.
  abbrev pub loses : List Completion → Bool
  loses [] = false
  loses (c ∷ cs) = is_lost c || loses cs

  module _ (lost : Bool) where
    abbrev AcceptingAfter : Server × List Effect → Type 0
    AcceptingAfter r = IsAccepting lost r.0

    -- A change of the server that leaves the threads and the accepts alone.
    same-IsAccepting :
        (s t : Server)
        → t.running ≡ s.running
        → t.io_stopped ≡ s.io_stopped
        → t.terminated ≡ s.terminated
        → t.threads ≡ s.threads
        → t.accepts ≡ s.accepts
        → IsAccepting lost s
        → IsAccepting lost t
    same-IsAccepting s t r i e n a v = record {
      running = r ∙ v.running;
      open_ = i ∙ v.open_;
      ended = e ∙ v.ended;
      staffed = ap (λ k. k == 0) n ∙ v.staffed;
      one = a ∙ v.one;
    }

    check_credentials-IsAccepting :
        (db : CheckUser) (socket : ℕ) (id : Uuid) (r : Outcome (Bytes × Bytes)) (s : Server)
        → IsAccepting lost s
        → IsAccepting lost (check_credentials db socket id r s).0
    unfolding check_credentials
    check_credentials-IsAccepting db socket id (returned (u, p)) s v = ground arith
    check_credentials-IsAccepting db socket id threw s v = v

    disconnect-IsAccepting :
        (session : BoostAsioClientSession) (s : Server)
        → IsAccepting lost s
        → IsAccepting lost (disconnect session s).0
    unfolding disconnect
    disconnect-IsAccepting session s v = ground arith

    handle_parsed-IsAccepting :
        (fresh : Uuid) (now : DateTime) (session : BoostAsioClientSession) (r : Outcome Message)
        (s : Server)
        → IsAccepting lost s
        → IsAccepting lost (handle_parsed fresh now session r s).0
    unfolding handle_parsed
    handle_parsed-IsAccepting fresh now session (returned m) s v = ground arith
    handle_parsed-IsAccepting fresh now session threw s v = ground arith

    handle_read_message-IsAccepting :
        (fresh : Uuid) (now : DateTime) (session : BoostAsioClientSession) (r : Option Bytes)
        (s : Server)
        → IsAccepting lost s
        → IsAccepting lost (handle_read_message fresh now session r s).0
    unfolding handle_read_message
    handle_read_message-IsAccepting fresh now session none s v = disconnect-IsAccepting session s v
    handle_read_message-IsAccepting fresh now session (some b) s v =
        if_intro AcceptingAfter (not session.authenticated)
          (λ _. disconnect-IsAccepting session s v)
          (λ _. handle_parsed-IsAccepting fresh now session _ s v)

    resume_session-IsAccepting :
        (fresh : Uuid) (now : DateTime) (o : Option BoostAsioClientSession) (r : Option Bytes)
        (s : Server)
        → IsAccepting lost s
        → IsAccepting lost (resume_session fresh now o r s).0
    unfolding resume_session
    resume_session-IsAccepting fresh now none r s v = v
    resume_session-IsAccepting fresh now (some session) r s v =
        handle_read_message-IsAccepting fresh now session r _
          (same-IsAccepting s _ refl refl refl refl refl v)

  complete-IsAccepting :
      (db : CheckUser) (c : Completion) (s : Server)
      → IsAccepting false s
      → IsAccepting (is_lost c) (complete db c s).0
  unfolding complete handle_accept accept_connections handle_credentials
  complete-IsAccepting db (accepted accept_error) s v = ground arith
  complete-IsAccepting db (accepted (connected_socket socket)) s v = ground arith
  complete-IsAccepting db (accepted lost_socket) s v = ground arith
  complete-IsAccepting db (credentials socket none id) s v =
      same-IsAccepting false s _ refl refl refl refl refl v
  complete-IsAccepting db (credentials socket (some received) id) s v =
      check_credentials-IsAccepting false db socket id (read_credentials (open_read received)).0
        (record s { pending = filter_by (λ p. not (p == socket)) s.pending })
        (same-IsAccepting false s _ refl refl refl refl refl v)
  complete-IsAccepting db (read_done id received fresh now) s v =
      resume_session-IsAccepting false fresh now _ received s v

  -- A lost connection is one that was accepted: while an accept is in progress, it completes.
  lost_completes :
      (c : Completion) (s : Server)
      → IsAccepting false s
      → is_lost c ≡ true
      → (s.io_stopped || s.threads == 0 || not (is_outstanding c s)) ≡ false
  unfolding is_outstanding
  lost_completes (accepted lost_socket) s v e = rw (v.open_, v.staffed, v.one) refl
  lost_completes (accepted accept_error) s v e = cc
  lost_completes (accepted (connected_socket socket)) s v e = cc
  lost_completes (credentials socket received id) s v e = cc
  lost_completes (read_done id received fresh now) s v e = cc

  step-IsAccepting :
      (db : CheckUser) (c : Completion) (s : Server)
      → IsAccepting false s
      → IsAccepting (is_lost c) (step db c s).0
  unfolding step
  step-IsAccepting db c s v =
      let idle = s.io_stopped || s.threads == 0 || not (is_outstanding c s) in
      if_intro (λ (r : Server × List Effect). IsAccepting (is_lost c) r.0) idle
        (λ waits. elim (Bool-cases (is_lost c)) [
          | inl e ↦ absurd (cc (lost_completes c s v e, waits))
          | inr e ↦ subst (λ b. IsAccepting b s) (sym e) v
        ])
        (λ _. complete-IsAccepting db c s v)

  -- Nothing runs once the process has ended.
  ended_step :
      (db : CheckUser) (c : Completion) (s : Server) → IsAccepting true s → step db c s ≡ (s, [])
  unfolding step
  ended_step db c s v =
      ap (λ b. if s.io_stopped || b || not (is_outstanding c s) then (s, []) else complete db c s)
        v.staffed
      ∙ ap (λ b. if b || true || not (is_outstanding c s) then (s, []) else complete db c s) v.open_

  ended_run :
      (dbs : ℕ → CheckUser) (cs : List Completion) (s : Server)
      → IsAccepting true s
      → run dbs cs s ≡ (s, [])
  unfolding run
  ended_run dbs [] s v = refl
  ended_run dbs (c ∷ cs) s v = rw (ended_step (dbs 0) c s v, ended_run (λ k. dbs (suc k)) cs s v)

  run-IsAccepting :
      (dbs : ℕ → CheckUser) (cs : List Completion) (s : Server)
      → IsAccepting false s
      → IsAccepting (loses cs) (run dbs cs s).0
  unfolding run
  run-IsAccepting dbs [] s v = v
  run-IsAccepting dbs (c ∷ cs) s v =
      let later : ℕ → CheckUser = λ k. dbs (suc k) in
      let next = (step (dbs 0) c s).0 in
      let k = step-IsAccepting (dbs 0) c s v in
      elim (Bool-cases (is_lost c)) [
        | inl e ↦
            let ended = subst (λ b. IsAccepting b next) e k in
            subst (λ b. IsAccepting (b || loses cs) (run later cs next).0) (sym e)
              (subst (λ (r : Server × List Effect). IsAccepting true r.0)
                (sym (ended_run later cs next ended)) ended)
        | inr e ↦
            subst (λ b. IsAccepting (b || loses cs) (run later cs next).0) (sym e)
              (run-IsAccepting later cs next (subst (λ b. IsAccepting b next) e k))
      ]

  zero_threads : (n : ℕ) → 0 + n ≡ n
  zero_threads n = omega arith

  -- A new server with threads, once started, runs and has exactly one accept in progress, whatever
  -- completes: a failed accept and a refused client do not stop it from listening; only a connection
  -- that is lost before its address is asked for ends it.
  pub always-IsAccepting :
      (dbs : ℕ → CheckUser) (cs : List Completion) (capacity : ℕ)
      → (capacity == 0) ≡ false
      → IsAccepting (loses cs) (run dbs cs (start (new_server capacity))).0
  unfolding start new_server accept_connections
  always-IsAccepting dbs cs capacity staffed = run-IsAccepting dbs cs _ (record {
    running = refl;
    open_ = refl;
    ended = refl;
    staffed = ap (λ n. n == 0) (zero_threads capacity) ∙ staffed;
    one = omega arith;
  })
