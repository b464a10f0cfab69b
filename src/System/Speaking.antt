-- ===== src/System/Speaking.antt =====
-- Clients that speak to the server, each message whole in one read of its session
-- (boost_asio_client_session.cpp, multithreaded_server.cpp).
use qt_messenger.Prelude.{
  ℕ, suc, ◌≡◌, refl, sym, ap, subst, ◌∙◌, Bool, true, false, not, ◌==◌, Option, none, some, is_some,
  List, [], ◌∷◌, ◌++◌, map, append-nil, All, decide, if◌then◌else◌,
}
use qt_messenger.Qt.{Qt, open_read}
use qt_messenger.Reader.{returned}
use qt_messenger.Message.{Message, blank, write_message, read_message}
use qt_messenger.Message.Wire.{IsSendable, read_message-Reads}
use qt_messenger.Session.Boost.{BoostAsioClientSession, wrapped_session}
use qt_messenger.UnorderedMap.{find, emplace, erase, kept, find-erase, find-emplace_any, All-find}
use qt_messenger.ClientManager.{broadcast}
use qt_messenger.MessageHandler.{is_user_list_request, handle_message}
use qt_messenger.Server.{
  Server, Completion, read_done, CheckUser, Effect, deliver, async_read, handle_parsed,
  handle_read_message, resume_session, complete, is_outstanding, step,
}
use qt_messenger.Server.Auth.{RefusesEmpty, IsReady}
use qt_messenger.Server.Invariant.{IsSound, step-IsSound}
use qt_messenger.Server.Relay.{handle_read_message-parsed}
use qt_messenger.Server.Calls.{
  calls_of_message, calls_of_parsed, calls_of_read, calls_of_leaving, calls_of_session, calls_of,
  calls_at, all_calls, is_idle,
}

module _ ⦃qt : Qt⦄ where
  open qt use {Uuid, DateTime, uuid_eq}

  -- A message that the server reads from the session of `speaker`, with an identifier and the time.
  pub record Utterance : Type 0 where
    pub speaker : Uuid
    pub message : Message
    pub fresh : Uuid
    pub now : DateTime

  abbrev pub reading : Utterance → Completion
  reading u = read_done u.speaker (some (write_message u.message)) u.fresh u.now

  -- The session of the speaker reads.
  abbrev pub Speaks : Server → Utterance → Type 0
  Speaks s u = is_some (find uuid_eq u.speaker s.sessions) ≡ true

  -- The message fits the format, and is no request.
  pub record IsChat (u : Utterance) : Type 0 where
    pub sendable : IsSendable u.message
    pub chats : is_user_list_request u.message ≡ false

  -- A sound server that runs.
  pub record IsServing (s : Server) : Type 0 where
    pub sound : IsSound s
    pub open_ : s.io_stopped ≡ false
    pub staffed : (s.threads == 0) ≡ false

  found_session :
      (o : Option BoostAsioClientSession)
      → is_some o ≡ true
      → (t : BoostAsioClientSession) × (o ≡ some t)
  found_session none h = cc
  found_session (some t) h = (t, refl)

  -- The server after a session has read a message.
  abbrev after_reading : Utterance → BoostAsioClientSession → Server → Server
  after_reading u t s = record s {
    manager = (handle_message u.fresh u.now u.message t.uuid s.manager).0;
    sessions = emplace uuid_eq t.uuid t (erase uuid_eq t.uuid s.sessions);
  }

  deliver-state :
      (u : Utterance) (t : BoostAsioClientSession) (s : Server)
      → t.message_callback ≡ true
      → (deliver u.fresh u.now t u.message s).0
        ≡ record s { manager = (handle_message u.fresh u.now u.message t.uuid s.manager).0 }
  unfolding deliver
  deliver-state u t s set = simp set

  not_idle : (u : Utterance) (s : Server) → IsServing s → Speaks s u → is_idle (reading u) s ≡ false
  unfolding is_outstanding
  not_idle u s h speaks = rw (h.open_, h.staffed, speaks) refl

  module _ (db : CheckUser) (u : Utterance) (t : BoostAsioClientSession) (s : Server)
      (h : IsServing s) (chat : IsChat u) (found : find uuid_eq u.speaker s.sessions ≡ some t)
      (ready : IsReady (u.speaker, t)) where
    frame_read :
        read_message blank (open_read (write_message u.message))
        ≡ (returned u.message, open_read [])
    frame_read =
        ap (λ b. read_message blank (open_read b)) (sym (append-nil (write_message u.message)))
        ∙ (read_message-Reads u.message chat.sendable blank refl).whole []

    speaks : Speaks s u
    speaks = ap is_some found

    handled :
        (s' : Server)
        → handle_read_message u.fresh u.now t (some (write_message u.message)) s'
          ≡ handle_parsed u.fresh u.now t (returned u.message) s'
    handled s' =
        ap (λ b. handle_read_message u.fresh u.now t (some b) s')
          (sym (append-nil (write_message u.message)))
        ∙ handle_read_message-parsed u.fresh u.now t u.message [] s' chat.sendable
            ready.authenticated

    step-reading : (step db (reading u) s).0 ≡ after_reading u t s
    unfolding step complete handle_parsed async_read resume_session
    step-reading =
        let s' : Server = record s { sessions = erase uuid_eq t.uuid s.sessions } in
        ap (λ b. (if b then (s, []) else complete db (reading u) s).0) (not_idle u s h speaks)
        ∙ ap (λ o. (resume_session u.fresh u.now o (some (write_message u.message)) s).0) found
        ∙ ap (λ (r : Server × List Effect). r.0) (handled s')
        ∙ ap (async_read t) (deliver-state u t s' ready.messages)

    calls_at-reading : calls_at db (reading u) s ≡ broadcast u.message ∷ []
    unfolding calls_at calls_of calls_of_session calls_of_read calls_of_parsed calls_of_message
    calls_at-reading =
        ap (λ b. if b then [] else calls_of db (reading u) s) (not_idle u s h speaks)
        ∙ ap (λ o. calls_of_session u.fresh u.now o (some (write_message u.message)) s.manager)
            found
        ∙ ap
            (λ b.
              if not b
              then calls_of_leaving t
              else calls_of_parsed u.fresh u.now t
                  (read_message blank (open_read (write_message u.message))).0 s.manager)
            ready.authenticated
        ∙ ap (λ r. calls_of_parsed u.fresh u.now t r.0 s.manager) frame_read
        ∙ ap (λ b. if b then calls_of_message u.fresh u.now u.message t.uuid s.manager else [])
            ready.messages
        ∙ rw chat.chats refl

  -- A session that reads before a message is read reads behind it.
  still_reads :
      (k : Uuid) (u : Utterance) (t : BoostAsioClientSession) (s : Server)
      → is_some (find uuid_eq k s.sessions) ≡ true
      → is_some (find uuid_eq k (after_reading u t s).sessions) ≡ true
  still_reads k u t s h =
      let rest = erase uuid_eq t.uuid s.sessions in
      ap is_some (
        find-emplace_any uuid_eq t.uuid k t rest
        ∙ ap
            (λ o. if decide (uuid_eq t.uuid k) then some (kept (find uuid_eq t.uuid rest) t) else o)
            (find-erase uuid_eq t.uuid k s.sessions))
      ∙ either (decide (uuid_eq t.uuid k)) (find uuid_eq k s.sessions)
          (kept (find uuid_eq t.uuid rest) t) h
    where
      either :
          (b : Bool) (o : Option BoostAsioClientSession) (v : BoostAsioClientSession)
          → is_some o ≡ true
          → is_some (if b then some v else (if b then none else o)) ≡ true
      either true o v e = refl
      either false o v e = e

  -- What a message leaves behind: a server that serves on, in which whoever spoke can speak.
  record GoesOn (db : CheckUser) (u : Utterance) (s : Server) : Type 0 where
    serving : IsServing (step db (reading u) s).0
    speaking : (v : Utterance) → Speaks s v → Speaks (step db (reading u) s).0 v
    calls : calls_at db (reading u) s ≡ broadcast u.message ∷ []

  reading-GoesOn :
      (db : CheckUser) (u : Utterance) (s : Server)
      → RefusesEmpty db
      → IsServing s
      → IsChat u
      → Speaks s u
      → GoesOn db u s
  reading-GoesOn db u s refuses h chat speaks =
      let (t, found) = found_session (find uuid_eq u.speaker s.sessions) speaks in
      let ready = All-find uuid_eq IsReady u.speaker t s.sessions h.sound.reading found in
      let next = step-reading db u t s h chat found ready in
      record {
        serving = record {
          sound = step-IsSound db (reading u) s refuses h.sound;
          open_ = ap (λ (x : Server). x.io_stopped) next ∙ h.open_;
          staffed = ap (λ (x : Server). x.threads == 0) next ∙ h.staffed;
        };
        speaking = λ v k. subst (λ x. Speaks x v) (sym next) (still_reads v.speaker u t s k);
        calls = calls_at-reading db u t s h chat found ready;
      }

  all_speak :
      (us : List Utterance) (s s' : Server)
      → ((v : Utterance) → Speaks s v → Speaks s' v)
      → All (Speaks s) us
      → All (Speaks s') us
  all_speak [] s s' f k = tt
  all_speak (u ∷ us) s s' f k = (f u k.0, all_speak us s s' f k.1)

  -- Messages that sessions of a running, sound server read whole are broadcast, in the order in which
  -- they are read, and nothing else is.
  pub all_calls-reading :
      (dbs : ℕ → CheckUser) (us : List Utterance) (s : Server)
      → ((k : ℕ) → RefusesEmpty (dbs k))
      → IsServing s
      → All IsChat us
      → All (Speaks s) us
      → all_calls dbs (map reading us) s ≡ map (λ (u : Utterance). broadcast u.message) us
  unfolding all_calls
  all_calls-reading dbs [] s refuses h chats speak = refl
  all_calls-reading dbs (u ∷ us) s refuses h chats speak =
      let k = reading-GoesOn (dbs 0) u s (refuses 0) h chats.0 speak.0 in
      let s' = (step (dbs 0) (reading u) s).0 in
      ap (λ cs. cs ++ all_calls (λ k. dbs (suc k)) (map reading us) s') k.calls
      ∙ ap (λ cs. broadcast u.message ∷ cs)
          (all_calls-reading (λ k. dbs (suc k)) us s' (λ k. refuses (suc k)) k.serving chats.1
            (all_speak us s s' k.speaking speak.1))
