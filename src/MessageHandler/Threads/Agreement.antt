-- ===== src/MessageHandler/Threads/Agreement.antt =====
-- All clients of message_handler.cpp and client_manager.cpp see the same order of the messages that
-- several threads hand on, and so does the history.
use mathlib.Core.List.{Perm}
use qt_messenger.Prelude.{
  ℕ, zero, suc, ◌≤◌, ◌≡◌, ◌≢◌, refl, sym, ap, subst, ◌∙◌, inl, inr, true, Bool-cases, List, [], ◌∷◌,
  ◌++◌, map, append-nil, append_assoc, All, All-append, last, decide_iff, arith,
}
use qt_messenger.Qt.{Qt}
use qt_messenger.Message.{Message, write_message}
use qt_messenger.Session.{ClientSession}
use qt_messenger.ClientManager.{
  ClientManager, Call, add, remove, clears, broadcast, send_to, max_history_size,
}
use qt_messenger.ClientManager.History.{broadcasts, history_run, last_short}
use qt_messenger.ClientManager.Invariant.{IsValid, AddsKeyed}
use qt_messenger.ClientManager.Delivery.{received}
use qt_messenger.ClientManager.Joining.{Connected, Spares, all_addressed, received-run}
use qt_messenger.MessageHandler.{is_user_list_request}
use qt_messenger.MessageHandler.Threads.{
  Task, handling, answering, done, advance, take_turn, interleave,
}
use qt_messenger.MessageHandler.Threads.Calls.{call_of, call_at, calls_of, interleave-run}
use qt_messenger.MessageHandler.Threads.Turns.{needs, turns_of, interleave-IsDone}
use qt_messenger.MessageHandler.Threads.Order.{
  all_to_say, said_to_all, IsDone, nothing_to_say, interleave-says,
}

module _ ⦃qt : Qt⦄ where
  open qt use {Uuid}

  -- The task does not answer a request of `id`.
  abbrev pub Quiet : Uuid → Task → Type 0
  Quiet id (handling m sender fresh now) = is_user_list_request m ≡ true → sender ≢ id
  Quiet id (answering sender m) = sender ≢ id
  Quiet id done = Unit

module _ ⦃qt : Qt⦄ {S : Type 0} where
  open qt use {Uuid, uuid_eq}

  -- A call that only writes: the threads make no other.
  abbrev Speaks : Call S → Type 0
  Speaks (broadcast m) = Unit
  Speaks (send_to j m) = Unit
  Speaks _ = ⊥

  -- A call that only writes, and has nothing for `id` alone.
  abbrev SpeaksPast : Uuid → Call S → Type 0
  SpeaksPast id (broadcast m) = Unit
  SpeaksPast id (send_to j m) = j ≢ id
  SpeaksPast id _ = ⊥

  broadcasts-said :
      (past : List Message) (cs : List (Call S))
      → All Speaks cs
      → broadcasts past cs ≡ past ++ said_to_all cs
  broadcasts-said past [] h = sym (append-nil past)
  broadcasts-said past (broadcast m ∷ cs) h =
      broadcasts-said (past ++ m ∷ []) cs h.1 ∙ append_assoc past (m ∷ []) (said_to_all cs)
  broadcasts-said past (send_to j m ∷ cs) h = broadcasts-said past cs h.1
  broadcasts-said past (add j s ∷ cs) h = absurd h.0
  broadcasts-said past (remove j ∷ cs) h = absurd h.0
  broadcasts-said past (clears ∷ cs) h = absurd h.0

  all_addressed-said :
      (id : Uuid) (cs : List (Call S))
      → All (SpeaksPast id) cs
      → all_addressed id cs ≡ said_to_all cs
  all_addressed-said id [] h = refl
  all_addressed-said id (broadcast m ∷ cs) h = ap (λ ms. m ∷ ms) (all_addressed-said id cs h.1)
  all_addressed-said id (send_to j m ∷ cs) h =
      ground (arith, all_addressed-said id cs h.1, decide_iff (uuid_eq j id), h.0)
  all_addressed-said id (add j s ∷ cs) h = absurd h.0
  all_addressed-said id (remove j ∷ cs) h = absurd h.0
  all_addressed-said id (clears ∷ cs) h = absurd h.0

  SpeaksPast-Spares : (id : Uuid) (cs : List (Call S)) → All (SpeaksPast id) cs → All (Spares id) cs
  SpeaksPast-Spares id [] h = tt
  SpeaksPast-Spares id (broadcast m ∷ cs) h = (tt, SpeaksPast-Spares id cs h.1)
  SpeaksPast-Spares id (send_to j m ∷ cs) h = (tt, SpeaksPast-Spares id cs h.1)
  SpeaksPast-Spares id (add j s ∷ cs) h = absurd h.0
  SpeaksPast-Spares id (remove j ∷ cs) h = absurd h.0
  SpeaksPast-Spares id (clears ∷ cs) h = absurd h.0

module _ ⦃qt : Qt⦄ {S : Type 0} ⦃session : ClientSession S⦄ where
  open qt use {Uuid}

  SpeaksPast-AddsKeyed :
      (id : Uuid) (cs : List (Call S)) → All (SpeaksPast id) cs → All AddsKeyed cs
  SpeaksPast-AddsKeyed id [] h = tt
  SpeaksPast-AddsKeyed id (broadcast m ∷ cs) h = (tt, SpeaksPast-AddsKeyed id cs h.1)
  SpeaksPast-AddsKeyed id (send_to j m ∷ cs) h = (tt, SpeaksPast-AddsKeyed id cs h.1)
  SpeaksPast-AddsKeyed id (add j s ∷ cs) h = absurd h.0
  SpeaksPast-AddsKeyed id (remove j ∷ cs) h = absurd h.0
  SpeaksPast-AddsKeyed id (clears ∷ cs) h = absurd h.0

  call_of-Speaks : (t : Task) (cm : ClientManager S) → All Speaks (call_of t cm)
  unfolding call_of
  call_of-Speaks (handling m sender id now) cm = elim (Bool-cases (is_user_list_request m)) [
    | inl asks ↦ rw asks tt
    | inr chats ↦ rw chats (tt, tt)
  ]
  call_of-Speaks (answering sender m) cm = (tt, tt)
  call_of-Speaks done cm = tt

  call_at-Speaks : (i : ℕ) (ts : List Task) (cm : ClientManager S) → All Speaks (call_at i ts cm)
  unfolding call_at
  call_at-Speaks i [] cm = tt
  call_at-Speaks zero (t ∷ ts) cm = call_of-Speaks t cm
  call_at-Speaks (suc i) (t ∷ ts) cm = call_at-Speaks i ts cm

  calls_of-Speaks :
      (is : List ℕ) (ts : List Task) (cm : ClientManager S) → All Speaks (calls_of is ts cm)
  unfolding calls_of
  calls_of-Speaks [] ts cm = tt
  calls_of-Speaks (i ∷ is) ts cm =
      All-append Speaks (call_at i ts cm) _ (call_at-Speaks i ts cm) (calls_of-Speaks is _ _)

  advance-Quiet :
      (id : Uuid) (t : Task) (cm : ClientManager S)
      → Quiet id t
      → Quiet id (advance t cm).0 × All (SpeaksPast id) (call_of t cm)
  unfolding advance call_of
  advance-Quiet id (handling m sender fresh now) cm q = elim (Bool-cases (is_user_list_request m)) [
    | inl asks ↦ rw asks (q asks, tt)
    | inr chats ↦ rw chats (tt, (tt, tt))
  ]
  advance-Quiet id (answering sender m) cm q = (tt, (q, tt))
  advance-Quiet id done cm q = (tt, tt)

  take_turn-Quiet :
      (id : Uuid) (i : ℕ) (ts : List Task) (cm : ClientManager S)
      → All (Quiet id) ts
      → All (Quiet id) (take_turn i ts cm).0 × All (SpeaksPast id) (call_at i ts cm)
  unfolding take_turn call_at
  take_turn-Quiet id i [] cm q = (tt, tt)
  take_turn-Quiet id zero (t ∷ ts) cm q = let r = advance-Quiet id t cm q.0 in ((r.0, q.1), r.1)
  take_turn-Quiet id (suc i) (t ∷ ts) cm q =
      let r = take_turn-Quiet id i ts cm q.1 in ((q.0, r.0), r.1)

  calls_of-Quiet :
      (id : Uuid) (is : List ℕ) (ts : List Task) (cm : ClientManager S)
      → All (Quiet id) ts
      → All (SpeaksPast id) (calls_of is ts cm)
  unfolding calls_of
  calls_of-Quiet id [] ts cm q = tt
  calls_of-Quiet id (i ∷ is) ts cm q =
      let r = take_turn-Quiet id i ts cm q in
      All-append (SpeaksPast id) (call_at i ts cm) _ r.1 (calls_of-Quiet id is _ _ r.0)

  -- What the clients agree on: the order `ms` of the messages of the tasks.
  pub record Agreed (ts : List Task) (before after : ClientManager S) (ms : List Message)
      (heard : Uuid → List (List ℕ)) : Type 0 where
    pub all_said : Perm ms (all_to_say ts)
    pub history : after.chat_history ≡ last max_history_size (before.chat_history ++ ms)
    pub same_order :
        (id : Uuid) (s : S)
        → Connected id s before
        → All (Quiet id) ts
        → heard id ≡ map write_message ms

  -- Threads handle messages on a valid manager, and their turns come in any order, as many for each as
  -- it needs, two for a request and one for a chat message: then all are done, and there is one order
  -- of the chat messages, each once, that the history has behind what it had, cut to the last hundred,
  -- and in which every client is sent them that is connected and has no request of its own among them;
  -- and it is sent nothing else.
  pub interleave-Agreed :
      (is : List ℕ) (ts : List Task) (cm : ClientManager S)
      → IsValid cm
      → ((k : ℕ) → needs ts k ≤ turns_of k is)
      → All IsDone (interleave is ts cm).0
        × ((ms : List Message) × Agreed ts cm
              (interleave is ts cm).1
              ms
              (λ id. received id (interleave is ts cm).2))
  interleave-Agreed is ts cm v enough =
      let finished = interleave-IsDone is ts cm enough in
      let cs = calls_of is ts cm in
      let ran = interleave-run is ts cm in
      (
        finished,
        (
          said_to_all cs,
          record {
            all_said =
                subst (λ l. Perm l (all_to_say ts))
                  (ap (λ l. said_to_all cs ++ l) (nothing_to_say _ finished)
                    ∙ append-nil (said_to_all cs))
                  (interleave-says is ts cm);
            history =
                ap (λ (m : ClientManager S). m.chat_history) ran.0
                ∙ history_run cm.chat_history cs cm
                    (sym (last_short max_history_size cm.chat_history v.bounded))
                ∙ ap (last max_history_size)
                    (broadcasts-said cm.chat_history cs (calls_of-Speaks is ts cm));
            same_order = λ id s connected quiet.
                let past = calls_of-Quiet id is ts cm quiet in
                ap (received id) ran.1
                ∙ received-run id s cs cm (SpeaksPast-AddsKeyed id cs past)
                    (SpeaksPast-Spares id cs past) connected
                ∙ ap (map write_message) (all_addressed-said id cs past);
          },
        ),
      )
