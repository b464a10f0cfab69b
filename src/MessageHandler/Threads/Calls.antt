-- ===== src/MessageHandler/Threads/Calls.antt =====
-- The calls of the client manager that the threads of message_handler.cpp make, in the order of its
-- mutex.
use qt_messenger.Prelude.{
  ℕ, zero, suc, ◌≡◌, refl, sym, ap, ap₂, ◌∙◌, inl, inr, Bool-cases, List, [], ◌∷◌, ◌++◌, append-nil,
  if◌then◌else◌,
}
use qt_messenger.Qt.{Qt}
use qt_messenger.Session.{Write, ClientSession}
use qt_messenger.ClientManager.{ClientManager, Call, broadcast, send_to, run, perform}
use qt_messenger.ClientManager.Runs.{run-append}
use qt_messenger.MessageHandler.{is_user_list_request, handle_chat_message}
use qt_messenger.MessageHandler.Threads.{
  Task, handling, answering, done, advance, take_turn, interleave,
}

module _ ⦃qt : Qt⦄ {S : Type 0} ⦃session : ClientSession S⦄ where
  -- The calls that change the state or write, in a task's next turn.
  unfoldable pub call_of : Task → ClientManager S → List (Call S)
  call_of (handling m sender id now) cm = if is_user_list_request m then [] else broadcast m ∷ []
  call_of (answering sender m) cm = send_to sender m ∷ []
  call_of done cm = []

  unfoldable pub call_at : ℕ → List Task → ClientManager S → List (Call S)
  unfolding call_of
  call_at i [] cm = []
  call_at zero (t ∷ ts) cm = call_of t cm
  call_at (suc i) (t ∷ ts) cm = call_at i ts cm

  -- The calls of an interleaving, in the order of the mutex.
  unfoldable pub calls_of : List ℕ → List Task → ClientManager S → List (Call S)
  unfolding call_at
  calls_of [] ts cm = []
  calls_of (i ∷ is) ts cm =
      let (ts', cm', ws) = take_turn i ts cm in call_at i ts cm ++ calls_of is ts' cm'

  -- A turn is the calls that it makes.
  abbrev pub Runs :
      List Task × ClientManager S × List Write → List (Call S) → ClientManager S → Type 0
  Runs r cs cm = (r.1 ≡ (run cs cm).0) × (r.2 ≡ (run cs cm).1)

  advance-run :
      (t : Task) (cm : ClientManager S)
      → ((advance t cm).1 ≡ (run (call_of t cm) cm).0)
        × ((advance t cm).2 ≡ (run (call_of t cm) cm).1)
  unfolding advance call_of perform handle_chat_message run
  advance-run (handling m sender id now) cm = elim (Bool-cases (is_user_list_request m)) [
    | inl asks ↦ rw asks (refl, refl)
    | inr chats ↦ rw chats (refl, sym (append-nil _))
  ]
  advance-run (answering sender m) cm = (refl, sym (append-nil _))
  advance-run done cm = (refl, refl)

  take_turn-run :
      (i : ℕ) (ts : List Task) (cm : ClientManager S)
      → Runs (take_turn i ts cm) (call_at i ts cm) cm
  unfolding take_turn call_at run
  take_turn-run i [] cm = (refl, refl)
  take_turn-run zero (t ∷ ts) cm = advance-run t cm
  take_turn-run (suc i) (t ∷ ts) cm = take_turn-run i ts cm

  -- An interleaving does to the manager, and writes, what its calls do one after the other.
  pub interleave-run :
      (is : List ℕ) (ts : List Task) (cm : ClientManager S)
      → Runs (interleave is ts cm) (calls_of is ts cm) cm
  unfolding interleave calls_of run
  interleave-run [] ts cm = (refl, refl)
  interleave-run (i ∷ is) ts cm =
      let turn = take_turn i ts cm in
      let cs = call_at i ts cm in
      let ds = calls_of is turn.0 turn.1 in
      let now = take_turn-run i ts cm in
      let later = interleave-run is turn.0 turn.1 in
      let both = run-append cs ds cm in
      (
        later.0
            ∙ ap (λ m. (run ds m).0) now.0
            ∙ sym (ap (λ (r : ClientManager S × List Write). r.0) both),
        ap₂ ◌++◌ now.1 (later.1 ∙ ap (λ m. (run ds m).1) now.0)
            ∙ sym (ap (λ (r : ClientManager S × List Write). r.1) both),
      )
