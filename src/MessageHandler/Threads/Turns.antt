-- ===== src/MessageHandler/Threads/Turns.antt =====
-- How many turns the threads of message_handler.cpp need.
use qt_messenger.Prelude.{
  ℕ, zero, suc, ◌+◌, ◌-◌, ◌≤◌, ◌≡◌, refl, inl, inr, Bool-cases, List, [], ◌∷◌, All, if◌then◌else◌,
  arith,
}
use qt_messenger.Qt.{Qt}
use qt_messenger.Session.{ClientSession}
use qt_messenger.ClientManager.{ClientManager}
use qt_messenger.MessageHandler.{is_user_list_request}
use qt_messenger.MessageHandler.Threads.{
  Task, handling, answering, done, advance, take_turn, interleave,
}
use qt_messenger.MessageHandler.Threads.Order.{IsDone}

-- Whether the turn is the thread's, as a number.
abbrev pub is_turn : ℕ → ℕ → ℕ
is_turn zero zero = 1
is_turn zero (suc k) = 0
is_turn (suc i) zero = 0
is_turn (suc i) (suc k) = is_turn i k

-- The turns of a thread in a schedule.
unfoldable pub turns_of : ℕ → List ℕ → ℕ
turns_of k [] = 0
turns_of k (i ∷ is) = is_turn i k + turns_of k is

module _ ⦃qt : Qt⦄ where
  -- The turns that a task needs: a request takes the mutex twice, a chat message once.
  unfoldable pub needed : Task → ℕ
  needed (handling m sender id now) = if is_user_list_request m then 2 else 1
  needed (answering sender m) = 1
  needed done = 0

  unfoldable pub needs : List Task → ℕ → ℕ
  unfolding needed
  needs [] k = 0
  needs (t ∷ ts) zero = needed t
  needs (t ∷ ts) (suc k) = needs ts k

  needed-IsDone : (t : Task) → needed t ≡ 0 → IsDone t
  unfolding needed
  needed-IsDone (handling m sender id now) e = ground arith
  needed-IsDone (answering sender m) e = omega arith
  needed-IsDone done e = tt

  pub needs-IsDone : (ts : List Task) → ((k : ℕ) → needs ts k ≡ 0) → All IsDone ts
  unfolding needs
  needs-IsDone [] h = tt
  needs-IsDone (t ∷ ts) h = (needed-IsDone t (h 0), needs-IsDone ts (λ k. h (suc k)))

module _ ⦃qt : Qt⦄ {S : Type 0} ⦃session : ClientSession S⦄ where
  advance-needed : (t : Task) (cm : ClientManager S) → needed (advance t cm).0 ≡ needed t - 1
  unfolding advance needed
  advance-needed (handling m sender id now) cm = elim (Bool-cases (is_user_list_request m)) [
    | inl asks ↦ rw asks refl
    | inr chats ↦ rw chats refl
  ]
  advance-needed (answering sender m) cm = refl
  advance-needed done cm = refl

  take_turn-needs :
      (i k : ℕ) (ts : List Task) (cm : ClientManager S)
      → needs (take_turn i ts cm).0 k ≡ needs ts k - is_turn i k
  unfolding take_turn needs
  take_turn-needs i k [] cm = omega arith
  take_turn-needs zero zero (t ∷ ts) cm = advance-needed t cm
  take_turn-needs zero (suc k) (t ∷ ts) cm = omega arith
  take_turn-needs (suc i) zero (t ∷ ts) cm = omega arith
  take_turn-needs (suc i) (suc k) (t ∷ ts) cm = take_turn-needs i k ts cm

  -- Each turn of a thread brings it nearer to its end by one.
  pub interleave-needs :
      (is : List ℕ) (k : ℕ) (ts : List Task) (cm : ClientManager S)
      → needs (interleave is ts cm).0 k ≡ needs ts k - turns_of k is
  unfolding interleave turns_of
  interleave-needs [] k ts cm = omega arith
  interleave-needs (i ∷ is) k ts cm =
      let turn = take_turn i ts cm in
      omega (arith, interleave-needs is k turn.0 turn.1, take_turn-needs i k ts cm)

  -- Threads that have as many turns as they need are done.
  pub interleave-IsDone :
      (is : List ℕ) (ts : List Task) (cm : ClientManager S)
      → ((k : ℕ) → needs ts k ≤ turns_of k is)
      → All IsDone (interleave is ts cm).0
  interleave-IsDone is ts cm enough =
      needs-IsDone _ (λ k. omega (arith, interleave-needs is k ts cm, enough k))
