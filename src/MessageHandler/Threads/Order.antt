-- ===== src/MessageHandler/Threads/Order.antt =====
-- However the threads of message_handler.cpp interleave, there is one order of their messages.
use mathlib.Core.List.{Perm, perm_append_comm}
use mathlib.Core.List.Perm
use qt_messenger.Prelude.{
  ℕ, zero, suc, ◌≡◌, refl, sym, ap, subst, ◌∙◌, inl, inr, Bool-cases, List, [], ◌∷◌, ◌++◌,
  append_assoc, All, if◌then◌else◌,
}
use qt_messenger.Qt.{Qt}
use qt_messenger.Message.{Message}
use qt_messenger.Session.{ClientSession}
use qt_messenger.ClientManager.{ClientManager, Call, add, remove, clears, broadcast, send_to}
use qt_messenger.MessageHandler.{is_user_list_request}
use qt_messenger.MessageHandler.Threads.{
  Task, handling, answering, done, advance, take_turn, interleave,
}
use qt_messenger.MessageHandler.Threads.Calls.{call_of, call_at, calls_of}

module _ ⦃qt : Qt⦄ where
  -- The chat messages that the tasks still have to hand on.
  abbrev pub to_say : Task → List Message
  to_say (handling m sender id now) = if is_user_list_request m then [] else m ∷ []
  to_say _ = []

  abbrev pub all_to_say : List Task → List Message
  all_to_say [] = []
  all_to_say (t ∷ ts) = to_say t ++ all_to_say ts

  abbrev pub IsDone : Task → Type 0
  IsDone done = Unit
  IsDone _ = ⊥

  pub nothing_to_say : (ts : List Task) → All IsDone ts → all_to_say ts ≡ []
  nothing_to_say [] h = refl
  nothing_to_say (done ∷ ts) h = nothing_to_say ts h.1
  nothing_to_say (handling m s i n ∷ ts) h = absurd h.0
  nothing_to_say (answering s m ∷ ts) h = absurd h.0

module _ ⦃qt : Qt⦄ {S : Type 0} where
  -- The messages of the broadcasts among calls.
  abbrev pub said_to_all : List (Call S) → List Message
  said_to_all [] = []
  said_to_all (broadcast m ∷ cs) = m ∷ said_to_all cs
  said_to_all (_ ∷ cs) = said_to_all cs

module _ {ℓ} {A : Type ℓ} where
  perm_swap : (a b c : List A) → Perm (a ++ (b ++ c)) (b ++ (a ++ c))
  perm_swap a b c =
      subst (λ l. Perm l (b ++ (a ++ c))) (append_assoc a b c)
        (subst (λ l. Perm ((a ++ b) ++ c) l) (append_assoc b a c)
          (Perm.append_right c (perm_append_comm a b)))

module _ ⦃qt : Qt⦄ {S : Type 0} where
  said_to_all-append :
      (cs ds : List (Call S)) → said_to_all (cs ++ ds) ≡ said_to_all cs ++ said_to_all ds
  said_to_all-append [] ds = refl
  said_to_all-append (broadcast m ∷ cs) ds = ap (λ ms. m ∷ ms) (said_to_all-append cs ds)
  said_to_all-append (send_to j m ∷ cs) ds = said_to_all-append cs ds
  said_to_all-append (add j s ∷ cs) ds = said_to_all-append cs ds
  said_to_all-append (remove j ∷ cs) ds = said_to_all-append cs ds
  said_to_all-append (clears ∷ cs) ds = said_to_all-append cs ds

module _ ⦃qt : Qt⦄ {S : Type 0} ⦃session : ClientSession S⦄ where
  advance-says :
      (t : Task) (cm : ClientManager S)
      → said_to_all (call_of t cm) ++ to_say (advance t cm).0 ≡ to_say t
  unfolding advance call_of
  advance-says (handling m sender id now) cm = elim (Bool-cases (is_user_list_request m)) [
    | inl asks ↦ rw asks refl
    | inr chats ↦ rw chats refl
  ]
  advance-says (answering sender m) cm = refl
  advance-says done cm = refl

  -- What a turn says to all is what the tasks have less to say.
  take_turn-says :
      (i : ℕ) (ts : List Task) (cm : ClientManager S)
      → Perm (said_to_all (call_at i ts cm) ++ all_to_say (take_turn i ts cm).0) (all_to_say ts)
  unfolding take_turn call_at
  take_turn-says i [] cm = Perm.refl []
  take_turn-says zero (t ∷ ts) cm =
      subst (λ l. Perm (said_to_all (call_of t cm) ++ (to_say (advance t cm).0 ++ all_to_say ts)) l)
        (sym (append_assoc (said_to_all (call_of t cm)) (to_say (advance t cm).0) (all_to_say ts))
          ∙ ap (λ l. l ++ all_to_say ts) (advance-says t cm))
        (Perm.refl _)
  take_turn-says (suc i) (t ∷ ts) cm =
      Perm.trans
        (perm_swap (said_to_all (call_at i ts cm)) (to_say t) (all_to_say (take_turn i ts cm).0))
        (Perm.append_left (to_say t) (take_turn-says i ts cm))

  pub interleave-says :
      (is : List ℕ) (ts : List Task) (cm : ClientManager S)
      → Perm (said_to_all (calls_of is ts cm) ++ all_to_say (interleave is ts cm).0) (all_to_say ts)
  unfolding interleave calls_of
  interleave-says [] ts cm = Perm.refl (all_to_say ts)
  interleave-says (i ∷ is) ts cm =
      let turn = take_turn i ts cm in
      let now = said_to_all (call_at i ts cm) in
      let later = said_to_all (calls_of is turn.0 turn.1) in
      let left = all_to_say (interleave is turn.0 turn.1).0 in
      subst (λ l. Perm (l ++ left) (all_to_say ts))
        (sym (said_to_all-append (call_at i ts cm) (calls_of is turn.0 turn.1)))
        (subst (λ l. Perm l (all_to_say ts)) (sym (append_assoc now later left))
          (Perm.trans (Perm.append_left now (interleave-says is turn.0 turn.1))
            (take_turn-says i ts cm)))
