-- ===== src/ClientManager/History.antt =====
-- The chat history of client_manager.cpp is the last hundred messages that were broadcast.
use qt_messenger.Prelude.{
  ℕ, suc, ◌-◌, ◌<◌, ◌≤◌, ◌≡◌, refl, ap, ◌∙◌, List, [], ◌∷◌, ◌++◌, length, drop, last, leb,
  length-append, length-drop, drop_one-drop, drop-append_le, sym, suc, true, false, dec_lt, arith,
}
use qt_messenger.Qt.{Qt}
use qt_messenger.Message.{Message}
use qt_messenger.Session.{ClientSession}
use qt_messenger.ClientManager.{
  ClientManager, Call, add, remove, broadcast, send_to, clears, max_history_size, push_message,
  new_manager, add_client, remove_client, broadcast_message, clear, perform, run,
}

module _ {ℓ} {A : Type ℓ} where
  pub last_short : (n : ℕ) (xs : List A) → length xs ≤ n → last n xs ≡ xs
  last_short n xs h = let e : length xs - n ≡ 0 = omega arith in rw e

  length-last : (n : ℕ) (xs : List A) → n ≤ length xs → length (last n xs) ≡ n
  length-last n xs h = omega (arith, length-drop (length xs - n) xs)

  push_message_room :
      (m : A) (xs : List A) → length xs < max_history_size → push_message m xs ≡ xs ++ m ∷ []
  unfolding push_message
  push_message_room m xs h = let e : leb max_history_size (length xs) ≡ false = ground arith in rw e

  push_message_full :
      (m : A) (xs : List A) → max_history_size ≤ length xs → push_message m xs ≡ drop 1 xs ++ m ∷ []
  unfolding push_message
  push_message_full m xs h = let e : leb max_history_size (length xs) ≡ true = ground arith in rw e

  -- One message more, and still the last hundred.
  pub push_message-last :
      (m : A) (xs : List A)
      → push_message m (last max_history_size xs) ≡ last max_history_size (xs ++ m ∷ [])
  push_message-last m xs = elim (dec_lt (length xs) max_history_size) [
    | yes h ↦ rw (last_short max_history_size xs (omega arith)) (
        push_message_room m xs h
        ∙ sym (last_short _ (xs ++ m ∷ []) (omega (arith, length-append xs (m ∷ [])))))
    | no h ↦
        let full : max_history_size ≤ length xs = omega arith in
        let skip : length (xs ++ m ∷ []) - max_history_size ≡ suc (length xs - max_history_size) =
          omega (arith, length-append xs (m ∷ [])) in
        push_message_full m (last max_history_size xs)
          (omega (arith, length-last max_history_size xs full))
        ∙ ap (λ ys. ys ++ m ∷ []) (drop_one-drop (length xs - max_history_size) xs)
        ∙ sym (drop-append_le (suc (length xs - max_history_size)) xs (m ∷ []) (omega arith))
        ∙ ap (λ n. drop n (xs ++ m ∷ [])) (sym skip)
  ]

  pub length-push_message :
      (m : A) (xs : List A)
      → length xs ≤ max_history_size
      → length (push_message m xs) ≤ max_history_size
  unfolding push_message
  length-push_message m xs h = elim (dec_lt (length xs) max_history_size) [
    | yes lt ↦ rw (push_message_room m xs lt) (omega (arith, length-append xs (m ∷ [])))
    | no ge ↦
        rw (push_message_full m xs (omega arith))
          (omega (arith, length-append (drop 1 xs) (m ∷ []), length-drop 1 xs))
  ]

module _ ⦃qt : Qt⦄ {S : Type 0} where
  -- The messages that were broadcast, since the last `clear`, after those of `past`.
  abbrev pub broadcasts : List Message → List (Call S) → List Message
  broadcasts past [] = past
  broadcasts past (broadcast m ∷ cs) = broadcasts (past ++ m ∷ []) cs
  broadcasts past (clears ∷ cs) = broadcasts [] cs
  broadcasts past (_ ∷ cs) = broadcasts past cs

module _ ⦃qt : Qt⦄ {S : Type 0} ⦃session : ClientSession S⦄ where
  -- From a history that is the last hundred of `past`.
  pub history_run :
      (past : List Message) (cs : List (Call S)) (cm : ClientManager S)
      → cm.chat_history ≡ last max_history_size past
      → (run cs cm).0.chat_history ≡ last max_history_size (broadcasts past cs)
  unfolding run perform add_client remove_client broadcast_message clear
  history_run past [] cm h = h
  history_run past (add id s ∷ cs) cm h = history_run past cs _ h
  history_run past (remove id ∷ cs) cm h = history_run past cs _ h
  history_run past (broadcast m ∷ cs) cm h =
      history_run (past ++ m ∷ []) cs _ (ap (push_message m) h ∙ push_message-last m past)
  history_run past (send_to id m ∷ cs) cm h = history_run past cs _ h
  history_run past (clears ∷ cs) cm h = history_run [] cs _ refl

  -- After any calls of the methods on a new manager, in any order, the chat history is the last
  -- hundred of the messages broadcast since the last `clear`, oldest first.
  pub chat_history-run :
      (cs : List (Call S))
      → (run cs new_manager).0.chat_history ≡ last max_history_size (broadcasts [] cs)
  unfolding new_manager
  chat_history-run cs = history_run [] cs _ refl
