-- ===== src/MessageHandler/Threads.antt =====
-- server/src/message_handler.cpp run by several threads: each method of the client manager holds
-- `m_clientsMutex` for itself, so a user list request takes it twice, and what other threads do may
-- come between. A schedule says which thread takes the mutex next.
pub mod Calls
pub mod Order
pub mod Turns
pub mod Agreement
use qt_messenger.Prelude.{ℕ, zero, suc, List, [], ◌∷◌, ◌++◌, if◌then◌else◌}
use qt_messenger.Qt.{Qt}
use qt_messenger.Message.{Message}
use qt_messenger.Session.{Write, ClientSession}
use qt_messenger.ClientManager.{ClientManager, get_usernames, send_message_to_client}
use qt_messenger.MessageHandler.{is_user_list_request, user_list_response, handle_chat_message}

module _ ⦃qt : Qt⦄ where
  open qt use {Uuid, DateTime}

  -- A thread in `handleMessage`: before its first call of the manager, with the identifier and the time
  -- that a response will take; between `getUsernames` and `sendMessageToClient`; behind its last call.
  pub data Task : Type 0 where
    handling : Message → Uuid → Uuid → DateTime → Task
    answering : Uuid → Message → Task
    done : Task

module _ ⦃qt : Qt⦄ {S : Type 0} ⦃session : ClientSession S⦄ where
  -- One call of the manager.
  unfoldable pub advance : Task → ClientManager S → Task × ClientManager S × List Write
  advance (handling m sender id now) cm =
      if is_user_list_request m
      then (answering sender (user_list_response id now (get_usernames cm)), cm, [])
      else (let (cm', ws) = handle_chat_message id now m cm in (done, cm', ws))
  advance (answering sender m) cm = (done, cm, send_message_to_client sender m cm)
  advance done cm = (done, cm, [])

  -- The thread of this number takes the mutex; there may be none.
  unfoldable pub take_turn :
      ℕ → List Task → ClientManager S → List Task × ClientManager S × List Write
  unfolding advance
  take_turn i [] cm = ([], cm, [])
  take_turn zero (t ∷ ts) cm = let (t', cm', ws) = advance t cm in (t' ∷ ts, cm', ws)
  take_turn (suc i) (t ∷ ts) cm = let (ts', cm', ws) = take_turn i ts cm in (t ∷ ts', cm', ws)

  unfoldable pub interleave :
      List ℕ → List Task → ClientManager S → List Task × ClientManager S × List Write
  unfolding take_turn
  interleave [] ts cm = (ts, cm, [])
  interleave (i ∷ is) ts cm =
      let (ts', cm', ws) = take_turn i ts cm in
      let (ts'', cm'', vs) = interleave is ts' cm' in (ts'', cm'', ws ++ vs)
