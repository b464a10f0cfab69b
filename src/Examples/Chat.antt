-- ===== src/Examples/Chat.antt =====
-- The client manager and the message handler over two sessions: the theorems at concrete calls.
use qt_messenger.Prelude.{
  ◌≡◌, refl, true, none, List, [], ◌∷◌, ◌++◌, map, last, bytes, arith, ℕ_discrete,
}
use qt_messenger.Message.{Message, system, user_list, is_system, write_message}
use qt_messenger.Session.Boost.{BoostAsioClientSession, wrapped_session}
use qt_messenger.UnorderedMap.{find, emplace}
use qt_messenger.ClientManager.{
  ClientManager, Call, add, broadcast, send_to, max_history_size, new_manager, broadcast_message,
  perform, run, add_client,
}
use qt_messenger.ClientManager.History.{broadcasts, chat_history-run}
use qt_messenger.ClientManager.Invariant.{IsValid}
use qt_messenger.ClientManager.Delivery.{received}
use qt_messenger.ClientManager.Joining.{all_addressed, late_joiner}
use qt_messenger.MessageHandler.{is_user_list_request, handle_message}
use qt_messenger.MessageHandler.Routing.{user_list_request_answered}
use qt_messenger.Examples.SampleQt.{sample_qt}
use qt_messenger.Examples.Messages.{hello}

abbrev pub ann : BoostAsioClientSession
ann = record {
  uuid = 1;
  username = bytes "ann";
  authenticated = true;
  message_callback = true;
  disconnect_callback = true;
}

abbrev pub bob : BoostAsioClientSession
bob = record ann { uuid = 2; username = bytes "bob" }

abbrev pub Calls : Type 0
Calls = List (Call BoostAsioClientSession)

-- Ann and Bob join.
abbrev pub both_join : Calls
both_join = add 1 ann ∷ add 2 bob ∷ []

abbrev pub chatting : Calls
chatting = broadcast hello ∷ send_to 2 hello ∷ []

abbrev pub two_clients : ClientManager BoostAsioClientSession
two_clients = record { clients = (2, bob) ∷ (1, ann) ∷ []; chat_history = [] }

pub two_clients-IsValid : IsValid two_clients
unfolding find ℕ_discrete
two_clients-IsValid = record {
  distinct = (refl, (refl, tt));
  keyed = (refl, (refl, tt));
  bounded = omega arith;
}

chat_history-run_example :
    (run chatting new_manager).0.chat_history ≡ last max_history_size (broadcasts [] chatting)
chat_history-run_example = chat_history-run chatting

pub bob_absent :
    find ℕ_discrete 2 (run (add 1 ann ∷ broadcast hello ∷ []) new_manager).0.clients ≡ none
unfolding find emplace run perform add_client broadcast_message new_manager ℕ_discrete
bob_absent = refl

late_joiner_example :
    received 2 (run (add 2 bob ∷ chatting) (run (add 1 ann ∷ broadcast hello ∷ []) new_manager).0).1
    ≡ map write_message (
        last max_history_size (broadcasts [] (add 1 ann ∷ broadcast hello ∷ []))
        ++ all_addressed 2 chatting)
late_joiner_example =
    late_joiner 2 bob (add 1 ann ∷ broadcast hello ∷ []) chatting refl refl (refl, (tt, tt))
      (tt, (tt, tt)) (tt, (tt, tt)) bob_absent

abbrev pub request : Message
request = record hello { kind = system; text = bytes "REQUEST_USER_LIST" }

pub is_request : is_user_list_request request ≡ true
unfolding is_user_list_request is_system
is_request = refl

user_list_request_answered_example :
    ((handle_message 9 5 request 1 two_clients).0 ≡ two_clients)
    × (received 1 (handle_message 9 5 request 1 two_clients).1 ≡ (
        write_message (record {
          sender_id = 9;
          username = bytes "Server";
          text = bytes "User list";
          timestamp = 5;
          kind = user_list;
          users = bytes "bob" ∷ bytes "ann" ∷ [];
        })
        ∷ []))
unfolding find ℕ_discrete
user_list_request_answered_example =
    user_list_request_answered 9 5 request 1 1 two_clients two_clients-IsValid refl refl
