-- ===== src/Examples/Threads.antt =====
-- The client manager as a room, and three threads in the message handler: the theorems at one
-- schedule.
use qt_messenger.Prelude.{zero, suc, ◌≤◌, arith, ℕ, ◌≡◌, refl, none, List, [], ◌∷◌, map, All}
use qt_messenger.Message.{Message, is_system, write_message}
use qt_messenger.Session.Boost.{BoostAsioClientSession, wrapped_session}
use qt_messenger.ClientManager.{add, remove, broadcast, send_to, new_manager, run}
use qt_messenger.ClientManager.Delivery.{received}
use qt_messenger.ClientManager.Room.{Room, all_happen, all_heard}
use qt_messenger.ClientManager.Refinement.{Implements, new_manager-Implements, run-Implements}
use qt_messenger.MessageHandler.{is_user_list_request}
use qt_messenger.MessageHandler.Threads.{Task, handling, interleave}
use qt_messenger.MessageHandler.Threads.Turns.{needed, needs, turns_of}
use qt_messenger.MessageHandler.Threads.Order.{IsDone}
use qt_messenger.MessageHandler.Threads.Agreement.{Agreed, interleave-Agreed}
use qt_messenger.Examples.SampleQt.{sample_qt}
use qt_messenger.Examples.Messages.{hello}
use qt_messenger.Examples.Chat.{ann, bob, request, Calls, two_clients, two_clients-IsValid}

abbrev pub room : Room BoostAsioClientSession
room = record { member = λ k. none; said = [] }

-- Ann comes and speaks, then Bob comes, and Ann goes.
abbrev visits : Calls
visits = add 1 ann ∷ broadcast hello ∷ add 2 bob ∷ send_to 2 hello ∷ remove 1 ∷ []

run-Implements_example :
    Implements (run visits new_manager).0 (all_happen visits room)
    × ((id : ℕ)
        → received id (run visits new_manager).1 ≡ map write_message (all_heard id visits room))
run-Implements_example =
    run-Implements visits new_manager room ((refl, refl), (tt, ((refl, refl), (tt, (tt, tt)))))
      new_manager-Implements

-- Two threads hand on messages, one answers a request of Ann.
abbrev tasks : List Task
tasks = handling hello 1 8 5 ∷ handling request 1 9 5 ∷ handling hello 2 10 6 ∷ []

abbrev schedule : List ℕ
schedule = 1 ∷ 2 ∷ 1 ∷ 0 ∷ []

enough_turns : (k : ℕ) → needs tasks k ≤ turns_of k schedule
unfolding needs needed turns_of is_user_list_request is_system
enough_turns zero = omega arith
enough_turns (suc zero) = omega arith
enough_turns (suc (suc zero)) = omega arith
enough_turns (suc (suc (suc k))) = omega arith

interleave-Agreed_example :
    All IsDone (interleave schedule tasks two_clients).0
    × ((ms : List Message) × Agreed tasks two_clients
          (interleave schedule tasks two_clients).1
          ms
          (λ id. received id (interleave schedule tasks two_clients).2))
interleave-Agreed_example =
    interleave-Agreed schedule tasks two_clients two_clients-IsValid enough_turns
