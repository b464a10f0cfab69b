-- ===== src/Examples/Conversation.antt =====
-- The server as a room, and a conversation of two clients: the theorems at concrete completions.
use qt_messenger.Prelude.{ℕ, ◌≡◌, refl, some, none, List, [], ◌∷◌, Bytes, bytes, map, ℕ_discrete}
use qt_messenger.Message.{write_message}
use qt_messenger.Session.Boost.{wrapped_session}
use qt_messenger.UnorderedMap.{find}
use qt_messenger.ClientManager.Delivery.{received}
use qt_messenger.ClientManager.Room.{all_happen, all_heard}
use qt_messenger.ClientManager.Refinement.{Implements, new_manager-Implements}
use qt_messenger.Client.AuthHandler.{send_credentials}
use qt_messenger.Server.{
  Server, Completion, connected_socket, accepted, credentials, read_done, new_server,
  accept_connections, start, run,
}
use qt_messenger.Server.Auth.{RefusesEmpty-none}
use qt_messenger.Server.Relay.{writes}
use qt_messenger.Server.Calls.{all_calls}
use qt_messenger.Server.Served.{run-Implements_room}
use qt_messenger.Client.NetworkClient.Reassembly.{receive}
use qt_messenger.Client.ChatWindow.{handle_events}
use qt_messenger.Client.ChatWindow.Shown.{shown}
use qt_messenger.System.Speaking.{Utterance, reading, Speaks, IsChat, IsServing}
use qt_messenger.System.Conversation.{messages, everyone_sees_the_chat}
use qt_messenger.Examples.SampleQt.{sample_qt}
use qt_messenger.Examples.SampleSql.{sample_text}
use qt_messenger.Examples.Messages.{hello, hello-IsSendable}
use qt_messenger.Examples.Chat.{bob}
use qt_messenger.Examples.Serving.{nobody, serving, serving-IsSound, hello_is_chat}
use qt_messenger.Examples.Client.{online}
use qt_messenger.Examples.Accounts.{window, hello-IsShowable}
use qt_messenger.Examples.Threads.{room}

-- Eve connects, logs in, speaks and leaves.
abbrev visit : List Completion
visit =
    accepted (connected_socket 5)
    ∷ credentials 5 (some (send_credentials (bytes "eve") (bytes "pw"))) 3
    ∷ read_done 3 (some (write_message hello)) 9 5
    ∷ read_done 3 none 9 5
    ∷ []

abbrev started : Server
started = start (new_server 4)

started-Implements : Implements started.manager room
unfolding start new_server accept_connections
started-Implements = new_manager-Implements

run-Implements_room_example :
    Implements
      (run nobody visit started).0.manager
      (all_happen (all_calls nobody visit started) room)
    × ((id : ℕ)
        → received id (writes (run nobody visit started).1)
          ≡ map write_message (all_heard id (all_calls nobody visit started) room))
run-Implements_room_example =
    run-Implements_room nobody visit started room (λ k. RefusesEmpty-none) started-Implements

-- Ann speaks, Bob answers, Ann speaks again.
abbrev talk : List Utterance
talk =
    record { speaker = 1; message = hello; fresh = 9; now = 5 }
    ∷ record { speaker = 2; message = hello; fresh = 10; now = 6 }
    ∷ record { speaker = 1; message = hello; fresh = 11; now = 7 }
    ∷ []

serving-IsServing : IsServing serving
serving-IsServing = record { sound = serving-IsSound; open_ = refl; staffed = refl }

ann-Speaks : Speaks serving (record { speaker = 1; message = hello; fresh = 9; now = 5 })
unfolding find ℕ_discrete
ann-Speaks = refl

bob-Speaks : Speaks serving (record { speaker = 2; message = hello; fresh = 9; now = 5 })
unfolding find ℕ_discrete
bob-Speaks = refl

hello-IsChat : (k : ℕ) → IsChat (record { speaker = k; message = hello; fresh = k; now = k })
hello-IsChat k = record { sendable = hello-IsSendable; chats = hello_is_chat }

bob_there : find ℕ_discrete 2 serving.manager.clients ≡ some bob
unfolding find ℕ_discrete
bob_there = refl

abbrev to_bob : List Bytes
to_bob = received 2 (writes (run nobody (map reading talk) serving).1)

everyone_sees_the_chat_example :
    handle_events 5 (receive to_bob online).1 window ≡ some (shown window (messages talk))
everyone_sees_the_chat_example =
    everyone_sees_the_chat nobody talk serving 2 bob 5 to_bob online window (λ k. RefusesEmpty-none)
      serving-IsServing
      (
        record { sendable = hello-IsSendable; chats = hello_is_chat },
        (
          record { sendable = hello-IsSendable; chats = hello_is_chat },
          (record { sendable = hello-IsSendable; chats = hello_is_chat }, tt),
        ),
      )
      (ann-Speaks, (bob-Speaks, (ann-Speaks, tt))) bob_there
      (hello-IsShowable, (hello-IsShowable, (hello-IsShowable, tt))) refl refl refl
