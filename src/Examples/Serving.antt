-- ===== src/Examples/Serving.antt =====
-- The server over two clients: the theorems at concrete completions.
use qt_messenger.Prelude.{
  ℕ, ◌≡◌, refl, true, false, some, none, is_some, List, [], ◌∷◌, ◌++◌, map, bytes, if◌then◌else◌,
  ℕ_discrete,
}
use qt_messenger.Qt.{open_read, HasFailed}
use qt_messenger.Reader.{returned}
use qt_messenger.Message.{Message, blank, is_system, write_message, read_message}
use qt_messenger.Session.Boost.{wrapped_session}
use qt_messenger.UnorderedMap.{find, emplace}
use qt_messenger.ClientManager.Delivery.{received}
use qt_messenger.MessageHandler.{is_user_list_request, handle_message}
use qt_messenger.Client.AuthHandler.{send_credentials}
use qt_messenger.Server.{
  Server, Completion, connected_socket, CheckUser, accepted, credentials, read_done, closed, wrote,
  message_received, start, stop, authenticate_client, admit, handle_credentials,
  handle_read_message, run,
}
use qt_messenger.Server.Auth.{RefusesEmpty-none, IsReady, handle_credentials-send_credentials}
use qt_messenger.Server.Invariant.{IsSound, run-IsSound}
use qt_messenger.Server.Relay.{writes, relay}
use qt_messenger.Server.Framing.{coalesced_is_lost, truncated_is_delivered}
use qt_messenger.Server.Lifecycle.{restart_is_dead}
use qt_messenger.Examples.SampleQt.{sample_qt}
use qt_messenger.Examples.Messages.{hello, hello-IsSendable, cut_off, missing, hello-bytes}
use qt_messenger.Examples.Chat.{ann, bob, two_clients, two_clients-IsValid}

-- A server without a database.
abbrev pub nobody : ℕ → CheckUser
nobody k = none

abbrev pub serving : Server
serving = record {
  running = true;
  io_stopped = false;
  terminated = false;
  threads = 4;
  capacity = 4;
  accepts = 1;
  pending = 5 ∷ [];
  sessions = (2, bob) ∷ (1, ann) ∷ [];
  manager = two_clients;
}

pub ann-IsReady : IsReady (1, ann)
ann-IsReady = record { own = refl; authenticated = refl; messages = refl; disconnects = refl }

pub bob-IsReady : IsReady (2, bob)
bob-IsReady = record { own = refl; authenticated = refl; messages = refl; disconnects = refl }

pub serving-IsSound : IsSound serving
serving-IsSound = record {
  serving = record { valid = two_clients-IsValid; ready = (bob-IsReady, (ann-IsReady, tt)) };
  reading = (bob-IsReady, (ann-IsReady, tt));
}

-- A third client connects, and Ann speaks.
abbrev pub completions : List Completion
completions =
    accepted (connected_socket 6)
    ∷ credentials 5 (some (send_credentials (bytes "eve") (bytes "pw"))) 3
    ∷ read_done 1 (some (write_message hello)) 9 5
    ∷ []

pub hello_is_chat : is_user_list_request hello ≡ false
unfolding is_user_list_request is_system
hello_is_chat = refl

relay_example :
    (received 2 (writes (handle_read_message 9 5 ann (some (write_message hello ++ [])) serving).1)
      ≡ (if is_some (find ℕ_discrete 2 two_clients.clients) then write_message hello ∷ [] else []))
    × (is_some (
          find ℕ_discrete 1
            (handle_read_message 9 5 ann (some (write_message hello ++ [])) serving).0.sessions)
        ≡ true)
relay_example =
    relay 9 5 ann hello [] serving 2 hello-IsSendable ann-IsReady serving-IsSound hello_is_chat

run-IsSound_example : IsSound (run nobody completions serving).0
run-IsSound_example =
    run-IsSound nobody completions serving (λ k. RefusesEmpty-none) serving-IsSound

handle_credentials-send_credentials_example :
    handle_credentials none 5 (some (send_credentials (bytes "eve") (bytes "pw") ++ [])) 3 serving
    ≡ (if authenticate_client none (bytes "eve") (bytes "pw")
        then admit 3 (bytes "eve") (bytes "pw") serving
        else (serving, closed 5 ∷ []))
handle_credentials-send_credentials_example =
    handle_credentials-send_credentials none 5 (bytes "eve") (bytes "pw") [] 3 serving
      (record { round = refl; fits = tt }) (record { round = refl; fits = tt })

restart_is_dead_example :
    ((start (stop serving)).running ≡ true)
    × (run nobody completions (start (stop serving)) ≡ (start (stop serving), []))
restart_is_dead_example = restart_is_dead nobody completions serving refl

coalesced_is_lost_example :
    handle_read_message 9 5 ann (some (write_message hello ++ write_message hello)) serving
    ≡ handle_read_message 9 5 ann (some (write_message hello)) serving
coalesced_is_lost_example = coalesced_is_lost 9 5 ann hello hello serving hello-IsSendable refl

truncated_is_delivered_example :
    (n : Message) × ((read_message blank (open_read (7 ∷ cut_off))).0 ≡ returned n)
    × HasFailed (read_message blank (open_read (7 ∷ cut_off))).1
    × (handle_read_message 9 5 ann (some (7 ∷ cut_off)) serving ≡ (
      record serving {
        manager = (handle_message 9 5 n 1 two_clients).0;
        sessions = emplace ℕ_discrete 1 ann serving.sessions;
      },
      map wrote (handle_message 9 5 n 1 two_clients).1 ++ message_received n ∷ [],
    ))
truncated_is_delivered_example =
    truncated_is_delivered 9 5 ann hello serving (7 ∷ cut_off) missing hello-IsSendable refl refl
      hello-bytes (λ e. cc)
