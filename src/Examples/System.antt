-- ===== src/Examples/System.antt =====
-- The window, the server and another window together: the theorems at concrete clicks.
use qt_messenger.Prelude.{
  ℕ, ◌≡◌, refl, true, false, some, none, is_nil, is_some, List, [], ◌∷◌, ◌++◌, Bytes, bytes, last,
  arith, ℕ_discrete,
}
use qt_messenger.UnorderedMap.{find}
use qt_messenger.Session.Boost.{wrapped_session}
use qt_messenger.ClientManager.{add, broadcast, max_history_size, new_manager, run}
use qt_messenger.ClientManager.History.{broadcasts}
use qt_messenger.ClientManager.Delivery.{received}
use qt_messenger.ClientManager.Joining.{all_addressed}
use qt_messenger.Server.{handle_read_message}
use qt_messenger.Server.Relay.{writes}
use qt_messenger.Client.NetworkClient.{wrote, is_connected}
use qt_messenger.Client.NetworkClient.Reassembly.{receive}
use qt_messenger.Client.ChatWindow.{ChatWindow, new_window, get_input_text, handle_events, or_new}
use qt_messenger.Client.ChatWindow.Shown.{shown}
use qt_messenger.Client.ChatWindow.Wiring.{
  Answer, network, emit_signal, send_clicked, users_clicked,
}
use qt_messenger.Client.ChatWindow.Clicks.{Online, request_frame, emit_signal-users_clicked}
use qt_messenger.System.{sent}
use qt_messenger.System.Chat.{typed, typed_is_displayed}
use qt_messenger.System.Newcomer.{newcomer_sees_history}
use qt_messenger.System.Listing.{listing}
use qt_messenger.System.UserList.{users_button_shows_names}
use qt_messenger.Examples.SampleQt.{sample_qt}
use qt_messenger.Examples.SampleSql.{sample_text}
use qt_messenger.Examples.Messages.{hello, hello-IsSendable}
use qt_messenger.Examples.Chat.{ann, bob, Calls, bob_absent}
use qt_messenger.Examples.Serving.{serving, serving-IsSound, ann-IsReady}
use qt_messenger.Examples.Client.{online}
use qt_messenger.Examples.Accounts.{window, hello-IsShowable}

-- Ann's window: connected, with a text in its input field.
abbrev typing : ChatWindow
typing = record window {
  controller = record { network_client = online; username = bytes "ann" };
  input_field = bytes "hi";
}

abbrev answers : ℕ → Answer
answers k = record { id = 7; now = k; confirmed = true; at_once = true; emoji = none; cursor = 0 }

typing-Online : Online typing
unfolding is_connected
typing-Online = refl

typing_text : is_nil (get_input_text typing) ≡ false
unfolding get_input_text
typing_text = refl

bob_there : is_some (find ℕ_discrete 2 serving.manager.clients) ≡ true
unfolding find ℕ_discrete
bob_there = refl

abbrev to_bob : List Bytes
to_bob = received 2 (
    writes
      (handle_read_message 9 5 ann (some (sent (emit_signal answers send_clicked typing).1))
        serving).1)

typed_is_displayed_example :
    handle_events 6 (receive to_bob online).1 window
    ≡ some (shown window (typed (answers 0) typing ∷ []))
unfolding get_input_text
typed_is_displayed_example =
    typed_is_displayed answers typing 9 5 ann serving 2 6 to_bob online window typing-Online
      typing_text (record { round = refl; fits = tt }) (record { round = refl; fits = tt }) refl
      ann-IsReady serving-IsSound bob_there refl refl refl

abbrev before : Calls
before = add 1 ann ∷ broadcast hello ∷ []

abbrev after : Calls
after = broadcast hello ∷ []

abbrev to_newcomer : List Bytes
to_newcomer = received 2 (run (add 2 bob ∷ after) (run before new_manager).0).1

two_heard :
    last max_history_size (broadcasts [] before) ++ all_addressed 2 after ≡ hello ∷ hello ∷ []
two_heard = refl

newcomer_sees_history_example :
    handle_events 6 (receive to_newcomer online).1 window
    ≡ some (shown window (last max_history_size (broadcasts [] before) ++ all_addressed 2 after))
newcomer_sees_history_example =
    newcomer_sees_history 2 bob before after 6 to_newcomer online window refl refl (refl, (tt, tt))
      (tt, tt) (tt, tt) bob_absent (hello-IsSendable, (hello-IsSendable, tt))
      (hello-IsShowable, (hello-IsShowable, tt)) refl refl refl

abbrev looking : ChatWindow
looking = record typing { user_list_window = none }

ann_there : find ℕ_discrete 1 serving.manager.clients ≡ some ann
unfolding find ℕ_discrete
ann_there = refl

abbrev to_ann : List Bytes
to_ann = received 1 (
    writes
      (handle_read_message 9 5 ann (some (sent (emit_signal answers users_clicked looking).1))
        serving).1)

users_button_shows_names_example :
    handle_events 6 (receive to_ann online).1 (emit_signal answers users_clicked looking).0
    ≡ some (record looking { user_list_window = some (listing (bytes "bob" ∷ bytes "ann" ∷ [])) })
users_button_shows_names_example =
    users_button_shows_names answers looking 9 5 ann ann serving 6 to_ann online typing-Online
      (record { round = refl; fits = tt }) (record { round = refl; fits = tt })
      (record { round = refl; fits = tt }) (record { round = refl; fits = tt })
      (record { round = refl; fits = tt }, (record { round = refl; fits = tt }, tt)) (omega arith)
      refl ann-IsReady serving-IsSound ann_there refl refl refl

emit_signal-users_clicked_example : emit_signal answers users_clicked typing ≡ (
  record typing { user_list_window = or_new none },
  network (wrote (request_frame (answers 0) typing))
      ∷ network (wrote (request_frame (answers 1) typing))
      ∷ [],
)
unfolding new_window
emit_signal-users_clicked_example = emit_signal-users_clicked answers typing typing-Online
