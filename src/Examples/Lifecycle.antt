-- ===== src/Examples/Lifecycle.antt =====
-- The network client through a connection and the next: the theorems at one life.
use qt_messenger.Prelude.{◌≡◌, refl, inl, inr, true, some, List, [], ◌∷◌, ◌++◌, bytes}
use qt_messenger.Client.NetworkClient.{
  NetworkClient, Event, new_client, finished, unconnected, dispatch, connect_to_server,
  on_connected, on_disconnected, on_error,
}
use qt_messenger.Client.NetworkClient.Reassembly.{receive}
use qt_messenger.Client.NetworkClient.Lifecycle.{
  Lives, born, goes_on, connects, gets_connected, gets_disconnected, fails,
}
use qt_messenger.Client.NetworkClient.Lifecycle.Status.{follows, statuses, IsHonest, expects}
use qt_messenger.Client.NetworkClient.Lifecycle.Honest.{Lives-Honest}
use qt_messenger.Client.NetworkClient.Lifecycle.Stale.{reconnected, stale_bytes_signalled}
use qt_messenger.Examples.SampleQt.{sample_qt}
use qt_messenger.Examples.SampleSql.{sample_sql}
use qt_messenger.Examples.Messages.{hello, hello-IsSendable, hello-bytes, cut_off, missing}
use qt_messenger.Examples.Client.{online}

-- The first connection fails, the second succeeds and is ended by the server.
abbrev failed_once : NetworkClient
failed_once =
    (on_error (some unconnected)
      (connect_to_server (bytes "h") 1 (bytes "u") (bytes "p") new_client).0).0

abbrev up : NetworkClient
up = (on_connected (connect_to_server (bytes "h") 1 (bytes "u") (bytes "p") failed_once).0).0

abbrev life : List Event
life =
    (((([] ++ (connect_to_server (bytes "h") 1 (bytes "u") (bytes "p") new_client).1)
          ++ (on_error (some unconnected)
              (connect_to_server (bytes "h") 1 (bytes "u") (bytes "p") new_client).0).1)
        ++ (connect_to_server (bytes "h") 1 (bytes "u") (bytes "p") failed_once).1)
      ++ (on_connected (connect_to_server (bytes "h") 1 (bytes "u") (bytes "p") failed_once).0).1)
    ++ (on_disconnected up).1

life-Lives : Lives (on_disconnected up).0 life
unfolding new_client connect_to_server on_connected on_disconnected on_error
life-Lives =
    goes_on
      (goes_on
        (goes_on
          (goes_on (goes_on born (connects (bytes "h") 1 (bytes "u") (bytes "p") (inl refl) refl))
            (fails refl refl))
          (connects (bytes "h") 1 (bytes "u") (bytes "p") (inr refl) refl))
        (gets_connected refl refl))
      (gets_disconnected (inl refl) refl)

Lives-Honest_example :
    IsHonest (on_disconnected up).0
    × (follows true (statuses life) ≡ some (expects (on_disconnected up).0))
Lives-Honest_example = Lives-Honest life-Lives

abbrev cut_short : NetworkClient
cut_short = record online { received_buffer = 7 ∷ cut_off }

stale_bytes_signalled_example :
    receive (missing ∷ []) (reconnected (bytes "h") 1 (bytes "u") (bytes "p") cut_short) ≡ (
      record (reconnected (bytes "h") 1 (bytes "u") (bytes "p") cut_short) { received_buffer = [] },
      dispatch (reconnected (bytes "h") 1 (bytes "u") (bytes "p") cut_short) hello ++ [],
      finished,
    )
stale_bytes_signalled_example =
    stale_bytes_signalled (bytes "h") 1 (bytes "u") (bytes "p") cut_short hello (7 ∷ cut_off)
      missing hello-IsSendable hello-bytes (λ e. cc) refl
