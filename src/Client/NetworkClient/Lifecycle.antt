-- ===== src/Client/NetworkClient/Lifecycle.antt =====
-- network_client.cpp from one connection to the next: the calls of its user and the notifications of
-- `QTcpSocket`, in the orders that the socket's documented states allow.
pub mod Status
pub mod Honest
pub mod Stale
use qt_messenger.Prelude.{ℕ, ◌≡◌, ◌⊎◌, Bool, none, some, List, [], ◌++◌, Bytes}
use qt_messenger.Qt.{Qt}
use qt_messenger.Client.NetworkClient.{
  unconnected, connecting, connected, closing, NetworkClient, Event, finished, new_client,
  connect_to_server, on_connected, on_disconnected, on_error, disconnect, on_ready_read,
}

module _ ⦃qt : Qt⦄ where
  -- One call or notification, what it does, and the client behind it.
  pub data Step (c : NetworkClient) (es : List Event) (d : NetworkClient) : Type 0 where
    -- `connectToServer`, while there is no connection
    connects :
        (host : Bytes) (port : ℕ) (username password : Bytes)
        → (c.socket ≡ none) ⊎ (c.socket ≡ some unconnected)
        → (d, es) ≡ connect_to_server host port username password c
        → Step c es d
    -- `connected`, of a socket that is connecting
    gets_connected : c.socket ≡ some connecting → (d, es) ≡ on_connected c → Step c es d
    -- `disconnected`, of a socket that is connected or closing
    gets_disconnected :
        (c.socket ≡ some connected) ⊎ (c.socket ≡ some closing)
        → (d, es) ≡ on_disconnected c
        → Step c es d
    -- `errorOccurred`, of a socket that cannot connect
    fails : c.socket ≡ some connecting → (d, es) ≡ on_error (some unconnected) c → Step c es d
    -- `errorOccurred`, which leaves the state to a later notification
    errs : (d, es) ≡ on_error c.socket c → Step c es d
    -- `readyRead`, of a socket that is connected or closing, where the loop ends by itself
    reads :
        (b : Bytes)
        → (c.socket ≡ some connected) ⊎ (c.socket ≡ some closing)
        → (d, es, finished) ≡ on_ready_read b c
        → Step c es d
    -- `disconnect`
    leaves : (at_once : Bool) → (d, es) ≡ disconnect at_once c → Step c es d

  -- A client and all that it did since it was made.
  pub data Lives : NetworkClient → List Event → Type 0 where
    born : Lives new_client []
    goes_on :
        {c d : NetworkClient} {es fs : List Event} → Lives c es → Step c fs d → Lives d (es ++ fs)
