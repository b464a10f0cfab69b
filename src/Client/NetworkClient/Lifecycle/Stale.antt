-- ===== src/Client/NetworkClient/Lifecycle/Stale.antt =====
-- The receive buffer of network_client.cpp outlives a connection that the other side ended.
use qt_messenger.Prelude.{ℕ, ◌≡◌, ◌≢◌, refl, sym, ap, ◌∙◌, [], ◌∷◌, ◌++◌, append-nil, Bytes}
use qt_messenger.Qt.{Qt}
use qt_messenger.Message.{Message, write_message}
use qt_messenger.Message.Wire.{IsSendable}
use qt_messenger.Client.NetworkClient.{
  NetworkClient, finished, dispatch, connect_to_server, on_connected, on_disconnected,
}
use qt_messenger.Client.NetworkClient.Reassembly.{receive, receive_buffered}

module _ ⦃qt : Qt⦄ where
  -- The client after the server dropped it and it connected again.
  abbrev pub reconnected : Bytes → ℕ → Bytes → Bytes → NetworkClient → NetworkClient
  reconnected host port username password c =
      (on_connected (connect_to_server host port username password (on_disconnected c).0).0).0

  reconnected-received_buffer :
      (host : Bytes) (port : ℕ) (username password : Bytes) (c : NetworkClient)
      → (reconnected host port username password c).received_buffer ≡ c.received_buffer
  unfolding on_connected connect_to_server on_disconnected
  reconnected-received_buffer host port username password c = refl

  -- If a connection ends inside a message that fits the format, and the first bytes of the next
  -- connection complete it, the client signals that message, which no connection carried.
  pub stale_bytes_signalled :
      (host : Bytes) (port : ℕ) (username password : Bytes) (c : NetworkClient) (m : Message)
      (p q : Bytes)
      → IsSendable m
      → write_message m ≡ p ++ q
      → q ≢ []
      → c.received_buffer ≡ p
      → let d = reconnected host port username password c in
        receive (q ∷ []) d ≡ (record d { received_buffer = [] }, dispatch d m ++ [], finished)
  stale_bytes_signalled host port username password c m p q sendable cut more buffered =
      let d = reconnected host port username password c in
      receive_buffered (q ∷ []) d (m ∷ []) (sendable, tt)
        (ap (λ b. b ++ (q ++ []))
            (reconnected-received_buffer host port username password c ∙ buffered)
          ∙ ap (λ b. p ++ b) (append-nil q)
          ∙ sym cut
          ∙ sym (append-nil (write_message m)))
        (λ nothing. absurd (more (sym (append-nil q) ∙ nothing)))
