-- ===== src/Client/Application/Credentials.antt =====
-- What a network client (network_client.cpp) logs in with: no notification of its socket changes it.
use qt_messenger.Prelude.{
  suc, ◌≡◌, refl, Bool, true, false, Option, none, some, List, ◌++◌, length, Bytes, if_intro,
}
use qt_messenger.Qt.{Qt, open_read}
use qt_messenger.Client.NetworkClient.{
  NetworkClient, Event, Ending, finished, raised, out_of_fuel, Pass, is_connected, on_connected,
  on_disconnected, on_error, on_ready_read, process_buffer, process_loop, remove_processed,
  close_socket, leave_host, disconnect,
}
use qt_messenger.Client.Windows.{
  Notice, got_connected, got_disconnected, got_error, got_bytes, unless_raised, notify,
}

-- If there is a value, it has the property.
abbrev pub Whenever {ℓ κ} : {A : Type ℓ} → (A → Type κ) → Option A → Type κ
Whenever P none = Unit {κ}
Whenever P (some x) = P x

module _ ⦃qt : Qt⦄ where
  -- What a client logs in with.
  abbrev pub credentials : NetworkClient → Bytes × Bytes
  credentials c = (c.username, c.password)

  close_socket-credentials :
      (at_once : Bool) (c : NetworkClient) → credentials (close_socket at_once c).0 ≡ credentials c
  unfolding close_socket on_disconnected
  close_socket-credentials true c = refl
  close_socket-credentials false c = refl

  leave_host-credentials :
      (at_once : Bool) (c : NetworkClient) → credentials (leave_host at_once c).0 ≡ credentials c
  unfolding leave_host
  leave_host-credentials at_once c =
      if_intro (λ (r : NetworkClient × List Event). credentials r.0 ≡ credentials c)
        (is_connected c.socket) (λ _. close_socket-credentials at_once c) (λ _. refl)

  pub disconnect-credentials :
      (at_once : Bool) (c : NetworkClient) → credentials (disconnect at_once c).0 ≡ credentials c
  unfolding disconnect
  disconnect-credentials at_once c = leave_host-credentials at_once c

  remove_processed-credentials :
      (c : NetworkClient) (p : Pass) → credentials (remove_processed c p).0 ≡ credentials c
  unfolding remove_processed
  remove_processed-credentials c p =
      elim p.ending
        as (λ e. credentials (remove_processed c (record p { ending = e })).0 ≡ credentials c) [
          | finished ↦ refl
          | raised ↦ refl
          | out_of_fuel ↦ refl
        ]

  on_ready_read-credentials :
      (b : Bytes) (c : NetworkClient) → credentials (on_ready_read b c).0 ≡ credentials c
  unfolding on_ready_read process_buffer
  on_ready_read-credentials b c =
      let c' : NetworkClient = record c { received_buffer = c.received_buffer ++ b } in
      remove_processed-credentials c'
        (process_loop (suc (length c'.received_buffer)) c' (open_read c'.received_buffer))

  unless_raised-Whenever :
      (P : NetworkClient → Type 0) (r : NetworkClient × List Event × Ending)
      → P r.0
      → Whenever (λ (x : NetworkClient × List Event). P x.0) (unless_raised r)
  unfolding unless_raised
  unless_raised-Whenever P (c, es, finished) h = h
  unless_raised-Whenever P (c, es, raised) h = tt
  unless_raised-Whenever P (c, es, out_of_fuel) h = h

  pub notify-credentials :
      (n : Notice) (c : NetworkClient)
      → Whenever (λ (x : NetworkClient × List Event). credentials x.0 ≡ credentials c) (notify n c)
  unfolding notify on_connected on_disconnected on_error
  notify-credentials got_connected c = refl
  notify-credentials got_disconnected c = refl
  notify-credentials (got_error state) c = refl
  notify-credentials (got_bytes b) c =
      unless_raised-Whenever (λ d. credentials d ≡ credentials c) (on_ready_read b c)
        (on_ready_read-credentials b c)
