-- ===== src/Client/NetworkClient/Loop.antt =====
-- The loop of `processBuffer` in network_client.cpp ends, and what whole messages are to it.
use qt_messenger.Prelude.{
  ℕ, zero, suc, ◌<◌, ◌≡◌, ◌≢◌, refl, ap, true, false, List, [], ◌∷◌, ◌++◌, All, length,
  length-append, append-nil, Bytes, is_nil, if_intro, arith,
}
use qt_messenger.Qt.{Qt, Status, Stream, open_read}
use qt_messenger.Reader.{Outcome, returned, threw}
use qt_messenger.Message.{Message, blank, write_message, read_message}
use qt_messenger.Message.Wire.{IsSendable, read_message-Reads, read_message-Consumes}
use qt_messenger.Client.NetworkClient.{
  NetworkClient, Event, out_of_fuel, Pass, dispatch, after_read, process_loop, remove_processed,
  process_buffer, is_ok,
}

module _ ⦃qt : Qt⦄ where
  -- The bytes of a sequence of messages.
  abbrev pub encode : List Message → Bytes
  encode [] = []
  encode (m ∷ ms) = write_message m ++ encode ms

  abbrev pub dispatch_all : NetworkClient → List Message → List Event
  dispatch_all c [] = []
  dispatch_all c (m ∷ ms) = dispatch c m ++ dispatch_all c ms

  abbrev EndsItself : Pass → Type 0
  EndsItself p = p.ending ≢ out_of_fuel

  pub is_ok→ok : (s : Status) → is_ok s ≡ true → s ≡ Status.ok
  is_ok→ok Status.ok h = refl
  is_ok→ok Status.read_past_end h = cc
  is_ok→ok Status.read_corrupt_data h = cc

  pub HasFailed→is_ok : (s : Status) → s ≢ Status.ok → is_ok s ≡ false
  HasFailed→is_ok Status.ok h = absurd (h refl)
  HasFailed→is_ok Status.read_past_end h = refl
  HasFailed→is_ok Status.read_corrupt_data h = refl

  after_read-EndsItself :
      (c : NetworkClient) (s : Stream) (loop : Stream → Pass) (x : Outcome Message × Stream)
      → (x.1.status ≡ Status.ok → EndsItself (loop x.1))
      → EndsItself (after_read c s loop x)
  unfolding after_read
  after_read-EndsItself c s loop (threw, t) h = λ e. cc
  after_read-EndsItself c s loop (returned m, t) h =
      if_intro EndsItself (is_ok t.status) (λ good. h (is_ok→ok t.status good)) (λ bad e. cc)

  process_loop-EndsItself :
      (fuel : ℕ) (c : NetworkClient) (s : Stream)
      → length s.rest < fuel
      → EndsItself (process_loop fuel c s)
  unfolding process_loop
  process_loop-EndsItself zero c s h = absurd (omega arith)
  process_loop-EndsItself (suc fuel) c s h =
      if_intro EndsItself (is_nil s.rest) (λ _ e. cc)
        (λ _. after_read-EndsItself c s (process_loop fuel c) (read_message blank s) (λ good.
          process_loop-EndsItself fuel c (read_message blank s).1
            (omega (arith, read_message-Consumes blank s good))))

  remove_processed-ending :
      (c : NetworkClient) (p : Pass)
      → (remove_processed c p).2 ≡ out_of_fuel
      → p.ending ≡ out_of_fuel
  unfolding remove_processed
  remove_processed-ending c p e = ground arith

  -- The loop of `processBuffer` ends by itself on every buffer: the fuel never runs out.
  pub process_buffer-ends : (c : NetworkClient) → (process_buffer c).2 ≢ out_of_fuel
  unfolding process_buffer
  process_buffer-ends c e =
      process_loop-EndsItself (suc (length c.received_buffer)) c (open_read c.received_buffer)
        (omega arith) (remove_processed-ending c _ e)

  module _ (m : Message) (sendable : IsSendable m) where
    pub write_message-whole :
        (tail : Bytes)
        → read_message blank (open_read (write_message m ++ tail)) ≡ (returned m, open_read tail)
    write_message-whole tail = (read_message-Reads m sendable blank refl).whole tail

    pub length-write_message_pos : 0 < length (write_message m)
    length-write_message_pos =
        let e = rw (append-nil (write_message m)) at (write_message-whole []) in
        let shorter =
          read_message-Consumes blank (open_read (write_message m))
            (ap (λ (x : Outcome Message × Stream). x.1.status) e) in
        omega (arith, shorter)

  pub encode-eq-nil : (ms : List Message) → All IsSendable ms → encode ms ≡ [] → ms ≡ []
  encode-eq-nil [] h e = refl
  encode-eq-nil (m ∷ ms) h e = absurd (
      omega (
        arith,
        length-write_message_pos m h.0,
        length-append (write_message m) (encode ms),
        ap (length {A = ℕ}) e,
      ))
