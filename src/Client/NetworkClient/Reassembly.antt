-- ===== src/Client/NetworkClient/Reassembly.antt =====
-- `processBuffer` and `onReadyRead` of network_client.cpp put the server's messages together again,
-- however the network cut the bytes.
use qt_messenger.Prelude.{
  suc, ◌-◌, ◌≡◌, refl, sym, subst, All-right, ap, ◌∙◌, true, List, [], ◌∷◌, ◌++◌, All, length, drop,
  length-append, drop-append, flatten, append_assoc, append-nil, Bytes, ltb, if◌then◌else◌, arith,
}
use qt_messenger.Qt.{Qt, open_read}
use qt_messenger.Message.{Message}
use qt_messenger.Message.Wire.{IsSendable}
use qt_messenger.Client.NetworkClient.{
  NetworkClient, Event, Ending, finished, Pass, dispatch, process_loop, remove_processed,
  on_ready_read,
}
use qt_messenger.Client.NetworkClient.Loop.{encode, dispatch_all, encode-eq-nil}
use qt_messenger.Client.NetworkClient.Cut.{Cut, process_loop-Cut}

module _ ⦃qt : Qt⦄ where
  -- The bytes behind a prefix, as `remove(0, processedBytes)` computes them.
  remove_prefix :
      (p q : Bytes)
      → (let processed = length (p ++ q) - length q in
          if ltb 0 processed then drop processed (p ++ q) else p ++ q)
        ≡ q
  remove_prefix p q =
      let processed : length (p ++ q) - length q ≡ length p = omega (arith, length-append p q) in
      rw processed (rest p)
    where
      rest : (r : Bytes) → (if ltb 0 (length r) then drop (length r) (r ++ q) else r ++ q) ≡ q
      rest [] = refl
      rest (x ∷ r) = let e : ltb 0 (suc (length r)) ≡ true = ground arith in rw e (drop-append r q)

  remove_processed-finished :
      (c : NetworkClient) (front rest : Bytes) (es : List Event)
      → remove_processed
          (record c { received_buffer = front ++ rest })
          (record { events = es; rest = rest; ending = finished })
        ≡ (record c { received_buffer = rest }, es, finished)
  unfolding remove_processed
  remove_processed-finished c front rest es =
      λ i. (record c { received_buffer = remove_prefix front rest i }, es, finished)

  Cut-result :
      (c : NetworkClient) (ms : List Message) (d rest : Bytes) (p : Pass)
      (k : Cut (record c { received_buffer = d }) ms d rest p)
      → remove_processed (record c { received_buffer = d }) p
        ≡ (record c { received_buffer = p.rest }, dispatch_all c k.done, finished)
  unfolding remove_processed dispatch
  Cut-result c ms d rest p k =
      (λ i.
        remove_processed (record c { received_buffer = k.kept i })
          (record { events = k.events i; rest = p.rest; ending = k.ending i }))
      ∙ remove_processed-finished c (encode k.done) p.rest _

  -- What `onReadyRead` does with the next part of the stream.
  record Step (c : NetworkClient) (ms : List Message) (received rest : Bytes) : Type 0 where
    done : List Message
    left : List Message
    buffer : Bytes
    split : ms ≡ done ++ left
    result :
        on_ready_read received c
        ≡ (record c { received_buffer = buffer }, dispatch_all c done, finished)
    expected : buffer ++ rest ≡ encode left
    all_done : rest ≡ [] → left ≡ []

  on_ready_read-Step :
      (c : NetworkClient) (ms : List Message) (received rest : Bytes)
      → All IsSendable ms
      → (c.received_buffer ++ received) ++ rest ≡ encode ms
      → Step c ms received rest
  unfolding on_ready_read
  on_ready_read-Step c ms received rest h e =
      let d : Bytes = c.received_buffer ++ received in
      let c' : NetworkClient = record c { received_buffer = d } in
      let k : Cut c' ms d rest (process_loop (suc (length d)) c' (open_read d)) =
        process_loop-Cut (suc (length d)) c' ms d rest (omega arith) h e in
      record {
        done = k.done;
        left = k.left;
        buffer = (process_loop (suc (length d)) c' (open_read d)).rest;
        split = k.split;
        result = Cut-result c ms d rest _ k;
        expected = k.expected;
        all_done = k.all_done;
      }

  -- The parts of the stream, one `onReadyRead` for each, while none of them throws.
  abbrev pub and_then :
      NetworkClient × List Event × Ending
      → (NetworkClient → NetworkClient × List Event × Ending)
      → NetworkClient × List Event × Ending
  and_then (c, es, finished) next = let (c', fs, ending) = next c in (c', es ++ fs, ending)
  and_then (c, es, other) next = (c, es, other)

  unfoldable pub receive : List Bytes → NetworkClient → NetworkClient × List Event × Ending
  receive [] c = (c, [], finished)
  receive (b ∷ bs) c = and_then (on_ready_read b c) (receive bs)

  pub dispatch_all-append :
      (c : NetworkClient) (ms ns : List Message)
      → dispatch_all c (ms ++ ns) ≡ dispatch_all c ms ++ dispatch_all c ns
  dispatch_all-append c [] ns = refl
  dispatch_all-append c (m ∷ ms) ns =
      ap (λ es. dispatch c m ++ es) (dispatch_all-append c ms ns)
      ∙ sym (append_assoc (dispatch c m) (dispatch_all c ms) (dispatch_all c ns))

  receive_nothing :
      (c : NetworkClient) (ms : List Message)
      → c.received_buffer ≡ encode ms
      → ms ≡ []
      → receive [] c ≡ (record c { received_buffer = [] }, dispatch_all c ms, finished)
  unfolding receive
  receive_nothing c ms e n =
      λ i. (record c { received_buffer = (e ∙ ap encode n) i }, dispatch_all c (sym n i), finished)

  pub receive_buffered :
      (bs : List Bytes) (c : NetworkClient) (ms : List Message)
      → All IsSendable ms
      → c.received_buffer ++ flatten bs ≡ encode ms
      → (flatten bs ≡ [] → ms ≡ [])
      → receive bs c ≡ (record c { received_buffer = [] }, dispatch_all c ms, finished)
  unfolding receive dispatch
  receive_buffered [] c ms h e last =
      receive_nothing c ms (sym (append-nil c.received_buffer) ∙ e) (last refl)
  receive_buffered (b ∷ bs) c ms h e last =
      let k : Step c ms b (flatten bs) =
        on_ready_read-Step c ms b (flatten bs) h
          (append_assoc c.received_buffer b (flatten bs) ∙ e) in
      let c' : NetworkClient = record c { received_buffer = k.buffer } in
      let ih : receive bs c'
          ≡ (record c { received_buffer = [] }, dispatch_all c k.left, finished) =
        receive_buffered bs c' k.left
          (All-right IsSendable k.done k.left (subst (All IsSendable) k.split h)) k.expected
          k.all_done in
      ap (λ r. and_then r (receive bs)) k.result
      ∙ ap (λ r. (r.0, dispatch_all c k.done ++ r.1, r.2)) ih
      ∙ ap (λ es. (record c { received_buffer = [] }, es, finished))
          (sym (dispatch_all-append c k.done k.left) ∙ ap (dispatch_all c) (sym k.split))

  -- However the bytes of a sequence of messages that fit the format are cut into reads, the client
  -- that starts with an empty buffer signals exactly these messages, each once and in order, raises
  -- nothing, and ends in the state it started in, with an empty buffer.
  pub receive-encode :
      (bs : List Bytes) (c : NetworkClient) (ms : List Message)
      → All IsSendable ms
      → c.received_buffer ≡ []
      → flatten bs ≡ encode ms
      → receive bs c ≡ (c, dispatch_all c ms, finished)
  receive-encode bs c ms h empty e =
      receive_buffered bs c ms h (ap (λ b. b ++ flatten bs) empty ∙ e)
        (λ n. encode-eq-nil ms h (sym e ∙ n))
      ∙ λ i. (record c { received_buffer = sym empty i }, dispatch_all c ms, finished)
