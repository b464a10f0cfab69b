-- ===== src/Client/NetworkClient/Cut.antt =====
-- The loop of `processBuffer` in network_client.cpp on the part of the stream that has arrived.
use qt_messenger.Prelude.{
  ℕ, zero, suc, ◌<◌, ◌≡◌, ◌≢◌, refl, sym, ap, ◌∙◌, inl, inr, List, [], ◌∷◌, ◌++◌, All, length,
  length-append, append-cases, left_nil, append_assoc, Bytes, arith,
}
use qt_messenger.Qt.{Qt, Stream, open_read}
use qt_messenger.Reader.{Outcome}
use qt_messenger.Reader.Laws.{Stopped, stopped}
use qt_messenger.Message.{Message, blank, write_message, read_message}
use qt_messenger.Message.Wire.{IsSendable, read_message-Reads}
use qt_messenger.Client.NetworkClient.{
  NetworkClient, finished, Pass, stop_at, after_message, dispatch, after_read, process_loop,
}
use qt_messenger.Client.NetworkClient.Loop.{
  encode, dispatch_all, HasFailed→is_ok, write_message-whole, length-write_message_pos,
  encode-eq-nil,
}

module _ ⦃qt : Qt⦄ where
  -- A cut of the stream `d ++ rest` of the messages `ms`: what the loop does with `d`.
  pub record Cut (c : NetworkClient) (ms : List Message) (d rest : Bytes) (p : Pass) : Type 0 where
    pub done : List Message
    pub left : List Message
    pub split : ms ≡ done ++ left
    pub events : p.events ≡ dispatch_all c done
    pub ending : p.ending ≡ finished
    pub kept : d ≡ encode done ++ p.rest
    pub expected : p.rest ++ rest ≡ encode left
    pub all_done : rest ≡ [] → left ≡ []

  Cut-empty :
      (c : NetworkClient) (ms : List Message) (rest : Bytes)
      → All IsSendable ms
      → rest ≡ encode ms
      → Cut c ms [] rest (stop_at finished (open_read []))
  Cut-empty c ms rest h e = record {
    done = [];
    left = ms;
    split = refl;
    events = refl;
    ending = refl;
    kept = refl;
    expected = e;
    all_done = λ r. encode-eq-nil ms h (sym e ∙ r);
  }

  Cut-Stopped :
      (c : NetworkClient) (m : Message) (ms : List Message) (d rest t : Bytes)
      (loop : Stream → Pass) (x : Outcome Message × Stream)
      → Stopped x
      → write_message m ≡ d ++ t
      → rest ≡ t ++ encode ms
      → t ≢ []
      → Cut c (m ∷ ms) d rest (after_read c (open_read d) loop x)
  unfolding after_read
  Cut-Stopped c m ms d rest t loop x (stopped n s h) ed er nt =
      rw (HasFailed→is_ok s.status h) (record {
        done = [];
        left = m ∷ ms;
        split = refl;
        events = refl;
        ending = refl;
        kept = refl;
        expected = rw (er, ed) (sym (append_assoc d t (encode ms)));
        all_done = λ r. absurd (nt (left_nil t (encode ms) (sym er ∙ r)));
      })

  Cut-more :
      (c : NetworkClient) (m : Message) (ms : List Message) (t rest : Bytes) (p : Pass)
      → Cut c ms t rest p
      → Cut c (m ∷ ms) (write_message m ++ t) rest (after_message (dispatch c m) p)
  Cut-more c m ms t rest p k = record {
    done = m ∷ k.done;
    left = k.left;
    split = ap (λ l. m ∷ l) k.split;
    events = ap (λ es. dispatch c m ++ es) k.events;
    ending = k.ending;
    kept = ap (λ b. write_message m ++ b) k.kept ∙ sym (append_assoc (write_message m) _ _);
    expected = k.expected;
    all_done = k.all_done;
  }

  Cut-read :
      (c : NetworkClient) (m : Message) (ms : List Message) (d t rest : Bytes)
      (loop : Stream → Pass)
      → IsSendable m
      → d ≡ write_message m ++ t
      → Cut c ms t rest (loop (open_read t))
      → Cut c (m ∷ ms) d rest (after_read c (open_read d) loop (read_message blank (open_read d)))
  unfolding after_read
  Cut-read c m ms d t rest loop h ed k =
      rw (ed, write_message-whole m h t) (Cut-more c m ms t rest (loop (open_read t)) k)

  pub process_loop-Cut :
      (fuel : ℕ) (c : NetworkClient) (ms : List Message) (d rest : Bytes)
      → length d < fuel
      → All IsSendable ms
      → d ++ rest ≡ encode ms
      → Cut c ms d rest (process_loop fuel c (open_read d))
  unfolding process_loop
  process_loop-Cut zero c ms d rest n h e = absurd (omega arith)
  process_loop-Cut (suc fuel) c ms [] rest n h e = Cut-empty c ms rest h e
  process_loop-Cut (suc fuel) c [] (x ∷ d) rest n h e = cc
  process_loop-Cut (suc fuel) c (m ∷ ms) (x ∷ d) rest n h e =
      elim (append-cases (write_message m) (encode ms) (x ∷ d) rest (sym e)) [
        | inl (t, ed, er, nt) ↦
            Cut-Stopped c m ms (x ∷ d) rest t (process_loop fuel c) _
              ((read_message-Reads m h.0 blank refl).cut (x ∷ d) t ed nt) ed er nt
        | inr (t, ed, em) ↦ Cut-read c m ms (x ∷ d) t rest (process_loop fuel c) h.0 ed (
            process_loop-Cut fuel c ms t rest
              (omega (
                arith,
                ap length ed,
                length-append (write_message m) t,
                length-write_message_pos m h.0,
              ))
              h.1 (sym em))
      ]
