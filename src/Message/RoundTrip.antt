-- ===== src/Message/RoundTrip.antt =====
-- Messages on the wire: what message.cpp writes is read back, whole messages cannot be confused, and
-- what cannot be read.
use qt_messenger.Prelude.{
  ◌≡◌, ◌≢◌, refl, sym, ap, ◌∙◌, [], ◌++◌, Bytes, pos, negsuc, ◌<◌, ◌^◌, ℕ, arith,
}
use qt_messenger.Qt.{Qt, Stream, open_read, HasFailed}
use qt_messenger.Reader.{Outcome, returned, threw, ◌>>=◌, extract}
use qt_messenger.Reader.Laws.{Stopped, stopped}
use qt_messenger.Message.{
  Message, user_list, blank, type_value, write_text, write_message, read_message, read_username,
  read_body, read_timestamp, read_kind, read_list, read_users, read_sized, type_of_int,
}
use qt_messenger.Message.Wire.{IsSendable, read_message-Reads}
use qt_messenger.Message.Texts.{IsText, write_text-Reads}

module _ ⦃qt : Qt⦄ where
  open qt use {Uuid, DateTime, uuid_codec, date_time_codec, int_codec, uuid_eq, date_time_eq}

  -- A message that fits the format is read back as it was, whatever follows it, and the stream
  -- stands behind it.
  pub read_message-write_message :
      (m : Message) (tail : Bytes)
      → IsSendable m
      → read_message blank (open_read (write_message m ++ tail)) ≡ (returned m, open_read tail)
  read_message-write_message m tail h = (read_message-Reads m h blank refl).whole tail

  Stopped-returned :
      {x : Outcome Message × Stream}
      → Stopped x
      → (n : Message) × (x.0 ≡ returned n) × HasFailed x.1
  Stopped-returned (stopped n s h) = (n, refl, h)

  -- Of a message that fits the format and whose last bytes are missing, reading returns some
  -- message, with the stream's status set; it does not throw.
  pub read_message_truncated :
      (m : Message) (p q : Bytes)
      → IsSendable m
      → write_message m ≡ p ++ q
      → q ≢ []
      → (n : Message) × ((read_message blank (open_read p)).0 ≡ returned n)
        × HasFailed (read_message blank (open_read p)).1
  read_message_truncated m p q h e n =
      Stopped-returned ((read_message-Reads m h blank refl).cut p q e n)

  -- Two sequences of bytes that begin with messages that fit the format agree only if the messages
  -- and what follows them do: the encoding needs no separator.
  pub write_message-injective :
      (m n : Message) (s t : Bytes)
      → IsSendable m
      → IsSendable n
      → write_message m ++ s ≡ write_message n ++ t
      → (m ≡ n) × (s ≡ t)
  write_message-injective m n s t hm hn e =
      let same : ◌≡◌ {A = Outcome Message × Stream} (returned m, open_read s)
          (returned n, open_read t) =
        sym (read_message-write_message m s hm)
        ∙ ap (λ b. read_message blank (open_read b)) e
        ∙ read_message-write_message n t hn in
      (ground (arith, same), ground (arith, same))

  -- A message whose name and text fit the format, that says `UserList` and gives a negative number
  -- of users in the range of `int`, makes `operator>>` throw.
  pub read_message_negative :
      (id : Uuid) (username text : Bytes) (now : DateTime) (n : ℕ) (tail : Bytes)
      → IsText username
      → IsText text
      → n < 2 ^ 31
      → (read_message blank (
          open_read (
            uuid_codec.write id
            ++ (write_text username
                ++ (write_text text
                    ++ (date_time_codec.write now
                        ++ (int_codec.write (type_value user_list)
                            ++ (int_codec.write (negsuc n) ++ tail)))))))).0
        ≡ threw
  unfolding read_message read_username read_body read_timestamp read_kind read_list read_users
      read_sized ◌>>=◌ extract type_of_int type_value
  read_message_negative id username text now n tail hu ht small = simp (
    uuid_codec.read-write id _ tt,
    (write_text-Reads username hu).whole,
    (write_text-Reads text ht).whole,
    date_time_codec.read-write now _ tt,
    int_codec.read-write (pos 1) _ (omega arith),
    int_codec.read-write (negsuc n) _ small,
  )
