-- ===== src/Message/Wire.antt =====
-- The stream operators of message.cpp: `operator>>` reads back what `operator<<` wrote, stops on a
-- message that is cut short, and moves the stream on.
use qt_messenger.Prelude.{◌≡◌, []}
use qt_messenger.Qt.{Qt, IsInt}
use qt_messenger.Reader.Laws.{
  IsSticky, NeverGrows, Consumes, Reads, IsSticky-bind, NeverGrows-bind, Consumes-bind, Reads-bind,
  IsSticky-extract, NeverGrows-extract, Consumes-extract, Reads-extract, StopsWith-sticky,
}
use qt_messenger.Message.{
  Message, type_value, type_of_int, write_kind, write_timestamp, write_body, write_username,
  write_message, read_kind, read_timestamp, read_body, read_username, read_message,
}
use qt_messenger.Message.Texts.{
  IsText, CarriesUsers, read_text-IsSticky, read_list-IsSticky, read_text-NeverGrows,
  read_list-NeverGrows, write_text-Reads, write_list-Reads,
}

module _ ⦃qt : Qt⦄ where
  open qt use {
    Uuid, DateTime, QString, FitsString, from_std_string, to_std_string, uuid_codec,
    date_time_codec, qstring_codec, int_codec, failed_int,
  }

  -- A message that `operator<<` can carry.
  pub record IsSendable (m : Message) : Type 0 where
    pub username : IsText m.username
    pub text : IsText m.text
    pub in_range : IsInt (type_value m.kind)
    pub named : type_of_int (type_value m.kind) ≡ m.kind
    pub listed : CarriesUsers m.kind m.users

  read_kind-IsSticky : (m : Message) → IsSticky (read_kind m)
  unfolding read_kind
  read_kind-IsSticky m =
      IsSticky-bind _ _ (IsSticky-extract int_codec) (λ i. read_list-IsSticky _ _)

  read_timestamp-IsSticky : (m : Message) → IsSticky (read_timestamp m)
  unfolding read_timestamp
  read_timestamp-IsSticky m =
      IsSticky-bind _ _ (IsSticky-extract date_time_codec) (λ t. read_kind-IsSticky _)

  read_body-IsSticky : (m : Message) → IsSticky (read_body m)
  unfolding read_body
  read_body-IsSticky m = IsSticky-bind _ _ read_text-IsSticky (λ t. read_timestamp-IsSticky _)

  read_username-IsSticky : (m : Message) → IsSticky (read_username m)
  unfolding read_username
  read_username-IsSticky m = IsSticky-bind _ _ read_text-IsSticky (λ t. read_body-IsSticky _)

  read_kind-NeverGrows : (m : Message) → NeverGrows (read_kind m)
  unfolding read_kind
  read_kind-NeverGrows m =
      NeverGrows-bind _ _ (NeverGrows-extract int_codec) (λ i. read_list-NeverGrows _ _)

  read_timestamp-NeverGrows : (m : Message) → NeverGrows (read_timestamp m)
  unfolding read_timestamp
  read_timestamp-NeverGrows m =
      NeverGrows-bind _ _ (NeverGrows-extract date_time_codec) (λ t. read_kind-NeverGrows _)

  read_body-NeverGrows : (m : Message) → NeverGrows (read_body m)
  unfolding read_body
  read_body-NeverGrows m =
      NeverGrows-bind _ _ read_text-NeverGrows (λ t. read_timestamp-NeverGrows _)

  read_username-NeverGrows : (m : Message) → NeverGrows (read_username m)
  unfolding read_username
  read_username-NeverGrows m =
      NeverGrows-bind _ _ read_text-NeverGrows (λ t. read_body-NeverGrows _)

  -- A message that was read without an error took at least one byte.
  pub read_message-Consumes : (m : Message) → Consumes (read_message m)
  unfolding read_message
  read_message-Consumes m =
      Consumes-bind _ _ (Consumes-extract uuid_codec) (λ u. read_username-IsSticky _)
        (λ u. read_username-NeverGrows _)

  module _ (m : Message) (h : IsSendable m) where
    read_kind-Reads :
        (msg : Message)
        → msg.users ≡ []
        → Reads (read_kind msg) (record msg { kind = m.kind; users = m.users }) (write_kind m)
    unfolding read_kind write_kind
    read_kind-Reads msg e =
        Reads-bind _ _ (type_value m.kind) _ _ _ (Reads-extract int_codec _ h.in_range)
          (rw h.named (write_list-Reads m.kind _ m.users e h.listed))
          (StopsWith-sticky _ _ (λ i. read_list-IsSticky _ _))

    read_timestamp-Reads :
        (msg : Message)
        → msg.users ≡ []
        → Reads
            (read_timestamp msg)
            (record msg { timestamp = m.timestamp; kind = m.kind; users = m.users })
            (write_timestamp m)
    unfolding read_timestamp write_timestamp
    read_timestamp-Reads msg e =
        Reads-bind _ _ m.timestamp _ _ _ (Reads-extract date_time_codec _ tt) (read_kind-Reads _ e)
          (StopsWith-sticky _ _ (λ t. read_kind-IsSticky _))

    read_body-Reads :
        (msg : Message)
        → msg.users ≡ []
        → Reads
            (read_body msg)
            (record m { sender_id = msg.sender_id; username = msg.username })
            (write_body m)
    unfolding read_body write_body
    read_body-Reads msg e =
        Reads-bind _ _ m.text _ _ _ (write_text-Reads _ h.text) (read_timestamp-Reads _ e)
          (StopsWith-sticky _ _ (λ t. read_timestamp-IsSticky _))

    read_username-Reads :
        (msg : Message)
        → msg.users ≡ []
        → Reads (read_username msg) (record m { sender_id = msg.sender_id }) (write_username m)
    unfolding read_username write_username
    read_username-Reads msg e =
        Reads-bind _ _ m.username _ _ _ (write_text-Reads _ h.username) (read_body-Reads _ e)
          (StopsWith-sticky _ _ (λ t. read_body-IsSticky _))

    -- `operator>>` returns the message that `operator<<` wrote, with what follows left over; on a
    -- proper prefix it returns with the status set.
    pub read_message-Reads :
        (msg : Message) → msg.users ≡ [] → Reads (read_message msg) m (write_message m)
    unfolding read_message write_message
    read_message-Reads msg e =
        Reads-bind _ _ m.sender_id _ _ _ (Reads-extract uuid_codec _ tt) (read_username-Reads _ e)
          (StopsWith-sticky _ _ (λ u. read_username-IsSticky _))
