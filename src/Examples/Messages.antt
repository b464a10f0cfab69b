-- ===== src/Examples/Messages.antt =====
-- Messages over the sample `Qt`: tests, and the theorems on the wire format at one message.
use qt_messenger.Prelude.{◌≡◌, ◌↔◌, refl, true, negsuc, [], ◌∷◌, ◌++◌, Bytes, bytes, arith}
use qt_messenger.Qt.{open_read, HasFailed}
use qt_messenger.Reader.{returned, threw}
use qt_messenger.Message.{
  Message, chat, user_list, blank, message_eq, write_text, write_username, write_body,
  write_timestamp, write_kind, write_list, type_value, type_of_int, write_message, read_message,
}
use qt_messenger.Message.Wire.{IsSendable}
use qt_messenger.Message.RoundTrip.{
  read_message-write_message, read_message_truncated, read_message_negative,
}
use qt_messenger.Message.Equality.{SameFields, message_eq_iff}
use qt_messenger.Examples.Format.{codec_of}
use qt_messenger.Examples.SampleQt.{sample_qt, byte_format, string_format, int_format, write_int}

abbrev pub hello : Message
hello = record {
  sender_id = 7;
  username = bytes "ann";
  text = bytes "hi";
  timestamp = 3;
  kind = chat;
  users = [];
}

pub hello-IsSendable : IsSendable hello
unfolding type_value type_of_int
hello-IsSendable = record {
  username = record { round = refl; fits = tt };
  text = record { round = refl; fits = tt };
  in_range = omega arith;
  named = refl;
  listed = refl;
}

read_message-write_message_example :
    read_message blank (open_read (write_message hello ++ 1 ∷ []))
    ≡ (returned hello, open_read (1 ∷ []))
read_message-write_message_example = read_message-write_message hello (1 ∷ []) hello-IsSendable

abbrev pub cut_off : Bytes
cut_off = 3 ∷ bytes "an"

abbrev pub missing : Bytes
missing = bytes "n" ++ (2 ∷ bytes "hi" ++ (3 ∷ 0 ∷ 0 ∷ []))

pub hello-bytes : write_message hello ≡ (7 ∷ cut_off) ++ missing
unfolding write_message write_username write_body write_timestamp write_kind write_list write_text
    type_value codec_of byte_format string_format int_format write_int
hello-bytes = refl

read_message_truncated_example :
    (n : Message) × ((read_message blank (open_read (7 ∷ cut_off))).0 ≡ returned n)
    × HasFailed (read_message blank (open_read (7 ∷ cut_off))).1
read_message_truncated_example =
    read_message_truncated hello (7 ∷ cut_off) missing hello-IsSendable hello-bytes (λ e. cc)

-- A user list of -5 names.
abbrev pub negative : Bytes
negative =
    sample_qt.uuid_codec.write 7
    ++ (write_text (bytes "ann")
        ++ (write_text (bytes "hi")
            ++ (sample_qt.date_time_codec.write 3
                ++ (sample_qt.int_codec.write (type_value user_list)
                    ++ (sample_qt.int_codec.write (negsuc 4) ++ [])))))

pub negative_throws : (read_message blank (open_read negative)).0 ≡ threw
negative_throws =
    read_message_negative 7 (bytes "ann") (bytes "hi") 3 4 [] (record { round = refl; fits = tt })
      (record { round = refl; fits = tt }) (omega arith)

read_message_negative_example : (read_message blank (open_read negative)).0 ≡ threw
read_message_negative_example =
    read_message_negative 7 (bytes "ann") (bytes "hi") 3 4 [] (record { round = refl; fits = tt })
      (record { round = refl; fits = tt }) (omega arith)

message_eq_iff_example :
    (message_eq hello (record hello { users = bytes "bob" ∷ [] }) ≡ true)
    ↔ SameFields hello (record hello { users = bytes "bob" ∷ [] })
message_eq_iff_example = message_eq_iff hello (record hello { users = bytes "bob" ∷ [] })
