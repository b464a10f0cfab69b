-- ===== src/Message.antt =====
-- common/include/message.h and common/src/message.cpp: a message, its equality and its stream
-- operators. `std::string` is a list of bytes; `int` is `ℤ` with its range in `IsInt`.
pub mod Texts
pub mod Wire
pub mod RoundTrip
pub mod Equality
use qt_messenger.Prelude.{
  ℕ, zero, suc, Bool, true, false, ◌==◌, ◌&&◌, not, List, [], ◌∷◌, ◌++◌, length, Bytes, bytes_eq,
  decide, if◌then◌else◌, ℤ, pos, negsuc, to_int,
}
use qt_messenger.Qt.{Qt, Codec}
use qt_messenger.Reader.{Reader, threw, ◌>>=◌, pure, extract}

-- `enum class MessageType`. Its underlying type is `int`, so a cast from the wire can give a value
-- that has no enumerator.
pub data MessageType : Type 0 where
  chat user_list system : MessageType
  unnamed : ℤ → MessageType

-- `static_cast<int>(type)`
unfoldable pub type_value : MessageType → ℤ
type_value chat = pos 0
type_value user_list = pos 1
type_value system = pos 2
type_value (unnamed i) = i

-- `static_cast<MessageType>(i)`
unfoldable pub type_of_int : ℤ → MessageType
type_of_int (pos zero) = chat
type_of_int (pos (suc zero)) = user_list
type_of_int (pos (suc (suc zero))) = system
type_of_int i = unnamed i

unfoldable pub is_user_list : MessageType → Bool
is_user_list user_list = true
is_user_list _ = false

unfoldable pub is_system : MessageType → Bool
is_system system = true
is_system _ = false

int_eq : ℤ → ℤ → Bool
int_eq (pos a) (pos b) = a == b
int_eq (negsuc a) (negsuc b) = a == b
int_eq _ _ = false

-- `type == other.type`: the values are compared.
unfoldable pub type_eq : MessageType → MessageType → Bool
unfolding int_eq type_value
type_eq s t = int_eq (type_value s) (type_value t)

module _ ⦃qt : Qt⦄ where
  open qt use {
    Uuid, DateTime, QString, uuid_eq, date_time_eq, null_uuid, null_date_time, from_std_string,
    to_std_string, uuid_codec, date_time_codec, qstring_codec, int_codec, can_reserve,
  }

  pub record Message : Type 0 where
    pub sender_id : Uuid
    pub username : Bytes
    pub text : Bytes
    pub timestamp : DateTime
    pub kind : MessageType
    pub users : List Bytes

  -- `Message()`
  abbrev pub blank : Message
  blank = record {
    sender_id = null_uuid;
    username = [];
    text = [];
    timestamp = null_date_time;
    kind = chat;
    users = [];
  }

  -- `Message(senderId, username, text)` at the time `now`
  unfoldable pub new_message : Uuid → Bytes → Bytes → DateTime → Message
  new_message sender_id username text now = record {
    sender_id = sender_id;
    username = username;
    text = text;
    timestamp = now;
    kind = chat;
    users = [];
  }

  -- `operator==`
  unfoldable pub message_eq : Message → Message → Bool
  message_eq m n =
      decide (uuid_eq m.sender_id n.sender_id)
      && bytes_eq m.username n.username
      && bytes_eq m.text n.text
      && decide (date_time_eq m.timestamp n.timestamp)
      && type_eq m.kind n.kind

  -- `operator!=`
  unfoldable pub message_ne : Message → Message → Bool
  message_ne m n = not (message_eq m n)

  -- `stream << QString::fromStdString(s)`
  unfoldable pub write_text : Bytes → Bytes
  write_text s = qstring_codec.write (from_std_string s)

  unfoldable pub write_texts : List Bytes → Bytes
  write_texts [] = []
  write_texts (u ∷ us) = write_text u ++ write_texts us

  unfoldable pub write_users : List Bytes → Bytes
  write_users us = int_codec.write (to_int (length us)) ++ write_texts us

  unfoldable pub write_list : MessageType → List Bytes → Bytes
  write_list user_list us = write_users us
  write_list _ us = []

  -- `operator<<`, last field first
  unfoldable pub write_kind : Message → Bytes
  write_kind m = int_codec.write (type_value m.kind) ++ write_list m.kind m.users

  unfoldable pub write_timestamp : Message → Bytes
  write_timestamp m = date_time_codec.write m.timestamp ++ write_kind m

  unfoldable pub write_body : Message → Bytes
  write_body m = write_text m.text ++ write_timestamp m

  unfoldable pub write_username : Message → Bytes
  write_username m = write_text m.username ++ write_body m

  unfoldable pub write_message : Message → Bytes
  write_message m = uuid_codec.write m.sender_id ++ write_username m

  -- `stream >> q`, then `q.toStdString()`
  unfoldable pub read_text : Reader Bytes
  read_text = do q ← extract qstring_codec.read; pure (to_std_string q)

  -- `for (int i = 0; i < size; ++i)`
  unfoldable pub read_texts : ℕ → Reader (List Bytes)
  read_texts zero = pure []
  read_texts (suc n) = do u ← read_text; us ← read_texts n; pure (u ∷ us)

  -- `reserve(size)` converts a negative size to a huge `size_t`, and throws `std::length_error`; it
  -- throws, too, if there is no memory for a positive one.
  unfoldable pub read_sized : ℤ → Reader (List Bytes)
  read_sized (pos n) = if can_reserve n then read_texts n else λ s. (threw, s)
  read_sized (negsuc n) = λ s. (threw, s)

  unfoldable pub read_users : Message → Reader Message
  read_users m = do
    size ← extract int_codec.read
    us ← read_sized size
    pure (record m { users = us })

  unfoldable pub read_list : MessageType → Message → Reader Message
  read_list user_list m = read_users m
  read_list _ m = pure m

  -- `operator>>`, last field first: `msg` keeps its user list unless the type is `UserList`.
  unfoldable pub read_kind : Message → Reader Message
  read_kind msg = do
    code ← extract int_codec.read
    read_list (type_of_int code) (record msg { kind = type_of_int code })

  unfoldable pub read_timestamp : Message → Reader Message
  read_timestamp msg = do
    timestamp ← extract date_time_codec.read
    read_kind (record msg { timestamp = timestamp })

  unfoldable pub read_body : Message → Reader Message
  read_body msg = do text ← read_text; read_timestamp (record msg { text = text })

  unfoldable pub read_username : Message → Reader Message
  read_username msg = do username ← read_text; read_body (record msg { username = username })

  unfoldable pub read_message : Message → Reader Message
  read_message msg = do
    sender_id ← extract uuid_codec.read
    read_username (record msg { sender_id = sender_id })
