-- ===== src/Message/Equality.antt =====
-- `operator==` of message.cpp compares every field but the user list.
use qt_messenger.Prelude.{
  ◌≡◌, ◌↔◌, refl, true, [], ◌∷◌, Bytes, bytes_eq, decide_iff, ℤ, pos, negsuc, arith,
}
use qt_messenger.Qt.{Qt}
use qt_messenger.Message.{Message, type_value, type_eq, int_eq, message_eq}

bytes_eq_iff : (a b : Bytes) → (bytes_eq a b ≡ true) ↔ (a ≡ b)
bytes_eq_iff [] [] = (λ e. refl, λ e. refl)
bytes_eq_iff [] (y ∷ b) = (λ e. cc, λ e. cc)
bytes_eq_iff (x ∷ a) [] = (λ e. cc, λ e. cc)
bytes_eq_iff (x ∷ a) (y ∷ b) = ground (arith, bytes_eq_iff a b)

int_eq_iff : (a b : ℤ) → (int_eq a b ≡ true) ↔ (a ≡ b)
unfolding int_eq
int_eq_iff (pos a) (pos b) = ground arith
int_eq_iff (pos a) (negsuc b) = ground arith
int_eq_iff (negsuc a) (pos b) = ground arith
int_eq_iff (negsuc a) (negsuc b) = ground arith

module _ ⦃qt : Qt⦄ where
  open qt use {uuid_eq, date_time_eq}

  -- The fields that `operator==` compares.
  pub record SameFields (m n : Message) : Type 0 where
    pub sender_id : m.sender_id ≡ n.sender_id
    pub username : m.username ≡ n.username
    pub text : m.text ≡ n.text
    pub timestamp : m.timestamp ≡ n.timestamp
    pub kind : type_value m.kind ≡ type_value n.kind

  -- Two messages are equal exactly if their senders, names, texts, times and types are; the user
  -- lists do not count.
  pub message_eq_iff : (m n : Message) → (message_eq m n ≡ true) ↔ SameFields m n
  unfolding message_eq type_eq
  message_eq_iff m n = ground (
    arith,
    decide_iff (uuid_eq m.sender_id n.sender_id),
    decide_iff (date_time_eq m.timestamp n.timestamp),
    bytes_eq_iff m.username n.username,
    bytes_eq_iff m.text n.text,
    int_eq_iff (type_value m.kind) (type_value n.kind),
  )
