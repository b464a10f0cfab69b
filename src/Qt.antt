-- ===== src/Qt.antt =====
-- What the program takes from Qt: identifiers, times, strings and `QDataStream`. None of it is in
-- the repository, so it is a record of types, operations and documented laws, and every module
-- takes it as an instance argument.
use qt_messenger.Prelude.{
  ◌≤◌, ◌<◌, ◌^◌, ◌≡◌, ◌≢◌, ◌⊎◌, inl, inr, refl, ℕ, Bool, true, [], ◌++◌, length, Bytes, ℤ, pos,
  negsuc,
}

-- `QDataStream::Status`, as far as reading sets it.
pub data Status : Type 0 where
  ok read_past_end read_corrupt_data : Status

-- A `QDataStream` that reads: the bytes from the device's position on, and the status.
pub record Stream : Type 0 where
  pub rest : Bytes
  pub status : Status

pub Status-cases : (s : Status) → (s ≡ Status.ok) ⊎ (s ≢ Status.ok)
Status-cases ok = inl refl
Status-cases read_past_end = inr (λ e. cc)
Status-cases read_corrupt_data = inr (λ e. cc)

-- A stream opened on a byte array, before anything is read.
abbrev pub open_read : Bytes → Stream
open_read b = record { rest = b; status = Status.ok }

abbrev pub HasFailed : Stream → Type 0
HasFailed s = s.status ≢ Status.ok

-- `operator<<` and `operator>>` of one type. `Fits` says which values the format can hold.
pub record Codec (A : Type 0) (Fits : A → Type 0) : Type 0 where
  pub write : A → Bytes
  pub read : Stream → A × Stream
  -- What was written is read back, and the position moves behind it.
  pub read-write :
      (a : A) (tail : Bytes) → Fits a → read (open_read (write a ++ tail)) ≡ (a, open_read tail)
  -- A value whose last bytes are missing sets the status.
  pub truncated :
      (a : A) (p q : Bytes) → Fits a → write a ≡ p ++ q → q ≢ [] → HasFailed (read (open_read p)).1
  -- The status stays until it is reset.
  pub sticky : (s : Stream) → HasFailed s → HasFailed (read s).1
  -- The position never goes back, and a successful read moves it on.
  pub shrinks : (s : Stream) → length (read s).1.rest ≤ length s.rest
  pub consumes :
      (s : Stream) → (read s).1.status ≡ Status.ok → length (read s).1.rest < length s.rest

-- The range of `int`.
abbrev pub IsInt : ℤ → Type 0
IsInt (pos n) = n < 2 ^ 31
IsInt (negsuc n) = n < 2 ^ 31

abbrev pub Always {ℓ} : {A : Type ℓ} → A → Type 0
Always _ = Unit

pub record Qt : Type 1 where
  pub Uuid : Type 0
  pub DateTime : Type 0
  pub QString : Type 0
  -- `operator==`
  pub uuid_eq : Discrete Uuid
  pub date_time_eq : Discrete DateTime
  pub qstring_eq : Discrete QString
  -- the default constructors
  pub null_uuid : Uuid
  pub null_date_time : DateTime
  -- `QString::fromStdString`, `QString::toStdString`
  pub from_std_string : Bytes → QString
  pub to_std_string : QString → Bytes
  -- `QString::trimmed`, `QString::isEmpty`; nothing is left of an empty text
  pub trimmed : QString → QString
  pub is_empty : QString → Bool
  pub trimmed_empty : to_std_string (trimmed (from_std_string [])) ≡ []
  -- the stream operators; a string is too long for the format beyond `FitsString`
  pub FitsString : QString → Type 0
  pub uuid_codec : Codec Uuid Always
  pub date_time_codec : Codec DateTime Always
  pub qstring_codec : Codec QString FitsString
  pub int_codec : Codec ℤ IsInt
  -- A failed read of an `int` stores 0.
  pub failed_int : (s : Stream) → HasFailed (int_codec.read s).1 → (int_codec.read s).0 ≡ pos 0
  -- If `std::vector<std::string>::reserve(n)` gets its memory; it throws `std::bad_alloc` if not, or
  -- `std::length_error`. `reserve(0)` on an empty vector allocates nothing.
  pub can_reserve : ℕ → Bool
  pub reserves_none : can_reserve 0 ≡ true
