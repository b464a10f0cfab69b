-- ===== src/Examples/SampleQt.antt =====
-- A concrete `Qt` that meets every law: identifiers and times are numbers of one byte, a string is
-- its bytes behind their count, an `int` is a sign and a magnitude.
use qt_messenger.Prelude.{
  ltb, ℕ, zero, suc, ◌≤◌, ◌<◌, ◌≡◌, ◌≢◌, refl, sym, ap, ◌∙◌, inl, inr, Option-cases, Option, none,
  some, [], ◌∷◌, ◌++◌, length, append-eq-nil, Bytes, ℤ, pos, negsuc, ℕ_discrete, is_nil, arith,
}
use qt_messenger.Qt.{Qt, Stream, Always, IsInt, HasFailed}
use qt_messenger.Examples.Format.{Format, codec_of, failed_default, read}

unfoldable pub parse_byte : Bytes → Option (ℕ × Bytes)
parse_byte [] = none
parse_byte (x ∷ r) = some (x, r)

pub byte_cut : (a : ℕ) (p q : Bytes) → a ∷ [] ≡ p ++ q → q ≢ [] → parse_byte p ≡ none
unfolding parse_byte
byte_cut a [] q e n = refl
byte_cut a (x ∷ p) q e n = absurd (n (append-eq-nil p q (cc)))

pub byte_shorter : (b r : Bytes) (a : ℕ) → parse_byte b ≡ some (a, r) → length r < length b
unfolding parse_byte
byte_shorter [] r a e = cc
byte_shorter (x ∷ b) r a e = ground arith

unfoldable pub byte_format : Format ℕ
unfolding parse_byte
byte_format = record {
  default = 0;
  write = λ a. a ∷ [];
  parse = parse_byte;
  parse-write = λ a tail. refl;
  parse_cut = byte_cut;
  parse_shorter = byte_shorter;
}

unfoldable pub write_int : ℤ → Bytes
write_int (pos n) = 0 ∷ n ∷ []
write_int (negsuc n) = 1 ∷ n ∷ []

unfoldable pub parse_int : Bytes → Option (ℤ × Bytes)
parse_int (zero ∷ n ∷ r) = some (pos n, r)
parse_int (suc _ ∷ n ∷ r) = some (negsuc n, r)
parse_int _ = none

pub int_parse-write : (a : ℤ) (tail : Bytes) → parse_int (write_int a ++ tail) ≡ some (a, tail)
unfolding parse_int write_int
int_parse-write (pos n) tail = refl
int_parse-write (negsuc n) tail = refl

two_cut : (a b : ℕ) (p q : Bytes) → a ∷ b ∷ [] ≡ p ++ q → q ≢ [] → parse_int p ≡ none
unfolding parse_int
two_cut a b [] q e n = refl
two_cut a b (zero ∷ []) q e n = refl
two_cut a b (suc x ∷ []) q e n = refl
two_cut a b (x ∷ y ∷ p) q e n = absurd (n (append-eq-nil p q (cc)))

pub int_cut : (a : ℤ) (p q : Bytes) → write_int a ≡ p ++ q → q ≢ [] → parse_int p ≡ none
unfolding write_int
int_cut (pos m) p q e n = two_cut 0 m p q e n
int_cut (negsuc m) p q e n = two_cut 1 m p q e n

pub int_shorter : (b r : Bytes) (a : ℤ) → parse_int b ≡ some (a, r) → length r < length b
unfolding parse_int
int_shorter [] r a e = cc
int_shorter (zero ∷ []) r a e = cc
int_shorter (suc x ∷ []) r a e = cc
int_shorter (zero ∷ n ∷ b) r a e = ground arith
int_shorter (suc x ∷ n ∷ b) r a e = ground arith

unfoldable pub int_format : Format ℤ
unfolding parse_int write_int
int_format = record {
  default = pos 0;
  write = write_int;
  parse = parse_int;
  parse-write = int_parse-write;
  parse_cut = int_cut;
  parse_shorter = int_shorter;
}

abbrev pub behind : ℕ → Option (Bytes × Bytes) → Option (Bytes × Bytes)
behind x none = none
behind x (some (s, r)) = some (x ∷ s, r)

-- The next `n` bytes, and what follows them.
unfoldable pub take_exactly : ℕ → Bytes → Option (Bytes × Bytes)
take_exactly zero r = some ([], r)
take_exactly (suc n) [] = none
take_exactly (suc n) (x ∷ r) = behind x (take_exactly n r)

unfoldable pub parse_string : Bytes → Option (Bytes × Bytes)
unfolding take_exactly
parse_string [] = none
parse_string (n ∷ r) = take_exactly n r

pub take_exactly-append : (s tail : Bytes) → take_exactly (length s) (s ++ tail) ≡ some (s, tail)
unfolding take_exactly
take_exactly-append [] tail = refl
take_exactly-append (x ∷ s) tail = rw (take_exactly-append s tail)

take_exactly_cut : (s p q : Bytes) → s ≡ p ++ q → q ≢ [] → take_exactly (length s) p ≡ none
unfolding take_exactly
take_exactly_cut [] p q e n = absurd (n (append-eq-nil p q e))
take_exactly_cut (x ∷ s) [] q e n = refl
take_exactly_cut (x ∷ s) (y ∷ p) q e n = rw (take_exactly_cut s p q (cc) n)

take_exactly_shorter :
    (n : ℕ) (b r s : Bytes) → take_exactly n b ≡ some (s, r) → length r ≤ length b
unfolding take_exactly
take_exactly_shorter zero b r s e = ground arith
take_exactly_shorter (suc n) [] r s e = cc
take_exactly_shorter (suc n) (x ∷ b) r s e = elim (Option-cases (take_exactly n b)) [
  | inl none_left ↦ cc (none_left, e)
  | inr ((u, v), taken) ↦
      let same : behind x (some (u, v)) ≡ some (s, r) = sym (ap (behind x) taken) ∙ e in
      ground (arith, take_exactly_shorter n b v u taken, same)
]

pub string_cut : (s p q : Bytes) → length s ∷ s ≡ p ++ q → q ≢ [] → parse_string p ≡ none
unfolding parse_string
string_cut s [] q e n = refl
string_cut s (x ∷ p) q e n =
    let count : x ≡ length s = cc in rw count (take_exactly_cut s p q (cc) n)

pub string_shorter : (b r s : Bytes) → parse_string b ≡ some (s, r) → length r < length b
unfolding parse_string
string_shorter [] r s e = cc
string_shorter (n ∷ b) r s e = omega (arith, take_exactly_shorter n b r s e)

unfoldable pub string_format : Format Bytes
unfolding parse_string
string_format = record {
  default = [];
  write = λ s. length s ∷ s;
  parse = parse_string;
  parse-write = take_exactly-append;
  parse_cut = string_cut;
  parse_shorter = string_shorter;
}

pub Bytes-discrete : Discrete Bytes
Bytes-discrete = hlevel ℕ_discrete

pub sample_failed-IsInt :
    (s : Stream)
    → HasFailed ((codec_of int_format IsInt).read s).1
    → ((codec_of int_format IsInt).read s).0 ≡ pos 0
unfolding codec_of read int_format
sample_failed-IsInt s h = failed_default int_format s h

instance abbrev pub sample_qt : Qt
sample_qt = record {
  Uuid = ℕ;
  DateTime = ℕ;
  QString = Bytes;
  uuid_eq = ℕ_discrete;
  date_time_eq = ℕ_discrete;
  qstring_eq = Bytes-discrete;
  null_uuid = 0;
  null_date_time = 0;
  from_std_string = λ s. s;
  to_std_string = λ s. s;
  trimmed = λ s. s;
  is_empty = is_nil;
  trimmed_empty = refl;
  FitsString = Always;
  uuid_codec = codec_of byte_format Always;
  date_time_codec = codec_of byte_format Always;
  qstring_codec = codec_of string_format Always;
  int_codec = codec_of int_format IsInt;
  failed_int = sample_failed-IsInt;
  can_reserve = λ n. ltb n 1000;
  reserves_none = refl;
}
