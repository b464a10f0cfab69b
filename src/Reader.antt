-- ===== src/Reader.antt =====
-- Chains of `stream >> x`: a read returns a value or throws, and leaves the stream further on.
pub mod Laws
use qt_messenger.Qt.{Stream}

-- `threw` is an exception that leaves the operator (`std::length_error` of `std::vector::reserve`).
pub data Outcome {ℓ} (A : Type ℓ) : Type ℓ where
  returned : A → Outcome A
  threw : Outcome A

abbrev pub Reader {ℓ} : Type ℓ → Type ℓ
Reader A = Stream → Outcome A × Stream

abbrev pub continue {ℓ κ} : {A : Type ℓ} {B : Type κ} → Outcome A → (A → Reader B) → Reader B
continue (returned a) f s = f a s
continue threw f s = (threw, s)

infixl 5 ◌>>=◌
unfoldable pub ◌>>=◌ {ℓ κ} : {A : Type ℓ} {B : Type κ} → Reader A → (A → Reader B) → Reader B
◌>>=◌ m f s = let (r, s') = m s in continue r f s'

abbrev pub pure {ℓ} : {A : Type ℓ} → A → Reader A
pure a s = (returned a, s)

-- `stream >> x` for a type of Qt.
unfoldable pub extract {ℓ} : {A : Type ℓ} → (Stream → A × Stream) → Reader A
extract read s = let (a, s') = read s in (returned a, s')
