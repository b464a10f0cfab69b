-- ===== src/Prelude/Lists.antt =====
-- Lists over the native numbers, under the library's names, and byte strings.
use Prim.Native.Nat.{ℕ, zero, suc, ◌+◌, ◌-◌, ◌≤◌}
use Prim.Native.Char.{code}
use Prim.Native.String.{String}
use mathlib.Core.Path.{◌≡◌, refl, ap}
use mathlib.Core.Logic.{◌≢◌, ◌⊎◌, inl, inr}
use mathlib.Core.Bool.{Bool, true, false, ◌&&◌, ◌||◌}
use mathlib.Core.List.{List, [], ◌∷◌, ◌++◌, map}
use native.Mathlib.Omega.{arith}
use qt_messenger.Prelude.Tests.{◌==◌, if◌then◌else◌}

module _ {ℓ} {A : Type ℓ} where
  abbrev pub length : List A → ℕ
  length [] = 0
  length (x ∷ xs) = suc (length xs)

  abbrev pub is_nil : List A → Bool
  is_nil [] = true
  is_nil (x ∷ xs) = false

  abbrev pub drop : ℕ → List A → List A
  drop zero xs = xs
  drop (suc n) [] = []
  drop (suc n) (x ∷ xs) = drop n xs

  pub length-append : (xs ys : List A) → length (xs ++ ys) ≡ length xs + length ys
  length-append [] ys = omega arith
  length-append (x ∷ xs) ys = omega (arith, length-append xs ys)

  pub drop-append : (xs ys : List A) → drop (length xs) (xs ++ ys) ≡ ys
  drop-append [] ys = refl
  drop-append (x ∷ xs) ys = drop-append xs ys

  -- Every element satisfies `P`.
  abbrev pub All {κ} : (A → Type κ) → List A → Type κ
  All P [] = Unit {κ}
  All P (x ∷ xs) = P x × All P xs

pub All-append {ℓ κ} :
    {A : Type ℓ} (P : A → Type κ) (xs ys : List A) → All P xs → All P ys → All P (xs ++ ys)
All-append P [] ys h k = k
All-append P (x ∷ xs) ys h k = (h.0, All-append P xs ys h.1 k)

pub All-right {ℓ κ} : {A : Type ℓ} (P : A → Type κ) (xs ys : List A) → All P (xs ++ ys) → All P ys
All-right P [] ys h = h
All-right P (x ∷ xs) ys h = All-right P xs ys h.1

pub length-map {ℓ κ} :
    {A : Type ℓ} {B : Type κ} (f : A → B) (xs : List A) → length (map f xs) ≡ length xs
length-map f [] = refl
length-map f (x ∷ xs) = ap suc (length-map f xs)

abbrev pub flatten {ℓ} : {A : Type ℓ} → List (List A) → List A
flatten [] = []
flatten (xs ∷ xss) = xs ++ flatten xss

-- The elements that pass a test.
abbrev pub filter_by {ℓ} : {A : Type ℓ} → (A → Bool) → List A → List A
filter_by p [] = []
filter_by p (x ∷ xs) = let rest = filter_by p xs in if p x then x ∷ rest else rest

abbrev pub contains : ℕ → List ℕ → Bool
contains a [] = false
contains a (x ∷ xs) = (x == a) || contains a xs

-- The last `n` elements.
abbrev pub last {ℓ} : {A : Type ℓ} → ℕ → List A → List A
last n xs = drop (length xs - n) xs

module _ {ℓ} {A : Type ℓ} where
  pub length-drop : (n : ℕ) (xs : List A) → length (drop n xs) ≡ length xs - n
  length-drop zero xs = omega arith
  length-drop (suc n) [] = omega arith
  length-drop (suc n) (x ∷ xs) = omega (arith, length-drop n xs)

  pub drop_one-drop : (n : ℕ) (xs : List A) → drop 1 (drop n xs) ≡ drop (suc n) xs
  drop_one-drop zero [] = refl
  drop_one-drop zero (x ∷ xs) = refl
  drop_one-drop (suc n) [] = refl
  drop_one-drop (suc n) (x ∷ xs) = drop_one-drop n xs

  pub drop-append_le :
      (n : ℕ) (xs ys : List A) → n ≤ length xs → drop n (xs ++ ys) ≡ drop n xs ++ ys
  drop-append_le zero xs ys h = refl
  drop-append_le (suc n) [] ys h = absurd (omega arith)
  drop-append_le (suc n) (x ∷ xs) ys h = drop-append_le n xs ys (omega arith)

-- Where two ways to cut a list meet: the first cut lies behind the second, or it does not.
pub append-cases {ℓ} :
    {A : Type ℓ} (w v p q : List A)
    → w ++ v ≡ p ++ q
    → ((t : List A) × (w ≡ p ++ t) × (q ≡ t ++ v) × (t ≢ []))
      ⊎ ((t : List A) × (p ≡ w ++ t) × (v ≡ t ++ q))
append-cases [] v p q e = inr (p, refl, e)
append-cases (x ∷ w) v [] q e = inl (x ∷ w, refl, cc, λ h. cc)
append-cases (x ∷ w) v (y ∷ p) q e = elim (append-cases w v p q (cc)) [
  | inl (t, a, b, c) ↦ inl (t, cc, b, c)
  | inr (t, a, b) ↦ inr (t, cc, b)
]

pub append-eq-nil {ℓ} : {A : Type ℓ} (p q : List A) → [] ≡ p ++ q → q ≡ []
append-eq-nil [] q e = cc
append-eq-nil (x ∷ p) q e = cc

pub left_nil {ℓ} : {A : Type ℓ} (p q : List A) → p ++ q ≡ [] → p ≡ []
left_nil [] q e = refl
left_nil (x ∷ p) q e = cc

-- `std::string` and `QByteArray`: a sequence of bytes.
abbrev pub Bytes : Type 0
Bytes = List ℕ

-- The bytes of an ASCII literal.
abbrev pub bytes : String → Bytes
bytes String.[] = []
bytes (String.◌∷◌ c s) = code c ∷ bytes s

-- `operator==` of `std::string`.
abbrev pub bytes_eq : Bytes → Bytes → Bool
bytes_eq [] [] = true
bytes_eq (a ∷ as') (b ∷ bs) = (a == b) && bytes_eq as' bs
bytes_eq _ _ = false
