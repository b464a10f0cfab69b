-- ===== src/Reader/Laws.antt =====
-- How reads compose: what reads a value off its bytes, what fails on a part of them, and how far
-- the stream moves.
use qt_messenger.Prelude.{
  ◌≤◌, ◌<◌, ◌≡◌, ◌≢◌, refl, inl, inr, [], ◌++◌, length, append_assoc, append-cases, append-eq-nil,
  Bytes, arith,
}
use qt_messenger.Qt.{Status, Status-cases, Stream, Codec, open_read, HasFailed}
use qt_messenger.Reader.{Outcome, Reader, returned, threw, continue, ◌>>=◌, pure, extract}

-- The read came back, on a stream whose status is set.
pub data Stopped {ℓ} {A : Type ℓ} : Outcome A × Stream → Type ℓ where
  stopped : (a : A) (s : Stream) → HasFailed s → Stopped (returned a, s)

-- Once the status is set, it stays set and nothing throws.
abbrev pub IsSticky {ℓ} : {A : Type ℓ} → Reader A → Type ℓ
IsSticky r = (s : Stream) → HasFailed s → Stopped (r s)

-- `r` reads `a` off `w`, whatever follows, and stops on every proper prefix of `w`.
pub record Reads {ℓ} {A : Type ℓ} (r : Reader A) (a : A) (w : Bytes) : Type ℓ where
  pub whole : (tail : Bytes) → r (open_read (w ++ tail)) ≡ (returned a, open_read tail)
  pub cut : (p q : Bytes) → w ≡ p ++ q → q ≢ [] → Stopped (r (open_read p))

-- The position never goes back.
abbrev pub NeverGrows {ℓ} : {A : Type ℓ} → Reader A → Type 0
NeverGrows r = (s : Stream) → length (r s).1.rest ≤ length s.rest

-- A read that leaves the status alone moves the position on.
abbrev pub Consumes {ℓ} : {A : Type ℓ} → Reader A → Type 0
Consumes r = (s : Stream) → (r s).1.status ≡ Status.ok → length (r s).1.rest < length s.rest

pub Stopped-status {ℓ} : {A : Type ℓ} {x : Outcome A × Stream} → Stopped x → HasFailed x.1
Stopped-status (stopped a s h) = h

Stopped-continue {ℓ κ} :
    {A : Type ℓ} {B : Type κ} (f : A → Reader B) {x : Outcome A × Stream}
    → ((a : A) → IsSticky (f a))
    → Stopped x
    → Stopped (continue x.0 f x.1)
Stopped-continue f kf (stopped a s h) = kf a s h

NeverGrows-continue {ℓ κ} :
    {A : Type ℓ} {B : Type κ} (f : A → Reader B) (r : Outcome A) (s : Stream)
    → ((a : A) → NeverGrows (f a))
    → length (continue r f s).1.rest ≤ length s.rest
NeverGrows-continue f (returned a) s k = k a s
NeverGrows-continue f threw s k = omega arith

continue-status {ℓ κ} :
    {A : Type ℓ} {B : Type κ} (f : A → Reader B) (r : Outcome A) (s : Stream)
    → ((a : A) → IsSticky (f a))
    → (continue r f s).1.status ≡ Status.ok
    → s.status ≡ Status.ok
continue-status f threw s k e = e
continue-status f (returned a) s k e = elim (Status-cases s.status) [
  | inl good ↦ good
  | inr bad ↦ absurd (Stopped-status (k a s bad) e)
]

module _ {ℓ κ} {A : Type ℓ} {B : Type κ} (m : Reader A) (f : A → Reader B) where
  pub IsSticky-bind : IsSticky m → ((a : A) → IsSticky (f a)) → IsSticky (m >>= f)
  unfolding ◌>>=◌
  IsSticky-bind km kf s h = Stopped-continue f kf (km s h)

  pub NeverGrows-bind : NeverGrows m → ((a : A) → NeverGrows (f a)) → NeverGrows (m >>= f)
  unfolding ◌>>=◌
  NeverGrows-bind km kf s = omega (arith, km s, NeverGrows-continue f (m s).0 (m s).1 kf)

  pub Consumes-bind :
      Consumes m → ((a : A) → IsSticky (f a)) → ((a : A) → NeverGrows (f a)) → Consumes (m >>= f)
  unfolding ◌>>=◌
  Consumes-bind km sf kf s e = omega (
    arith,
    km s (continue-status f (m s).0 (m s).1 sf e),
    NeverGrows-continue f (m s).0 (m s).1 kf,
  )

  -- When the first read stops, so does the chain.
  abbrev pub StopsWith : Type (ℓ ⊔ κ)
  StopsWith = (s : Stream) → Stopped (m s) → Stopped ((m >>= f) s)

  pub StopsWith-sticky : ((a : A) → IsSticky (f a)) → StopsWith
  unfolding ◌>>=◌
  StopsWith-sticky kf s h = Stopped-continue f kf h

  pub Reads-bind :
      (a : A) (b : B) (w v : Bytes)
      → Reads m a w
      → Reads (f a) b v
      → StopsWith
      → Reads (m >>= f) b (w ++ v)
  Reads-bind a b w v km kf stops = record {
    whole = λ tail.
        rw (append_assoc w v tail) (unfold ◌>>=◌ in rw (km.whole (v ++ tail)) (kf.whole tail));
    cut = λ p q e h. elim (append-cases w v p q e) [
      | inl (t, ew, eq, ht) ↦ stops (open_read p) (km.cut p t ew ht)
      | inr (t, ep, ev) ↦ rw ep (unfold ◌>>=◌ in rw (km.whole t) (kf.cut t q ev h))
    ];
  }

module _ {A : Type 0} {F : A → Type 0} (c : Codec A F) where
  pub IsSticky-extract : IsSticky (extract c.read)
  unfolding extract
  IsSticky-extract s h = stopped (c.read s).0 (c.read s).1 (c.sticky s h)

  pub NeverGrows-extract : NeverGrows (extract c.read)
  unfolding extract
  NeverGrows-extract s = c.shrinks s

  pub Consumes-extract : Consumes (extract c.read)
  unfolding extract
  Consumes-extract s = c.consumes s

  pub Reads-extract : (a : A) → F a → Reads (extract c.read) a (c.write a)
  unfolding extract
  Reads-extract a fits = record {
    whole = λ tail. rw (c.read-write a tail fits);
    cut = λ p q e h. stopped _ _ (c.truncated a p q fits e h);
  }

module _ {ℓ} {A : Type ℓ} (a : A) where
  pub IsSticky-pure : IsSticky (pure a)
  IsSticky-pure s h = stopped a s h

  pub NeverGrows-pure : NeverGrows (pure a)
  NeverGrows-pure s = omega arith

  pub Reads-pure : Reads (pure a) a []
  Reads-pure = record { whole = λ tail. refl; cut = λ p q e h. absurd (h (append-eq-nil p q e)) }
