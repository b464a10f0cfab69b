-- ===== src/Examples/Format.antt =====
-- Codecs that meet the laws of `Qt`, from functions that parse a whole value or find none.
use qt_messenger.Prelude.{
  ◌≤◌, ◌<◌, ◌≡◌, ◌≢◌, refl, ap, Option, none, some, [], ◌++◌, length, Bytes, arith,
}
use qt_messenger.Qt.{Status, Stream, Codec, open_read, HasFailed}

-- A format by a function that parses a whole value or finds that bytes are missing.
pub record Format (A : Type 0) : Type 0 where
  pub default : A
  pub write : A → Bytes
  pub parse : Bytes → Option (A × Bytes)
  pub parse-write : (a : A) (tail : Bytes) → parse (write a ++ tail) ≡ some (a, tail)
  pub parse_cut : (a : A) (p q : Bytes) → write a ≡ p ++ q → q ≢ [] → parse p ≡ none
  pub parse_shorter : (b r : Bytes) (a : A) → parse b ≡ some (a, r) → length r < length b

module _ {A : Type 0} (default : A) where
  abbrev pub parsed : Option (A × Bytes) → A × Stream
  parsed none = (default, record { rest = []; status = Status.read_past_end })
  parsed (some (a, r)) = (a, open_read r)

  abbrev pub read_with : (Bytes → Option (A × Bytes)) → Bytes → Status → A × Stream
  read_with parse b Status.ok = parsed (parse b)
  read_with parse b s = (default, record { rest = b; status = s })

module _ {A : Type 0} (f : Format A) where
  unfoldable pub read : Stream → A × Stream
  read s = read_with f.default f.parse s.rest s.status

  pub read_with-HasFailed :
      (b : Bytes) (s : Status)
      → s ≢ Status.ok
      → read_with f.default f.parse b s ≡ (f.default, record { rest = b; status = s })
  read_with-HasFailed b Status.ok h = absurd (h refl)
  read_with-HasFailed b Status.read_past_end h = refl
  read_with-HasFailed b Status.read_corrupt_data h = refl

  parsed_shrinks :
      (b : Bytes) (o : Option (A × Bytes))
      → f.parse b ≡ o
      → length (parsed f.default o).1.rest ≤ length b
  parsed_shrinks b none e = omega arith
  parsed_shrinks b (some (a, r)) e = omega (arith, f.parse_shorter b r a e)

  parsed_consumes :
      (b : Bytes) (o : Option (A × Bytes))
      → f.parse b ≡ o
      → (parsed f.default o).1.status ≡ Status.ok
      → length (parsed f.default o).1.rest < length b
  parsed_consumes b none e h = cc
  parsed_consumes b (some (a, r)) e h = f.parse_shorter b r a e

  pub read_with_shrinks :
      (b : Bytes) (s : Status) → length (read_with f.default f.parse b s).1.rest ≤ length b
  read_with_shrinks b Status.ok = parsed_shrinks b (f.parse b) refl
  read_with_shrinks b Status.read_past_end = omega arith
  read_with_shrinks b Status.read_corrupt_data = omega arith

  pub read_with_consumes :
      (b : Bytes) (s : Status)
      → (read_with f.default f.parse b s).1.status ≡ Status.ok
      → length (read_with f.default f.parse b s).1.rest < length b
  read_with_consumes b Status.ok h = parsed_consumes b (f.parse b) refl h
  read_with_consumes b Status.read_past_end h = cc
  read_with_consumes b Status.read_corrupt_data h = cc

  read_with_default :
      (b : Bytes) (s : Status)
      → HasFailed (read_with f.default f.parse b s).1
      → (read_with f.default f.parse b s).0 ≡ f.default
  read_with_default b Status.ok h = parsed_default (f.parse b) h
    where
      parsed_default :
          (o : Option (A × Bytes))
          → HasFailed (parsed f.default o).1
          → (parsed f.default o).0 ≡ f.default
      parsed_default none h = refl
      parsed_default (some (a, r)) h = absurd (h refl)
  read_with_default b Status.read_past_end h = refl
  read_with_default b Status.read_corrupt_data h = refl

  pub failed_default : (s : Stream) → HasFailed (read s).1 → (read s).0 ≡ f.default
  unfolding read
  failed_default s h = read_with_default s.rest s.status h

  unfoldable pub codec_of : (F : A → Type 0) → Codec A F
  unfolding read
  codec_of F = record {
    write = f.write;
    read = read;
    read-write = λ a tail h. ap (parsed f.default) (f.parse-write a tail);
    truncated = λ a p q h e n. rw (f.parse_cut a p q e n) (λ x. cc);
    sticky = λ s h. rw (read_with-HasFailed s.rest s.status h) h;
    shrinks = λ s. read_with_shrinks s.rest s.status;
    consumes = λ s h. read_with_consumes s.rest s.status h;
  }
