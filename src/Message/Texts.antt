-- ===== src/Message/Texts.antt =====
-- The strings and the user list inside a message of message.cpp, and which of them the format holds.
use qt_messenger.Prelude.{
  if_intro, true, ◌≤◌, ℕ, zero, suc, ◌<◌, ◌^◌, ◌≡◌, List, [], ◌∷◌, length, All, append-nil, sym,
  subst, ◌∙◌, Bytes, ℤ, pos, negsuc, to_int, to_int-pos, arith,
}
use qt_messenger.Qt.{Qt, HasFailed, IsInt}
use qt_messenger.Reader.{Reader, ◌>>=◌, pure, extract}
use qt_messenger.Reader.Laws.{
  stopped, IsSticky, NeverGrows, Reads, IsSticky-bind, NeverGrows-bind, Reads-bind,
  IsSticky-extract, NeverGrows-extract, Reads-extract, IsSticky-pure, Reads-pure, StopsWith,
  StopsWith-sticky, Stopped-status,
}
use qt_messenger.Message.{
  Message, MessageType, user_list, write_text, write_texts, write_users, write_list, read_text,
  read_texts, read_sized, read_users, read_list,
}

module _ ⦃qt : Qt⦄ where
  open qt use {
    Uuid, DateTime, QString, FitsString, from_std_string, to_std_string, uuid_codec,
    date_time_codec, qstring_codec, int_codec, failed_int, can_reserve, reserves_none,
  }

  -- A byte string that survives the way through `QString` and fits the format.
  pub record IsText (s : Bytes) : Type 0 where
    pub round : to_std_string (from_std_string s) ≡ s
    pub fits : FitsString (from_std_string s)

  -- Only a message of type `UserList` carries its users, and there must be memory for them.
  abbrev pub CarriesUsers : MessageType → List Bytes → Type 0
  CarriesUsers user_list us =
      All IsText us × (length us < 2 ^ 31) × (can_reserve (length us) ≡ true)
  CarriesUsers _ us = us ≡ []

  pub read_text-IsSticky : IsSticky read_text
  unfolding read_text
  read_text-IsSticky = IsSticky-bind _ _ (IsSticky-extract qstring_codec) (λ q. IsSticky-pure _)

  pub read_texts-IsSticky : (n : ℕ) → IsSticky (read_texts n)
  unfolding read_texts
  read_texts-IsSticky zero = IsSticky-pure _
  read_texts-IsSticky (suc n) =
      IsSticky-bind _ _ read_text-IsSticky
        (λ u. IsSticky-bind _ _ (read_texts-IsSticky n) (λ us. IsSticky-pure _))

  -- The size that a failed read leaves is 0, so nothing throws.
  pub read_users-IsSticky : (m : Message) → IsSticky (read_users m)
  unfolding read_users ◌>>=◌ extract read_sized read_texts
  read_users-IsSticky m s h = rw (failed_int s h', reserves_none) (stopped _ _ h')
    where
      h' : HasFailed (int_codec.read s).1
      h' = int_codec.sticky s h

  pub read_list-IsSticky : (t : MessageType) (m : Message) → IsSticky (read_list t m)
  unfolding read_list
  read_list-IsSticky user_list m = read_users-IsSticky m
  read_list-IsSticky _ m = IsSticky-pure m

  pub read_text-NeverGrows : NeverGrows read_text
  unfolding read_text
  read_text-NeverGrows = NeverGrows-bind _ _ (NeverGrows-extract qstring_codec) (λ q s. omega arith)

  pub read_texts-NeverGrows : (n : ℕ) → NeverGrows (read_texts n)
  unfolding read_texts
  read_texts-NeverGrows zero s = omega arith
  read_texts-NeverGrows (suc n) s =
      NeverGrows-bind _ _ read_text-NeverGrows
        (λ u. NeverGrows-bind _ _ (read_texts-NeverGrows n) (λ us s. omega arith)) s

  pub read_sized-NeverGrows : (i : ℤ) → NeverGrows (read_sized i)
  unfolding read_sized
  read_sized-NeverGrows (pos n) s =
      if_intro (λ (r : Reader (List Bytes)). length (r s).1.rest ≤ length s.rest) (can_reserve n)
        (λ _. read_texts-NeverGrows n s) (λ _. omega arith)
  read_sized-NeverGrows (negsuc n) s = omega arith

  pub read_list-NeverGrows : (t : MessageType) (m : Message) → NeverGrows (read_list t m)
  unfolding read_list read_users
  read_list-NeverGrows user_list m =
      NeverGrows-bind _ _ (NeverGrows-extract int_codec)
        (λ i. NeverGrows-bind _ _ (read_sized-NeverGrows i) (λ us s. omega arith))
  read_list-NeverGrows _ m = λ s. omega arith

  pub write_text-Reads : (s : Bytes) → IsText s → Reads read_text s (write_text s)
  unfolding read_text write_text
  write_text-Reads s h = rw (← append-nil (qstring_codec.write (from_std_string s))) (
      Reads-bind _ _ (from_std_string s) s _ [] (Reads-extract qstring_codec _ h.fits)
        (rw h.round (Reads-pure s)) (StopsWith-sticky _ _ (λ q. IsSticky-pure _)))

  pub write_texts-Reads :
      (us : List Bytes) → All IsText us → Reads (read_texts (length us)) us (write_texts us)
  unfolding read_texts write_texts
  write_texts-Reads [] h = Reads-pure []
  write_texts-Reads (u ∷ us) h =
      Reads-bind _ _ u (u ∷ us) _ _ (write_text-Reads u h.0)
        (rw (← append-nil (write_texts us)) (
          Reads-bind _ _ us (u ∷ us) _ [] (write_texts-Reads us h.1) (Reads-pure _)
            (StopsWith-sticky _ _ (λ vs. IsSticky-pure _))))
        (StopsWith-sticky _ _
          (λ v. IsSticky-bind _ _ (read_texts-IsSticky (length us)) (λ vs. IsSticky-pure _)))

  pub to_int-IsInt : (n : ℕ) → n < 2 ^ 31 → IsInt (to_int n)
  to_int-IsInt n h = rw (to_int-pos n h) h

  pub read_sized-Reads :
      (us : List Bytes)
      → All IsText us
      → length us < 2 ^ 31
      → can_reserve (length us) ≡ true
      → Reads (read_sized (to_int (length us))) us (write_texts us)
  unfolding read_sized
  read_sized-Reads us h small room =
      rw (to_int-pos (length us) small, room) (write_texts-Reads us h)

  -- A failed read of the size leaves 0, so what follows reads nothing and cannot throw.
  pub read_users-StopsWith :
      (m : Message)
      → StopsWith
          (extract int_codec.read)
          (λ size. read_sized size >>= λ us. pure (record m { users = us }))
  unfolding ◌>>=◌ extract read_sized read_texts
  read_users-StopsWith m s h =
      rw (failed_int s (Stopped-status h), reserves_none) (stopped _ _ (Stopped-status h))

  pub write_users-Reads :
      (m : Message) (us : List Bytes)
      → CarriesUsers user_list us
      → Reads (read_users m) (record m { users = us }) (write_users us)
  unfolding read_users write_users
  write_users-Reads m us h =
      Reads-bind _ _ (to_int (length us)) _ _ _
        (Reads-extract int_codec _ (to_int-IsInt (length us) h.1))
        (rw (← append-nil (write_texts us)) (
          Reads-bind _ _ us _ _ [] (read_sized-Reads us h.0 h.1 h.2) (Reads-pure _)
            (StopsWith-sticky _ _ (λ vs. IsSticky-pure _))))
        (read_users-StopsWith m)

  -- The list that follows the type, into a message that holds no users yet.
  pub write_list-Reads :
      (t : MessageType) (m : Message) (us : List Bytes)
      → m.users ≡ []
      → CarriesUsers t us
      → Reads (read_list t m) (record m { users = us }) (write_list t us)
  unfolding read_list write_list
  write_list-Reads user_list m us e h = write_users-Reads m us h
  write_list-Reads _ m us e h =
      subst (λ n. Reads (pure m) n []) (λ i. record m { users = (e ∙ sym h) i }) (Reads-pure m)
