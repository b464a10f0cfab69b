-- ===== src/System/Listing.antt =====
-- What the user list window (user_list_window.cpp) of a chat window shows of a list of names.
use qt_messenger.Prelude.{
  Bool, false, none, ◌||◌, ◌==◌, ◌≡◌, refl, ap, ◌∙◌, true, some, List, [], ◌∷◌, map, bytes, length,
  if◌then◌else◌,
}
use qt_messenger.Qt.{Qt}
use qt_messenger.Session.Boost.{wrapped_session}
use qt_messenger.Client.QtText.{QtText, is_fatal}
use qt_messenger.Client.UserListWindow.{
  UserRow, UserListWindow, row_for, and_row, user_rows, show_rows, counter_text, update_rows,
}
use qt_messenger.Client.ChatWindow.{ChatWindow, put_list}

module _ ⦃qt : Qt⦄ ⦃text : QtText⦄ where
  open qt use {Uuid, DateTime, QString, uuid_eq, from_std_string, can_reserve}
  open text use {first_letter, arg_count}

  -- What the window of the users says of names: how many, and a row for each, with its first letter.
  abbrev pub row_naming : QString → UserRow
  row_naming n = record { name = n; avatar = first_letter n; hidden = false }

  abbrev pub listing : List QString → UserListWindow
  listing ns = record {
    rows = map row_naming ns;
    counter =
        arg_count (bytes "%1 %2") (length ns)
          (from_std_string (if length ns == 1 then bytes "user" else bytes "users"));
  }

  -- One of the names is empty, and the build checks for that.
  abbrev pub has_fatal : List QString → Bool
  has_fatal [] = false
  has_fatal (n ∷ ns) = is_fatal n || has_fatal ns

  user_rows-naming :
      (ns : List QString) → user_rows ns ≡ (if has_fatal ns then none else some (map row_naming ns))
  unfolding user_rows row_for
  user_rows-naming [] = refl
  user_rows-naming (n ∷ ns) =
      ap (λ o. if is_fatal n then none else and_row (row_naming n) o) (user_rows-naming ns)
      ∙ both (is_fatal n) (has_fatal ns)
    where
      both :
          (b c : Bool)
          → (if b
              then none
              else and_row (row_naming n) (if c then none else some (map row_naming ns)))
            ≡ (if b || c then none else some (row_naming n ∷ map row_naming ns))
      both true c = refl
      both false true = refl
      both false false = refl

  pub put_listing :
      (w : ChatWindow) (l : UserListWindow) (ns : List QString)
      → put_list w (update_rows ns l)
        ≡ (if has_fatal ns then none else some (record w { user_list_window = some (listing ns) }))
  unfolding update_rows show_rows counter_text
  put_listing w l ns =
      ap (λ o. put_list w (show_rows (length ns) o)) (user_rows-naming ns)
      ∙ elim (has_fatal ns)
          as (λ b.
            put_list w (show_rows (length ns) (if b then none else some (map row_naming ns)))
            ≡ (if b then none else some (record w { user_list_window = some (listing ns) }))) [
              | true ↦ refl
              | false ↦ refl
            ]
