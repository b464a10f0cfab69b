-- ===== src/Client/UserListWindow/Search.antt =====
-- The search field and the rows of user_list_window.cpp.
use qt_messenger.Prelude.{
  ◌≡◌, refl, ap, not, inl, inr, Bool-cases, List, [], ◌∷◌, map, All, length, filter_by, suc,
}
use qt_messenger.Qt.{Qt}
use qt_messenger.Client.QtText.{QtText}
use qt_messenger.Client.UserListWindow.{
  UserRow, UserListWindow, is_match, filter_rows, search_rows, counter_text,
}

module _ ⦃qt : Qt⦄ ⦃text : QtText⦄ where
  open qt use {QString}
  open text use {to_lower}

  abbrev pub visible : List UserRow → List UserRow
  visible rows = filter_by (λ (r : UserRow). not r.hidden) rows

  filter_rows-count :
      (search : QString) (rows : List UserRow)
      → (filter_rows search rows).1 ≡ length (visible (filter_rows search rows).0)
  unfolding filter_rows
  filter_rows-count search [] = refl
  filter_rows-count search (r ∷ rs) = elim (Bool-cases (is_match search r)) [
    | inl yes_ ↦ rw yes_ (ap suc (filter_rows-count search rs))
    | inr no_ ↦ rw no_ (filter_rows-count search rs)
  ]

  filter_rows-names :
      (search : QString) (rows : List UserRow)
      → map (λ (r : UserRow). r.name) (filter_rows search rows).0
        ≡ map (λ (r : UserRow). r.name) rows
  unfolding filter_rows
  filter_rows-names search [] = refl
  filter_rows-names search (r ∷ rs) = ap (λ ns. r.name ∷ ns) (filter_rows-names search rs)

  filter_rows-hides :
      (search : QString) (rows : List UserRow)
      → All (λ (r : UserRow). r.hidden ≡ not (is_match search r)) (filter_rows search rows).0
  unfolding filter_rows
  filter_rows-hides search [] = tt
  filter_rows-hides search (r ∷ rs) = (refl, filter_rows-hides search rs)

  -- A search keeps the rows and their order, hides exactly those whose name in lower case does not
  -- contain the searched text in lower case, whatever was hidden before, and counts the others.
  pub search_rows_correct :
      (field : QString) (w : UserListWindow)
      → (map (λ (r : UserRow). r.name) (search_rows field w).rows
          ≡ map (λ (r : UserRow). r.name) w.rows)
        × All
            (λ (r : UserRow). r.hidden ≡ not (is_match (to_lower field) r))
            (search_rows field w).rows
        × ((search_rows field w).counter
            ≡ counter_text (length (visible (search_rows field w).rows)))
  unfolding search_rows
  search_rows_correct field w = (
    filter_rows-names (to_lower field) w.rows,
    filter_rows-hides (to_lower field) w.rows,
    ap counter_text (filter_rows-count (to_lower field) w.rows),
  )
