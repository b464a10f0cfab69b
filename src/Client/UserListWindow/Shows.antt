-- ===== src/Client/UserListWindow/Shows.antt =====
-- The widgets of the window of the users (user_list_window.cpp), against its description without them.
use qt_messenger.Prelude.{
  ℕ, ◌≡◌, refl, sym, ap, subst, Option, none, some, List, [], ◌∷◌, bytes, length,
}
use qt_messenger.Qt.{Qt}
use qt_messenger.Client.QtText.{QtText, is_fatal}
use qt_messenger.Client.Widgets.{Ui, label, element_of, with_variable, set_text, seen}
use qt_messenger.Client.Widgets.Children.{QtWidgets, with_child-with_variable, find_child-first}
use qt_messenger.Client.Widgets.Runs.{Alike, Alike-weaken, run_until, run_until-Alike, if_both}
use qt_messenger.Client.UserListWindow.{
  UserRow, UserListWindow, counter_text, row_for, and_row, user_rows, show_rows, update_rows,
  filter_rows, search_rows,
}
use qt_messenger.Client.UserListWindow.Ui.{Row, UserListUi, new_users_ui}
use qt_messenger.Client.UserListWindow.Rows.{
  row_widget, and_row_ui, rows_ui, put_rows_ui, set_counter, update_rows_ui, filter_row,
  filter_rows_ui, search_rows_ui, type_search_ui,
}

module _ ⦃qt : Qt⦄ ⦃widgets : QtWidgets⦄ ⦃text : QtText⦄ where
  open qt use {QString, from_std_string, is_empty}
  open text use {to_lower}

  -- What the user sees of a row: the name, the letter, and whether the row is hidden.
  pub record ShowsRow (r : UserRow) (row : Row) : Type 0 where
    pub name : seen (element_of (bytes "nameLabel") row.widget) ≡ some r.name
    pub avatar : seen (element_of (bytes "avatarLabel") row.widget) ≡ some r.avatar
    pub hidden : row.hidden ≡ r.hidden

  -- The rows one by one.
  pub data ShowsRows : List UserRow → List Row → Type 0 where
    no_rows : ShowsRows [] []
    next_row :
        {r : UserRow} {row : Row} {rs : List UserRow} {rows : List Row}
        → ShowsRow r row
        → ShowsRows rs rows
        → ShowsRows (r ∷ rs) (row ∷ rows)

  pub record ShowsUsers (w : UserListWindow) (p : UserListUi) : Type 0 where
    pub counter : seen (element_of (bytes "counterLabel") p.ui) ≡ some w.counter
    pub rows : ShowsRows w.rows p.rows

  -- The widgets of a window in any state, with what stands in the search field.
  abbrev row_drawn : UserRow → Row
  row_drawn r = record { widget = row_widget r.avatar r.name; hidden = r.hidden }

  abbrev rows_drawn : List UserRow → List Row
  rows_drawn [] = []
  rows_drawn (r ∷ rs) = row_drawn r ∷ rows_drawn rs

  abbrev pub users_drawn : QString → UserListWindow → UserListUi
  users_drawn field w = record {
    ui =
        with_variable (bytes "searchField") (set_text field)
          (with_variable (bytes "counterLabel") (set_text w.counter) new_users_ui.ui);
    rows = rows_drawn w.rows;
  }

  rows_drawn-ShowsRows : (rs : List UserRow) → ShowsRows rs (rows_drawn rs)
  rows_drawn-ShowsRows [] = no_rows
  rows_drawn-ShowsRows (r ∷ rs) =
      next_row (record { name = refl; avatar = refl; hidden = refl }) (rows_drawn-ShowsRows rs)

  pub record DrawsUsers (w : UserListWindow) (p : UserListUi) : Type 0 where
    pub field : QString
    pub same : p ≡ users_drawn field w

  pub DrawsUsers-ShowsUsers :
      (w : UserListWindow) (p : UserListUi) → DrawsUsers w p → ShowsUsers w p
  DrawsUsers-ShowsUsers w p h =
      subst (ShowsUsers w) (sym h.same)
        (record { counter = refl; rows = rows_drawn-ShowsRows w.rows })

  and_row-drawn :
      (r : UserRow) (o : Option (List UserRow)) (o' : Option (List Row))
      → Alike (λ rs rows. rows ≡ rows_drawn rs) o o'
      → Alike (λ rs rows. rows ≡ rows_drawn rs) (and_row r o) (and_row_ui (row_drawn r) o')
  and_row-drawn r none none h = h
  and_row-drawn r none (some rows) h = absurd h
  and_row-drawn r (some rs) none h = absurd h
  and_row-drawn r (some rs) (some rows) h = ap (λ rows. row_drawn r ∷ rows) h

  rows_ui-drawn :
      (us : List QString) → Alike (λ rs rows. rows ≡ rows_drawn rs) (user_rows us) (rows_ui us)
  unfolding user_rows rows_ui row_for
  rows_ui-drawn [] = refl
  rows_ui-drawn (u ∷ us) =
      if_both (Alike (λ rs rows. rows ≡ rows_drawn rs)) (is_fatal u) tt
        (and_row-drawn (row_for u) (user_rows us) (rows_ui us) (rows_ui-drawn us))

  set_counter-drawn :
      (n : ℕ) (field : QString) (w : UserListWindow)
      → set_counter n (record (users_drawn field w) { rows = [] })
        ≡ users_drawn field (record { rows = []; counter = counter_text n })
  set_counter-drawn n field w =
      ap (λ (ui : Ui). record { ui = ui; rows = [] })
        (with_child-with_variable label (bytes "counterLabel") (bytes "counterLabel")
          (set_text (counter_text n)) (users_drawn field w).ui (refl, refl))

  put_rows-DrawsUsers :
      (us : List QString) (field : QString) (o : Option (List UserRow))
      → (o' : Option (List Row)) → Alike (λ rs rows. rows ≡ rows_drawn rs) o o'
      → Alike DrawsUsers (show_rows (length us) o) (
          put_rows_ui
            (users_drawn field (record { rows = []; counter = counter_text (length us) }))
            o')
  unfolding show_rows put_rows_ui
  put_rows-DrawsUsers us field none none h = h
  put_rows-DrawsUsers us field none (some rows) h = absurd h
  put_rows-DrawsUsers us field (some rs) none h = absurd h
  put_rows-DrawsUsers us field (some rs) (some rows) h = record {
    field = field;
    same =
        ap
          (λ rows.
            record (users_drawn field (record { rows = []; counter = counter_text (length us) })) {
              rows = rows;
            })
          h;
  }

  pub update_rows-DrawsUsers :
      (us : List QString) (w : UserListWindow) (p : UserListUi)
      → DrawsUsers w p
      → Alike DrawsUsers (update_rows us w) (update_rows_ui us p)
  unfolding update_rows update_rows_ui
  update_rows-DrawsUsers us w p h =
      subst (λ p. Alike DrawsUsers (update_rows us w) (update_rows_ui us p)) (sym h.same)
        (subst (λ p. Alike DrawsUsers (update_rows us w) (put_rows_ui p (rows_ui us)))
          (sym (set_counter-drawn (length us) h.field w))
          (put_rows-DrawsUsers us h.field (user_rows us) (rows_ui us) (rows_ui-drawn us)))

  filter_rows-drawn :
      (search : QString) (rs : List UserRow)
      → filter_rows_ui search (rows_drawn rs)
        ≡ (rows_drawn (filter_rows search rs).0, (filter_rows search rs).1)
  unfolding filter_rows filter_rows_ui filter_row
  filter_rows-drawn search [] = refl
  filter_rows-drawn search (r ∷ rs) = rw (filter_rows-drawn search rs) (
      rw
        (find_child-first label (bytes "nameLabel") (bytes "nameLabel")
          (row_drawn r).widget.children (refl, refl))
        refl)

  pub search_rows-DrawsUsers :
      (field : QString) (w : UserListWindow) (p : UserListUi)
      → DrawsUsers w p
      → DrawsUsers (search_rows field w) (type_search_ui field p)
  unfolding search_rows type_search_ui search_rows_ui
  search_rows-DrawsUsers field w p h =
      subst (λ p. DrawsUsers (search_rows field w) (type_search_ui field p)) (sym h.same)
        (record { field = field; same = rw (filter_rows-drawn (to_lower field) w.rows) })

  -- What happens to the window: a list of the users comes, and the user types in the search field.
  pub data UsersEvent : Type 0 where
    listed : List QString → UsersEvent
    searched : QString → UsersEvent

  unfoldable pub users_window : UsersEvent → UserListWindow → Option UserListWindow
  users_window (listed us) w = update_rows us w
  users_window (searched field) w = some (search_rows field w)

  unfoldable pub users_ui : UsersEvent → UserListUi → Option UserListUi
  users_ui (listed us) p = update_rows_ui us p
  users_ui (searched field) p = some (type_search_ui field p)

  users-DrawsUsers :
      (x : UsersEvent) (w : UserListWindow) (p : UserListUi)
      → DrawsUsers w p
      → Alike DrawsUsers (users_window x w) (users_ui x p)
  unfolding users_window users_ui
  users-DrawsUsers (listed us) w p h = update_rows-DrawsUsers us w p h
  users-DrawsUsers (searched field) w p h = search_rows-DrawsUsers field w p h

  -- The window as it opens.
  abbrev pub opened : UserListWindow
  opened = record { rows = []; counter = from_std_string (bytes "0 users") }

  pub opened-DrawsUsers : DrawsUsers opened new_users_ui
  opened-DrawsUsers = record { field = from_std_string []; same = refl }

  -- Whatever lists of users come and whatever the user searches, the widgets of the window stop the
  -- program exactly when its description without widgets says so;
  -- until then they show the counter, and in each row the name, the letter, and whether it is hidden,
  -- as that description says.
  pub users_widgets_show_window :
      (xs : List UsersEvent)
      → Alike ShowsUsers (run_until users_window xs opened) (run_until users_ui xs new_users_ui)
  users_widgets_show_window xs =
      Alike-weaken DrawsUsers-ShowsUsers (run_until users_window xs opened)
        (run_until users_ui xs new_users_ui)
        (run_until-Alike DrawsUsers users_window users_ui users-DrawsUsers xs opened new_users_ui
          opened-DrawsUsers)
