-- ===== src/Database/Users.antt =====
-- What `DatabaseManager` promises: a table from user names to passwords.
use qt_messenger.Prelude.{
  ◌≡◌, ◌⊎◌, inl, inr, refl, ap, ◌∙◌, Bool, true, false, Option, none, some, List, [], ◌∷◌, sym,
  subst, if_intro, decide, decide_iff, Option-cases, is_some, if◌then◌else◌,
}
use qt_messenger.Qt.{Qt}
use qt_messenger.Database.{
  Sql, Statement, Value, integer, row_of, count_of, matches, is_positive, select_password,
  count_user, insert_user, initialize, create, seed, add_test_user, create_table, count_all,
  is_zero, add_user, check_user, user_exists,
}

module _ ⦃qt : Qt⦄ where
  open qt use {QString, qstring_eq}

  -- Whether a user has this password.
  abbrev pub has_password : Option QString → QString → Bool
  has_password none p = false
  has_password (some q) p = decide (qstring_eq q p)

  matches-row_of :
      (o : Option QString) (p : QString) → matches p (some (row_of o)) ≡ has_password o p
  matches-row_of none p = refl
  matches-row_of (some q) p = refl

  has_password-some : (o : Option QString) (p : QString) → has_password o p ≡ true → o ≡ some p
  has_password-some none p h = cc
  has_password-some (some q) p h = ap some ((decide_iff (qstring_eq q p)).0 h)

  is_positive-count_of :
      (o : Option QString) → is_positive (some (integer (count_of o) ∷ [])) ≡ is_some o
  is_positive-count_of none = refl
  is_positive-count_of (some q) = refl

module _ ⦃qt : Qt⦄ {Db : Type 0} ⦃sql : Sql Db⦄ where
  open qt use {QString, qstring_eq}
  open sql use {
    open_db, exec, password_of, selects, counts, inserts, insert_present, failed_keeps,
    select_keeps, count_keeps, count_all_keeps, create_keeps, open_keeps,
  }

  -- The statement does not fail.
  abbrev pub Answers : Statement → Db → Type 0
  Answers q d = is_some (exec q d).0 ≡ true

  rows_of :
      (q : Statement) (d : Db) → Answers q d → (rows : List Value) × ((exec q d).0 ≡ some rows)
  rows_of q d h = elim (Option-cases (exec q d).0) [
    | inl e ↦ absurd (cc)
    | inr (rows, e) ↦ (rows, e)
  ]

  -- Where its query does not fail, `checkUser` says whether the table holds this password for the
  -- user; it changes nothing.
  pub check_user-password_of :
      (u p : QString) (d : Db)
      → Answers (select_password u) d
      → check_user u p d ≡ (has_password (password_of d u) p, d)
  unfolding check_user
  check_user-password_of u p d h =
      let (rows, e) = rows_of (select_password u) d h in
      λ i. (
        (ap (matches p) (e ∙ ap some (selects u d rows e)) ∙ matches-row_of (password_of d u) p) i,
        select_keeps u d i,
      )

  -- A name and a password that `checkUser` accepts are in the table.
  pub check_user-accepts :
      (u p : QString) (d : Db) → (check_user u p d).0 ≡ true → password_of d u ≡ some p
  unfolding check_user
  check_user-accepts u p d accepts = elim (Option-cases (exec (select_password u) d).0) [
    | inl e ↦ absurd (cc (ap (matches p) e, accepts))
    | inr (rows, e) ↦ has_password-some (password_of d u) p (
        sym (matches-row_of (password_of d u) p)
        ∙ ap (matches p) (sym (e ∙ ap some (selects u d rows e)))
        ∙ accepts)
  ]

  pub check_user-same : (u p : QString) (d : Db) → (check_user u p d).1 ≡ d
  unfolding check_user
  check_user-same u p d = select_keeps u d

  -- Where its query does not fail, `userExists` says whether the table has the user; it changes
  -- nothing.
  pub user_exists-password_of :
      (u : QString) (d : Db)
      → Answers (count_user u) d
      → user_exists u d ≡ (is_some (password_of d u), d)
  unfolding user_exists
  user_exists-password_of u d h =
      let (rows, e) = rows_of (count_user u) d h in
      λ i. (
        (ap is_positive (e ∙ ap some (counts u d rows e)) ∙ is_positive-count_of (password_of d u))
            i,
        count_keeps u d i,
      )

  -- `addUser` says whether it added the user. If it did, the user was new, has this password now, and
  -- all others keep theirs; if it did not, nothing has changed.
  pub add_user-password_of :
      (u p : QString) (d : Db)
      → (((add_user u p d).0 ≡ true)
          × (password_of d u ≡ none)
          × ((v : QString)
              → password_of (add_user u p d).1 v
                ≡ (if decide (qstring_eq u v) then some p else password_of d v)))
        ⊎ (((add_user u p d).0 ≡ false) × ((add_user u p d).1 ≡ d))
  unfolding add_user
  add_user-password_of u p d = elim (Option-cases (exec (insert_user u p) d).0) [
    | inl e ↦ inr (ap is_some e, failed_keeps (insert_user u p) d e)
    | inr (rows, e) ↦ inl (ap is_some e, was_new rows e, inserts u p d rows e)
  ]
    where
      was_new :
          (rows : List Value) → (exec (insert_user u p) d).0 ≡ some rows → password_of d u ≡ none
      was_new rows e = elim (Option-cases (password_of d u)) [
        | inl new ↦ new
        | inr (q, taken) ↦ absurd (cc (insert_present u p q d taken, e))
      ]

  -- A user that `addUser` added is there, and has the password it was added with and no other,
  -- wherever the queries do not fail.
  pub check_user-add_user :
      (u p q : QString) (d : Db)
      → (add_user u p d).0 ≡ true
      → Answers (select_password u) (add_user u p d).1
      → Answers (count_user u) (add_user u p d).1
      → ((check_user u q (add_user u p d).1).0 ≡ decide (qstring_eq p q))
        × ((user_exists u (add_user u p d).1).0 ≡ true)
  check_user-add_user u p q d added answers counted = elim (add_user-password_of u p d) [
    | inl (_, _, h) ↦
        let known : password_of (add_user u p d).1 u ≡ some p =
          h u
          ∙ ap (λ b. if b then some p else password_of d u)
              ((decide_iff (qstring_eq u u)).1 refl) in
        (
          ap (λ (r : Bool × Db). r.0) (check_user-password_of u q _ answers)
              ∙ ap (λ o. has_password o q) known,
          ap (λ (r : Bool × Db). r.0) (user_exists-password_of u _ counted) ∙ ap is_some known,
        )
    | inr (refused, _) ↦ absurd (cc)
  ]

  -- Wherever the users of `d` keep their passwords.
  abbrev Keeps : Db → Db → Type 0
  Keeps d d' = (u q : QString) → password_of d u ≡ some q → password_of d' u ≡ some q

  add_user-Keeps : (v p : QString) (d : Db) → Keeps d (add_user v p d).1
  add_user-Keeps v p d u q h = elim (add_user-password_of v p d) [
    | inl (_, new, others) ↦
        others u
        ∙ if_intro (λ o. o ≡ some q) (decide (qstring_eq v u))
            (λ same.
              absurd (cc (new, ap (password_of d) ((decide_iff (qstring_eq v u)).0 same), h)))
            (λ _. h)
    | inr (_, same) ↦ ap (λ e. password_of e u) same ∙ h
  ]

  seed-Keeps : (d : Db) → Keeps d (seed d)
  unfolding seed add_test_user
  seed-Keeps d u q h =
      let kept : password_of (exec count_all d).1 u ≡ some q =
        ap (λ e. password_of e u) (count_all_keeps d) ∙ h in
      if_intro (λ e. password_of e u ≡ some q) (is_zero (exec count_all d).0)
        (λ _. add_user-Keeps _ _ (exec count_all d).1 u q kept) (λ _. kept)

  create-Keeps : (d d' : Db) → create d ≡ some d' → Keeps d d'
  unfolding create
  create-Keeps d d' e u q h = elim (Option-cases (exec create_table d).0) [
    | inl failed ↦ absurd (cc (failed, e))
    | inr (rows, ok) ↦
        let same : some (seed (exec create_table d).1) ≡ some d' =
          sym (ap (λ o. if is_some o then some (seed (exec create_table d).1) else none) ok) ∙ e in
        subst (λ d''. password_of d'' u ≡ some q) (cc same)
          (seed-Keeps (exec create_table d).1 u q (create_keeps d u ∙ h))
  ]

  -- `initialize` either throws or leaves every user that the database had, with the same password.
  pub initialize-Keeps :
      (d d' : Db) (u q : QString)
      → initialize d ≡ some d'
      → password_of d u ≡ some q
      → password_of d' u ≡ some q
  unfolding initialize
  initialize-Keeps d d' u q e h = elim (Option-cases (open_db d)) [
    | inl failed ↦ absurd (cc (failed, e))
    | inr (opened, ok) ↦
        create-Keeps opened d'
          (sym (ap (λ (o : Option Db). elim o [ none ↦ none | some x ↦ create x ]) ok) ∙ e) u q
          (open_keeps d opened u ok ∙ h)
  ]
