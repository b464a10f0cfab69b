-- ===== src/Database.antt =====
-- common/include/database_manager.h, common/src/database_manager.cpp: the table of users. SQLite and
-- Qt's SQL module are not in the repository: `Sql` is what the code asks of them, with the documented
-- meaning of the five statements as laws. Any statement may fail.
pub mod Users
use qt_messenger.Prelude.{
  ℕ, ◌≡◌, is_some, ◌↔◌, Bool, false, Option, none, some, List, [], ◌∷◌, bytes, ltb, ◌==◌, decide,
  if◌then◌else◌,
}
use qt_messenger.Qt.{Qt}

module _ ⦃qt : Qt⦄ where
  open qt use {QString, qstring_eq, from_std_string}

  -- The statements, with their bound values.
  pub data Statement : Type 0 where
    -- CREATE TABLE IF NOT EXISTS users (username TEXT PRIMARY KEY, password TEXT NOT NULL)
    create_table : Statement
    -- SELECT COUNT(*) FROM users
    count_all : Statement
    -- INSERT INTO users (username, password) VALUES (?, ?)
    insert_user : QString → QString → Statement
    -- SELECT password FROM users WHERE username = ?
    select_password : QString → Statement
    -- SELECT COUNT(*) FROM users WHERE username = ?
    count_user : QString → Statement

  -- The first column of a row.
  pub data Value : Type 0 where
    integer : ℕ → Value
    string : QString → Value

  abbrev pub row_of : Option QString → List Value
  row_of none = []
  row_of (some p) = string p ∷ []

  abbrev pub count_of : Option QString → ℕ
  count_of none = 0
  count_of (some p) = 1

  pub record Sql (Db : Type 0) : Type 0 where
    -- `open`: the database, or nothing.
    pub open_db : Db → Option Db
    -- `exec`: the rows, or nothing where it fails.
    pub exec : Statement → Db → Option (List Value) × Db
    -- The password that the table holds for a user.
    pub password_of : Db → QString → Option QString
    -- Opening a database keeps what is in it.
    pub open_keeps :
        (d d' : Db) (u : QString) → open_db d ≡ some d' → password_of d' u ≡ password_of d u
    -- A statement that fails changes nothing, and so does a query.
    pub failed_keeps : (q : Statement) (d : Db) → (exec q d).0 ≡ none → (exec q d).1 ≡ d
    pub select_keeps : (u : QString) (d : Db) → (exec (select_password u) d).1 ≡ d
    pub count_keeps : (u : QString) (d : Db) → (exec (count_user u) d).1 ≡ d
    pub count_all_keeps : (d : Db) → (exec count_all d).1 ≡ d
    -- A table that is there keeps its rows; a new one has none that was not there.
    pub create_keeps :
        (d : Db) (u : QString) → password_of (exec create_table d).1 u ≡ password_of d u
    -- What the queries answer.
    pub selects :
        (u : QString) (d : Db) (rows : List Value)
        → (exec (select_password u) d).0 ≡ some rows
        → rows ≡ row_of (password_of d u)
    pub counts :
        (u : QString) (d : Db) (rows : List Value)
        → (exec (count_user u) d).0 ≡ some rows
        → rows ≡ integer (count_of (password_of d u)) ∷ []
    pub counts_all :
        (d : Db) (rows : List Value)
        → (exec count_all d).0 ≡ some rows
        → (n : ℕ) × (rows ≡ integer n ∷ []) × ((n ≡ 0) ↔ ((u : QString) → password_of d u ≡ none))
    -- The primary key: a user that is there makes the insertion fail.
    pub insert_present :
        (u p q : QString) (d : Db) → password_of d u ≡ some q → (exec (insert_user u p) d).0 ≡ none
    pub inserts :
        (u p : QString) (d : Db) (rows : List Value)
        → (exec (insert_user u p) d).0 ≡ some rows
        → (v : QString)
        → password_of (exec (insert_user u p) d).1 v
          ≡ (if decide (qstring_eq u v) then some p else password_of d v)

  -- `IDatabase`
  pub record IDatabase (D : Type 0) : Type 0 where
    pub add_user : QString → QString → D → Bool × D
    pub check_user : QString → QString → D → Bool × D
    pub user_exists : QString → D → Bool × D

  -- `query.value(0).toString() == password`, behind `query.exec()` and `query.next()`; the column is a
  -- TEXT, so the value is a string.
  abbrev pub matches : QString → Option (List Value) → Bool
  matches password (some (string stored ∷ rows)) = decide (qstring_eq stored password)
  matches password _ = false

  -- `query.value(0).toInt() > 0`, behind `query.exec()` and `query.next()`; COUNT(*) is an integer.
  abbrev pub is_positive : Option (List Value) → Bool
  is_positive (some (integer n ∷ rows)) = ltb 0 n
  is_positive _ = false

  -- `query.next() && query.value(0).toInt() == 0`
  abbrev pub is_zero : Option (List Value) → Bool
  is_zero (some (integer n ∷ rows)) = n == 0
  is_zero _ = false

module _ ⦃qt : Qt⦄ {Db : Type 0} ⦃sql : Sql Db⦄ where
  open qt use {QString, from_std_string}
  open sql use {open_db, exec}

  unfoldable pub add_user : QString → QString → Db → Bool × Db
  add_user username password d =
      let (rows, d') = exec (insert_user username password) d in (is_some rows, d')

  unfoldable pub check_user : QString → QString → Db → Bool × Db
  check_user username password d =
      let (rows, d') = exec (select_password username) d in (matches password rows, d')

  unfoldable pub user_exists : QString → Db → Bool × Db
  user_exists username d = let (rows, d') = exec (count_user username) d in (is_positive rows, d')

  unfoldable pub add_test_user : Db → Db
  unfolding add_user
  add_test_user d = (add_user (from_std_string (bytes "danya")) (from_std_string (bytes "123")) d).1

  -- The first user, where the table has none.
  unfoldable pub seed : Db → Db
  unfolding add_test_user
  seed d = let (rows, d') = exec count_all d in if is_zero rows then add_test_user d' else d'

  unfoldable pub create : Db → Option Db
  unfolding seed
  create d = let (rows, d') = exec create_table d in if is_some rows then some (seed d') else none

  -- `none` is a `DatabaseException`.
  unfoldable pub initialize : Db → Option Db
  unfolding create
  initialize d = elim (open_db d) [ none ↦ none | some d' ↦ create d' ]

  -- `DatabaseManager` as an `IDatabase`
  abbrev pub database_manager : IDatabase Db
  database_manager = record {
    add_user = add_user;
    check_user = check_user;
    user_exists = user_exists;
  }
