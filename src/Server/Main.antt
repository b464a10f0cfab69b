-- ===== src/Server/Main.antt =====
-- server/src/main_multithreaded.cpp: the database, the server over it, and its start.
use qt_messenger.Prelude.{
  ℕ, ◌==◌, true, if◌then◌else◌, ◌≤◌, ◌≡◌, refl, sym, ap, subst, ◌∙◌, inl, inr, false, Option,
  Option-cases, none, some, List, [], arith,
}
use qt_messenger.Qt.{Qt}
use qt_messenger.Database.{Sql, Value, row_of, matches, select_password, check_user, initialize}
use qt_messenger.Server.{
  Server, Completion, CheckUser, new_server, start, accept_connections, authenticate_client, run,
}
use qt_messenger.Server.Auth.{RefusesEmpty}
use qt_messenger.Server.Invariant.{IsSound, new_server-IsSound, start-IsSound, run-IsSound}
use qt_messenger.Server.Accepting.{loses, always-IsAccepting}

module _ ⦃qt : Qt⦄ where
  no_match :
      (o : Option (List Value)) (p : qt.QString)
      → ((rows : List Value) → o ≡ some rows → rows ≡ [])
      → matches p o ≡ false
  no_match none p h = refl
  no_match (some rows) p h = ap (λ r. matches p (some r)) (h rows refl)

  start-threads : (n : ℕ) → (start (new_server n)).threads ≡ n
  unfolding start new_server accept_connections
  start-threads n = omega arith

  reserved : (n : ℕ) → 4 ≤ n → (n == 0) ≡ false
  reserved n h = ground arith

module _ ⦃qt : Qt⦄ {Db : Type 0} ⦃sql : Sql Db⦄ where
  open qt use {from_std_string}
  open sql use {exec, password_of, selects}

  -- `m_dbManager->checkUser` on what the database holds at the moment
  abbrev pub checks : Db → CheckUser
  checks d = some (λ u p. (check_user u p d).0)

  -- `main`, up to the event loop: `none` is the exit with -1. `reserve` says what `capacity()` is behind
  -- `m_threads.reserve(thread_count)`.
  unfoldable pub serve : (ℕ → ℕ) → Db → Option (Server × Db)
  serve reserve d = elim (initialize d) [
    | none ↦ none
    | some d' ↦ some (start (new_server (reserve 4)), d')
  ]

  checks-RefusesEmpty :
      (d : Db) → password_of d (from_std_string []) ≡ none → RefusesEmpty (checks d)
  unfolding authenticate_client check_user
  checks-RefusesEmpty d absent p =
      no_match (exec (select_password (from_std_string [])) d).0 (from_std_string p)
        (λ rows e. selects (from_std_string []) d rows e ∙ ap row_of absent)

  served :
      (reserve : ℕ → ℕ) (d d' : Db) (s : Server)
      → serve reserve d ≡ some (s, d')
      → s ≡ start (new_server (reserve 4))
  unfolding serve
  served reserve d d' s e = elim (Option-cases (initialize d)) [
    | inl failed ↦ absurd (cc (failed, e))
    | inr (d'', ok) ↦ cc (
        sym (
          ap
            (λ (o : Option Db). elim o [
              | none ↦ none
              | some x ↦ some (start (new_server (reserve 4)), x)
            ])
            ok)
        ∙ e)
  ]

  -- If `main` gets to its event loop, then four threads at least run the server, and, whatever
  -- completes and in whatever order, the server stays sound, and it listens, with exactly one accept
  -- in progress, exactly until an accepted connection is lost before the server asks for its address:
  -- then the process ends. The database may change between the checks, but never has a user with the
  -- empty name; `reserve` reserves as much as it is asked for at least.
  pub serve-IsSound :
      (reserve : ℕ → ℕ) (d d' : Db) (s : Server) (ds : ℕ → Db) (cs : List Completion)
      → ((n : ℕ) → n ≤ reserve n)
      → serve reserve d ≡ some (s, d')
      → ((k : ℕ) → password_of (ds k) (from_std_string []) ≡ none)
      → let after = (run (λ k. checks (ds k)) cs s).0 in
        (4 ≤ s.threads)
        × IsSound after
        × (after.terminated ≡ loses cs)
        × (after.accepts ≡ (if loses cs then 0 else 1))
        × (after.running ≡ true)
  serve-IsSound reserve d d' s ds cs enough e absent =
      let started = served reserve d d' s e in
      let dbs : ℕ → CheckUser = λ k. checks (ds k) in
      let s' = start (new_server (reserve 4)) in
      let accepting = always-IsAccepting dbs cs (reserve 4) (reserved (reserve 4) (enough 4)) in
      subst
        (λ (x : Server).
          (4 ≤ x.threads)
          × IsSound (run dbs cs x).0
          × ((run dbs cs x).0.terminated ≡ loses cs)
          × ((run dbs cs x).0.accepts ≡ (if loses cs then 0 else 1))
          × ((run dbs cs x).0.running ≡ true))
        (sym started)
        (
          omega (arith, enough 4, start-threads (reserve 4)),
          run-IsSound dbs cs s' (λ k. checks-RefusesEmpty (ds k) (absent k))
              (start-IsSound _ (new_server-IsSound (reserve 4))),
          accepting.ended,
          accepting.one,
          accepting.running,
        )
