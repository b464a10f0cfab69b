-- ===== src/Server/Lifecycle.antt =====
-- `start` and `stop` of multithreaded_server.cpp.
use qt_messenger.Prelude.{ℕ, suc, ◌≡◌, refl, true, false, List, [], ◌∷◌, arith}
use qt_messenger.Qt.{Qt}
use qt_messenger.ClientManager.{clear}
use qt_messenger.Server.{Server, Completion, CheckUser, start, stop, step, run}

module _ ⦃qt : Qt⦄ where
  open qt use {Uuid, DateTime}

  -- `start` on a running server, and `stop` on one that does not run, change nothing.
  pub start-start : (s : Server) → start (start s) ≡ start s
  unfolding start
  start-start s = ground arith

  pub stop-stop : (s : Server) → stop (stop s) ≡ stop s
  unfolding stop
  stop-stop s = ground arith

  -- A running server that is stopped has no client, no history and no thread.
  pub stop_clears :
      (s : Server)
      → s.running ≡ true
      → ((stop s).manager.clients ≡ [])
        × ((stop s).manager.chat_history ≡ [])
        × ((stop s).threads ≡ 0)
        × ((stop s).running ≡ false)
  unfolding stop clear
  stop_clears s h = ground arith

  stopped_step :
      (db : CheckUser) (c : Completion) (s : Server) → s.io_stopped ≡ true → step db c s ≡ (s, [])
  unfolding step
  stopped_step db c s h = rw h

  stopped_run :
      (dbs : ℕ → CheckUser) (cs : List Completion) (s : Server)
      → s.io_stopped ≡ true
      → run dbs cs s ≡ (s, [])
  unfolding run
  stopped_run dbs [] s h = refl
  stopped_run dbs (c ∷ cs) s h =
      rw (stopped_step (dbs 0) c s h, stopped_run (λ k. dbs (suc k)) cs s h)

  -- A running server that is stopped serves nobody again: `start` makes it running, and yet no
  -- completion has any effect, because the context is never restarted.
  pub restart_is_dead :
      (dbs : ℕ → CheckUser) (cs : List Completion) (s : Server)
      → s.running ≡ true
      → ((start (stop s)).running ≡ true) × (run dbs cs (start (stop s)) ≡ (start (stop s), []))
  unfolding start stop
  restart_is_dead dbs cs s h = (ground arith, stopped_run dbs cs _ (ground arith))
