-- ===== src/ClientManager/Runs.antt =====
-- Calls of client_manager.cpp one after the other.
use qt_messenger.Prelude.{◌≡◌, refl, sym, ap, ◌∙◌, List, [], ◌∷◌, ◌++◌, append-nil, append_assoc}
use qt_messenger.Qt.{Qt}
use qt_messenger.Session.{Write, ClientSession}
use qt_messenger.ClientManager.{ClientManager, Call, perform, run}

module _ ⦃qt : Qt⦄ {S : Type 0} ⦃session : ClientSession S⦄ where
  pub run_one : (c : Call S) (cm : ClientManager S) → run (c ∷ []) cm ≡ perform c cm
  unfolding run
  run_one c cm = λ i. ((perform c cm).0, append-nil (perform c cm).1 i)

  pub run-append :
      (cs ds : List (Call S)) (cm : ClientManager S)
      → run (cs ++ ds) cm ≡ ((run ds (run cs cm).0).0, (run cs cm).1 ++ (run ds (run cs cm).0).1)
  unfolding run
  run-append [] ds cm = refl
  run-append (c ∷ cs) ds cm =
      ap (λ (r : ClientManager S × List Write). (r.0, (perform c cm).1 ++ r.1))
        (run-append cs ds (perform c cm).0)
      ∙ ap (λ ws. ((run ds (run cs (perform c cm).0).0).0, ws))
          (sym (
            append_assoc (perform c cm).1 (run cs (perform c cm).0).1
              (run ds (run cs (perform c cm).0).0).1))

  -- What some calls do and what further calls do then is what all of them do.
  pub run_both :
      (cs ds : List (Call S)) (cm cm' cm'' : ClientManager S) (ws vs : List Write)
      → (cm', ws) ≡ run cs cm
      → (cm'', vs) ≡ run ds cm'
      → (cm'', ws ++ vs) ≡ run (cs ++ ds) cm
  run_both cs ds cm cm' cm'' ws vs e f =
      ap (λ (r : ClientManager S × List Write). (r.0, ws ++ r.1)) f
      ∙ ap (λ (r : ClientManager S × List Write). ((run ds r.0).0, r.1 ++ (run ds r.0).1)) e
      ∙ sym (run-append cs ds cm)
