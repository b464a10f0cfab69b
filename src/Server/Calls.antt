-- ===== src/Server/Calls.antt =====
-- The calls of the client manager (client_manager.cpp) that the handlers of multithreaded_server.cpp
-- and boost_asio_client_session.cpp make: what the server does to its clients is what they do.
use qt_messenger.Prelude.{
  ℕ, suc, Bool, not, ◌||◌, ◌==◌, Option, none, some, List, [], ◌∷◌, ◌++◌, Bytes, if◌then◌else◌,
}
use qt_messenger.Qt.{Qt, open_read}
use qt_messenger.Reader.{Outcome, returned, threw}
use qt_messenger.Message.{Message, blank, read_message}
use qt_messenger.Session.Boost.{BoostAsioClientSession, wrapped_session}
use qt_messenger.UnorderedMap.{find}
use qt_messenger.ClientManager.{Call, add, remove, broadcast, send_to, get_usernames}
use qt_messenger.MessageHandler.{is_user_list_request, user_list_response}
use qt_messenger.Server.{
  Server, Completion, accepted, credentials, read_done, CheckUser, authenticate_client,
  read_credentials, is_outstanding, step,
}
use qt_messenger.Server.Auth.{admitted}
use qt_messenger.Server.Serving.{Manager}

module _ ⦃qt : Qt⦄ where
  open qt use {Uuid, DateTime, uuid_eq}

  abbrev pub Calls : Type 0
  Calls = List (Call BoostAsioClientSession)

  unfoldable pub calls_of_message : Uuid → DateTime → Message → Uuid → Manager → Calls
  calls_of_message fresh now m sender cm =
      if is_user_list_request m
      then send_to sender (user_list_response fresh now (get_usernames cm)) ∷ []
      else broadcast m ∷ []

  unfoldable pub calls_of_parsed :
      Uuid → DateTime → BoostAsioClientSession → Outcome Message → Manager → Calls
  unfolding calls_of_message
  calls_of_parsed fresh now session (returned m) cm =
      if session.message_callback then calls_of_message fresh now m session.uuid cm else []
  calls_of_parsed fresh now session threw cm = []

  unfoldable pub calls_of_leaving : BoostAsioClientSession → Calls
  calls_of_leaving session = if session.disconnect_callback then remove session.uuid ∷ [] else []

  unfoldable pub calls_of_read :
      Uuid → DateTime → BoostAsioClientSession → Option Bytes → Manager → Calls
  unfolding calls_of_parsed calls_of_leaving
  calls_of_read fresh now session none cm = calls_of_leaving session
  calls_of_read fresh now session (some received) cm =
      if not session.authenticated
      then calls_of_leaving session
      else calls_of_parsed fresh now session (read_message blank (open_read received)).0 cm

  unfoldable pub calls_of_session :
      Uuid → DateTime → Option BoostAsioClientSession → Option Bytes → Manager → Calls
  unfolding calls_of_read
  calls_of_session fresh now none received cm = []
  calls_of_session fresh now (some session) received cm =
      calls_of_read fresh now session received cm

  unfoldable pub calls_of_login : CheckUser → Uuid → Outcome (Bytes × Bytes) → Calls
  calls_of_login db id (returned (u, p)) =
      if authenticate_client db u p then add id (admitted id u p) ∷ [] else []
  calls_of_login db id threw = []

  -- The calls of one completion, if it is run.
  unfoldable pub calls_of : CheckUser → Completion → Server → Calls
  unfolding calls_of_session calls_of_login
  calls_of db (accepted result) s = []
  calls_of db (credentials socket none id) s = []
  calls_of db (credentials socket (some received) id) s =
      calls_of_login db id (read_credentials (open_read received)).0
  calls_of db (read_done id received fresh now) s =
      calls_of_session fresh now (find uuid_eq id s.sessions) received s.manager

  -- The completion is not run.
  abbrev pub is_idle : Completion → Server → Bool
  is_idle c s = s.io_stopped || s.threads == 0 || not (is_outstanding c s)

  unfoldable pub calls_at : CheckUser → Completion → Server → Calls
  unfolding calls_of
  calls_at db c s = if is_idle c s then [] else calls_of db c s

  -- All calls, in the order in which the completions are run.
  unfoldable pub all_calls : (ℕ → CheckUser) → List Completion → Server → Calls
  unfolding calls_at
  all_calls dbs [] s = []
  all_calls dbs (c ∷ cs) s =
      calls_at (dbs 0) c s ++ all_calls (λ k. dbs (suc k)) cs (step (dbs 0) c s).0
