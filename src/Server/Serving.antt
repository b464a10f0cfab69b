-- ===== src/Server/Serving.antt =====
-- The client manager inside the server: valid, and with authenticated clients only.
use qt_messenger.Prelude.{inl, inr, Bool-cases, All}
use qt_messenger.Qt.{Qt}
use qt_messenger.Message.{Message}
use qt_messenger.Session.Boost.{BoostAsioClientSession, wrapped_session}
use qt_messenger.UnorderedMap.{All-emplace, All-erase}
use qt_messenger.ClientManager.{
  ClientManager, add, remove, broadcast, new_manager, add_client, remove_client, broadcast_message,
  perform,
}
use qt_messenger.ClientManager.Invariant.{IsValid, new_manager-IsValid, perform-IsValid}
use qt_messenger.MessageHandler.{handle_message, is_user_list_request}
use qt_messenger.Server.Auth.{IsReady}

module _ ⦃qt : Qt⦄ where
  open qt use {Uuid, DateTime, uuid_eq}

  abbrev pub Manager : Type 0
  Manager = ClientManager BoostAsioClientSession

  -- A manager in order, whose clients are all authenticated.
  pub record IsServing (cm : Manager) : Type 0 where
    pub valid : IsValid cm
    pub ready : All IsReady cm.clients

  pub new_manager-IsServing : IsServing new_manager
  unfolding new_manager
  new_manager-IsServing = record { valid = unfold new_manager in new_manager-IsValid; ready = tt }

  pub add_client-IsServing :
      (id : Uuid) (session : BoostAsioClientSession) (cm : Manager)
      → IsReady (id, session)
      → IsServing cm
      → IsServing (add_client id session cm).0
  unfolding perform add_client
  add_client-IsServing id session cm r v = record {
    valid = perform-IsValid (add id session) cm r.own v.valid;
    ready = All-emplace uuid_eq IsReady id session cm.clients r v.ready;
  }

  pub remove_client-IsServing :
      (id : Uuid) (cm : Manager) → IsServing cm → IsServing (remove_client id cm)
  unfolding perform remove_client
  remove_client-IsServing id cm v = record {
    valid = perform-IsValid (remove id) cm tt v.valid;
    ready = All-erase uuid_eq IsReady id cm.clients v.ready;
  }

  broadcast-IsServing :
      (m : Message) (cm : Manager) → IsServing cm → IsServing (broadcast_message m cm).0
  unfolding perform broadcast_message
  broadcast-IsServing m cm v = record {
    valid = perform-IsValid (broadcast m) cm tt v.valid;
    ready = v.ready;
  }

  pub handle_message-IsServing :
      (fresh : Uuid) (now : DateTime) (m : Message) (sender : Uuid) (cm : Manager)
      → IsServing cm
      → IsServing (handle_message fresh now m sender cm).0
  unfolding handle_message
  handle_message-IsServing fresh now m sender cm v = elim (Bool-cases (is_user_list_request m)) [
    | inl e ↦ rw e v
    | inr e ↦ rw e (broadcast-IsServing m cm v)
  ]
