-- ===== src/ClientManager/Invariant.antt =====
-- What every method of client_manager.cpp preserves: one entry for a client, each session under its
-- own identifier, and a bounded history.
use qt_messenger.Prelude.{◌≤◌, ◌≡◌, none, List, [], ◌∷◌, All, length, decide, if◌then◌else◌, arith}
use qt_messenger.Qt.{Qt}
use qt_messenger.Session.{ClientSession}
use qt_messenger.UnorderedMap.{
  find, Distinct, find-erase, emplace-Distinct, erase-Distinct, All-emplace, All-erase,
}
use qt_messenger.ClientManager.{
  ClientManager, Call, add, remove, broadcast, send_to, clears, max_history_size, new_manager,
  add_client, remove_client, broadcast_message, clear, perform, run,
}
use qt_messenger.ClientManager.History.{length-push_message}

module _ ⦃qt : Qt⦄ {S : Type 0} ⦃session : ClientSession S⦄ where
  open qt use {Uuid, uuid_eq}
  open session use {uuid}

  -- A session stands under its own identifier.
  abbrev pub IsKeyed : Uuid × S → Type 0
  IsKeyed (id, s) = uuid s ≡ id

  pub record IsValid (cm : ClientManager S) : Type 0 where
    pub distinct : Distinct uuid_eq cm.clients
    pub keyed : All IsKeyed cm.clients
    pub bounded : length cm.chat_history ≤ max_history_size

  -- Clients are added under their own identifiers.
  abbrev pub AddsKeyed : Call S → Type 0
  AddsKeyed (add id s) = uuid s ≡ id
  AddsKeyed _ = Unit

  pub new_manager-IsValid : IsValid (new_manager {S = S})
  unfolding new_manager
  new_manager-IsValid = record { distinct = tt; keyed = tt; bounded = omega arith }

  pub perform-IsValid :
      (c : Call S) (cm : ClientManager S) → AddsKeyed c → IsValid cm → IsValid (perform c cm).0
  unfolding perform add_client remove_client broadcast_message clear new_manager
  perform-IsValid (add id s) cm k v = record {
    distinct = emplace-Distinct uuid_eq id s cm.clients v.distinct;
    keyed = All-emplace uuid_eq IsKeyed id s cm.clients k v.keyed;
    bounded = v.bounded;
  }
  perform-IsValid (remove id) cm k v = record {
    distinct = erase-Distinct uuid_eq id cm.clients v.distinct;
    keyed = All-erase uuid_eq IsKeyed id cm.clients v.keyed;
    bounded = v.bounded;
  }
  perform-IsValid (broadcast m) cm k v = record {
    distinct = v.distinct;
    keyed = v.keyed;
    bounded = length-push_message m cm.chat_history v.bounded;
  }
  perform-IsValid (send_to id m) cm k v = v
  perform-IsValid clears cm k v = new_manager-IsValid

  -- Any calls, in any order, keep a valid state valid (one entry for a client, each session under
  -- its own identifier, at most a hundred messages of history), if clients are added under their own
  -- identifiers.
  pub run-IsValid :
      (cs : List (Call S)) (cm : ClientManager S)
      → All AddsKeyed cs
      → IsValid cm
      → IsValid (run cs cm).0
  unfolding run
  run-IsValid [] cm k v = v
  run-IsValid (c ∷ cs) cm k v = run-IsValid cs (perform c cm).0 k.1 (perform-IsValid c cm k.0 v)

  -- A client that was removed is not found, and every other entry stays as it was.
  pub find-remove_client :
      (id j : Uuid) (cm : ClientManager S)
      → find uuid_eq j (remove_client id cm).clients
        ≡ (if decide (uuid_eq id j) then none else find uuid_eq j cm.clients)
  unfolding remove_client
  find-remove_client id j cm = find-erase uuid_eq id j cm.clients
