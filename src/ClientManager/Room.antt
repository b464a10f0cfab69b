-- ===== src/ClientManager/Room.antt =====
-- What client_manager.cpp promises, without the map, its order and the bounded history: a room with
-- its members and everything that was said since it was cleared.
use qt_messenger.Prelude.{
  Option, none, some, List, [], ◌∷◌, ◌++◌, last, is_some, decide, if◌then◌else◌,
}
use qt_messenger.Qt.{Qt}
use qt_messenger.Message.{Message}
use qt_messenger.UnorderedMap.{kept}
use qt_messenger.ClientManager.{Call, add, remove, broadcast, send_to, clears, max_history_size}

module _ ⦃qt : Qt⦄ (S : Type 0) where
  open qt use {Uuid}

  pub record Room : Type 0 where
    pub member : Uuid → Option S
    pub said : List Message

module _ ⦃qt : Qt⦄ {S : Type 0} where
  open qt use {Uuid, uuid_eq}

  -- A member that comes again stays who it was.
  abbrev pub happen : Call S → Room S → Room S
  happen (add id s) r = record r {
    member = λ k. if decide (uuid_eq id k) then some (kept (r.member id) s) else r.member k;
  }
  happen (remove id) r = record r {
    member = λ k. if decide (uuid_eq id k) then none else r.member k;
  }
  happen (broadcast m) r = record r { said = r.said ++ m ∷ [] }
  happen (send_to id m) r = r
  happen clears r = record { member = λ k. none; said = [] }

  -- The messages that `id` hears: the last hundred when it comes, what is said to all while it is a
  -- member, and what is said to it.
  abbrev pub hears : Uuid → Call S → Room S → List Message
  hears id (add j s) r = if decide (uuid_eq j id) then last max_history_size r.said else []
  hears id (broadcast m) r = if is_some (r.member id) then m ∷ [] else []
  hears id (send_to j m) r =
      if decide (uuid_eq j id) then (if is_some (r.member id) then m ∷ [] else []) else []
  hears id _ r = []

  abbrev pub all_happen : List (Call S) → Room S → Room S
  all_happen [] r = r
  all_happen (c ∷ cs) r = all_happen cs (happen c r)

  abbrev pub all_heard : Uuid → List (Call S) → Room S → List Message
  all_heard id [] r = []
  all_heard id (c ∷ cs) r = hears id c r ++ all_heard id cs (happen c r)
