-- ===== src/ClientManager/Joining.antt =====
-- A client of client_manager.cpp from the moment it joins: the history first, then every message.
use qt_messenger.Prelude.{
  ◌≡◌, ◌≢◌, refl, sym, ap, ap₂, ◌∙◌, true, none, some, List, [], ◌∷◌, ◌++◌, map, map-append, All,
  decide, decide_iff, if◌then◌else◌, last, arith,
}
use qt_messenger.Qt.{Qt}
use qt_messenger.Message.{Message, write_message}
use qt_messenger.Session.{ClientSession}
use qt_messenger.UnorderedMap.{find, find-erase, find-emplace_ne, find-emplace_self}
use qt_messenger.ClientManager.{
  ClientManager, Call, add, remove, broadcast, send_to, clears, max_history_size, new_manager,
  replay_to, add_client, remove_client, broadcast_message, perform, run,
}
use qt_messenger.ClientManager.Invariant.{
  IsValid, AddsKeyed, new_manager-IsValid, perform-IsValid, run-IsValid,
}
use qt_messenger.ClientManager.History.{broadcasts, chat_history-run}
use qt_messenger.ClientManager.Delivery.{
  received, received-append, delivered, received-broadcast, received-send_to, received-replay,
  received-replay_to_other, find-IsKeyed,
}

module _ ⦃qt : Qt⦄ {S : Type 0} where
  open qt use {Uuid, uuid_eq}

  -- A call that neither adds nor removes the client `id`.
  abbrev pub Spares : Uuid → Call S → Type 0
  Spares id (add j s) = j ≢ id
  Spares id (remove j) = j ≢ id
  Spares id clears = ⊥
  Spares id _ = Unit

  -- The messages that a call has for the client `id`.
  abbrev pub addressed : Uuid → Call S → List Message
  addressed id (broadcast m) = m ∷ []
  addressed id (send_to j m) = if decide (uuid_eq j id) then m ∷ [] else []
  addressed id _ = []

  abbrev pub all_addressed : Uuid → List (Call S) → List Message
  all_addressed id [] = []
  all_addressed id (c ∷ cs) = addressed id c ++ all_addressed id cs

module _ ⦃qt : Qt⦄ {S : Type 0} ⦃session : ClientSession S⦄ where
  open qt use {Uuid, uuid_eq}
  open session use {uuid, is_authenticated}

  -- `id` is connected, by the authenticated session `s`.
  pub record Connected (id : Uuid) (s : S) (cm : ClientManager S) : Type 0 where
    pub valid : IsValid cm
    pub found : find uuid_eq id cm.clients ≡ some s
    pub authenticated : is_authenticated s ≡ true

  delivered_some :
      (id : Uuid) (s : S) (cm : ClientManager S) (m : Message)
      → Connected id s cm
      → delivered (find uuid_eq id cm.clients) m ≡ write_message m ∷ []
  delivered_some id s cm m h = rw (h.found, h.authenticated)

  find-perform :
      (id : Uuid) (s : S) (c : Call S) (cm : ClientManager S)
      → Spares id c
      → find uuid_eq id cm.clients ≡ some s
      → find uuid_eq id (perform c cm).0.clients ≡ some s
  unfolding perform add_client remove_client broadcast_message
  find-perform id s (add j t) cm n h = find-emplace_ne uuid_eq j id t cm.clients n ∙ h
  find-perform id s (remove j) cm n h =
      ground (arith, find-erase uuid_eq j id cm.clients, decide_iff (uuid_eq j id))
  find-perform id s (broadcast m) cm n h = h
  find-perform id s (send_to j m) cm n h = h
  find-perform id s clears cm n h = absurd n

  perform-Connected :
      (id : Uuid) (s : S) (c : Call S) (cm : ClientManager S)
      → AddsKeyed c
      → Spares id c
      → Connected id s cm
      → Connected id s (perform c cm).0
  perform-Connected id s c cm k n h = record {
    valid = perform-IsValid c cm k h.valid;
    found = find-perform id s c cm n h.found;
    authenticated = h.authenticated;
  }

  received-add :
      (id j : Uuid) (t : S) (cm : ClientManager S)
      → uuid t ≡ j
      → j ≢ id
      → IsValid cm
      → received id (add_client j t cm).1 ≡ []
  unfolding add_client perform
  received-add id j t cm k n v =
      received-replay_to_other id j _ cm.chat_history
        (λ s p.
          find-IsKeyed j s (add_client j t cm).0.clients (perform-IsValid (add j t) cm k v).keyed p)
        n

  received-perform :
      (id : Uuid) (s : S) (c : Call S) (cm : ClientManager S)
      → AddsKeyed c
      → Spares id c
      → Connected id s cm
      → received id (perform c cm).1 ≡ map write_message (addressed id c)
  unfolding perform
  received-perform id s (add j t) cm k n h = received-add id j t cm k n h.valid
  received-perform id s (remove j) cm k n h = refl
  received-perform id s (broadcast m) cm k n h =
      received-broadcast id m cm h.valid ∙ delivered_some id s cm m h
  received-perform id s (send_to j m) cm k n h =
      received-send_to id j m cm h.valid ∙ ground (arith, delivered_some id s cm m h)
  received-perform id s clears cm k n h = absurd n

  -- A connected client is sent each message that is broadcast or addressed to it, once and in order,
  -- and nothing else, through any calls that do not add or remove it and add clients under their own
  -- identifiers only.
  pub received-run :
      (id : Uuid) (s : S) (cs : List (Call S)) (cm : ClientManager S)
      → All AddsKeyed cs
      → All (Spares id) cs
      → Connected id s cm
      → received id (run cs cm).1 ≡ map write_message (all_addressed id cs)
  unfolding run
  received-run id s [] cm k n h = refl
  received-run id s (c ∷ cs) cm k n h =
      received-append id (perform c cm).1 (run cs (perform c cm).0).1
      ∙ ap₂ ◌++◌ (received-perform id s c cm k.0 n.0 h)
          (received-run id s cs (perform c cm).0 k.1 n.1 (perform-Connected id s c cm k.0 n.0 h))
      ∙ sym (map-append _ _ _)

  module _ (id : Uuid) (s : S) (own : uuid s ≡ id) (auth : is_authenticated s ≡ true) where
    add-Connected :
        (cm : ClientManager S)
        → IsValid cm
        → find uuid_eq id cm.clients ≡ none
        → Connected id s (perform (add id s) cm).0
    unfolding perform add_client
    add-Connected cm v absent = record {
      valid = perform-IsValid (add id s) cm own v;
      found = find-emplace_self uuid_eq id s cm.clients absent;
      authenticated = auth;
    }

    received-add_self :
        (cm : ClientManager S)
        → find uuid_eq id cm.clients ≡ none
        → received id (perform (add id s) cm).1 ≡ map write_message cm.chat_history
    unfolding perform add_client
    received-add_self cm absent =
        rw (find-emplace_self uuid_eq id s cm.clients absent, replay_to)
          (received-replay id s cm.chat_history own auth)

  -- A client that joins after any calls on a new manager, authenticated and under its own
  -- identifier, which is not taken, is sent the last hundred messages broadcast before it came (since
  -- the last `clear`), and then each message that is broadcast or addressed to it through calls that
  -- do not add or remove it: each once, in order. All clients are added under their own identifiers.
  pub late_joiner :
      (id : Uuid) (s : S) (before after : List (Call S))
      → uuid s ≡ id
      → is_authenticated s ≡ true
      → All AddsKeyed before
      → All AddsKeyed after
      → All (Spares id) after
      → find uuid_eq id (run before new_manager).0.clients ≡ none
      → received id (run (add id s ∷ after) (run before new_manager).0).1
        ≡ map write_message (last max_history_size (broadcasts [] before) ++ all_addressed id after)
  unfolding run
  late_joiner id s before after own auth kb ka spared absent =
      let cm : ClientManager S = (run before new_manager).0 in
      let valid : IsValid cm = run-IsValid before new_manager kb new_manager-IsValid in
      received-append id (perform (add id s) cm).1 (run after (perform (add id s) cm).0).1
      ∙ ap₂ ◌++◌
          (received-add_self id s own auth cm absent
            ∙ ap (map write_message) (chat_history-run before))
          (received-run id s after _ ka spared (add-Connected id s own auth cm valid absent))
      ∙ sym (map-append _ _ _)
