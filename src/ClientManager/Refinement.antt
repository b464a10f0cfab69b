-- ===== src/ClientManager/Refinement.antt =====
-- The methods of client_manager.cpp implement the room of its specification.
use qt_messenger.Prelude.{
  ◌≡◌, ◌≢◌, refl, sym, ap, ap₂, ◌∙◌, true, false, Option, none, some, List, [], ◌∷◌, ◌++◌, map,
  map-append, subst, All, last, is_some, decide, decide_iff, if◌then◌else◌,
}
use qt_messenger.Qt.{Qt}
use qt_messenger.Message.{Message, write_message}
use qt_messenger.Session.{ClientSession}
use qt_messenger.UnorderedMap.{
  find, find-erase, find-emplace_any, kept, All-emplace, All-erase, All-find,
}
use qt_messenger.ClientManager.{
  ClientManager, Call, add, remove, broadcast, send_to, clears, max_history_size, push_message,
  new_manager, replay_to, add_client, remove_client, broadcast_message, clear, perform, run,
}
use qt_messenger.ClientManager.History.{push_message-last}
use qt_messenger.ClientManager.Invariant.{IsValid, AddsKeyed, new_manager-IsValid, perform-IsValid}
use qt_messenger.ClientManager.Delivery.{
  received, received-append, delivered, received-broadcast, received-send_to, received-replay,
  received-replay_to_other, find-IsKeyed,
}
use qt_messenger.ClientManager.Room.{Room, happen, hears, all_happen, all_heard}

module _ ⦃qt : Qt⦄ {S : Type 0} ⦃session : ClientSession S⦄ where
  open qt use {Uuid, uuid_eq}
  open session use {uuid, is_authenticated}

  -- The manager's state stands for the room.
  pub record Implements (cm : ClientManager S) (r : Room S) : Type 0 where
    pub valid : IsValid cm
    pub authenticated : All (λ (c : Uuid × S). is_authenticated c.1 ≡ true) cm.clients
    pub members : (k : Uuid) → find uuid_eq k cm.clients ≡ r.member k
    pub history : cm.chat_history ≡ last max_history_size r.said

  -- Clients are added authenticated, under their own identifiers.
  abbrev pub AddsReady : Call S → Type 0
  AddsReady (add id s) = (uuid s ≡ id) × (is_authenticated s ≡ true)
  AddsReady _ = Unit

  AddsReady-keyed : (c : Call S) → AddsReady c → AddsKeyed c
  AddsReady-keyed (add id s) h = h.0
  AddsReady-keyed (remove id) h = tt
  AddsReady-keyed (broadcast m) h = tt
  AddsReady-keyed (send_to id m) h = tt
  AddsReady-keyed clears h = tt

  happen-Implements :
      (c : Call S) (cm : ClientManager S) (r : Room S)
      → AddsReady c
      → Implements cm r
      → Implements (perform c cm).0 (happen c r)
  unfolding perform add_client remove_client broadcast_message clear new_manager find
  happen-Implements (add id s) cm r k h = record {
    valid = perform-IsValid (add id s) cm k.0 h.valid;
    authenticated =
        All-emplace uuid_eq (λ (c : Uuid × S). is_authenticated c.1 ≡ true) id s cm.clients k.1
          h.authenticated;
    members = λ j.
        find-emplace_any uuid_eq id j s cm.clients
        ∙ ap₂ (λ o p. if decide (uuid_eq id j) then some (kept o s) else p) (h.members id)
            (h.members j);
    history = h.history;
  }
  happen-Implements (remove id) cm r k h = record {
    valid = perform-IsValid (remove id) cm tt h.valid;
    authenticated =
        All-erase uuid_eq (λ (c : Uuid × S). is_authenticated c.1 ≡ true) id cm.clients
          h.authenticated;
    members = λ j.
        find-erase uuid_eq id j cm.clients
        ∙ ap (λ o. if decide (uuid_eq id j) then none else o) (h.members j);
    history = h.history;
  }
  happen-Implements (broadcast m) cm r k h = record {
    valid = perform-IsValid (broadcast m) cm tt h.valid;
    authenticated = h.authenticated;
    members = h.members;
    history = ap (push_message m) h.history ∙ push_message-last m r.said;
  }
  happen-Implements (send_to id m) cm r k h = h
  happen-Implements clears cm r k h = record {
    valid = new_manager-IsValid;
    authenticated = tt;
    members = λ j. refl;
    history = refl;
  }

  member_ready :
      (k : Uuid) (s : S) (cm : ClientManager S) (r : Room S)
      → Implements cm r
      → find uuid_eq k cm.clients ≡ some s
      → (uuid s ≡ k) × (is_authenticated s ≡ true)
  member_ready k s cm r h e = (
    find-IsKeyed k s cm.clients h.valid.keyed e,
    All-find uuid_eq (λ (c : Uuid × S). is_authenticated c.1 ≡ true) k s cm.clients h.authenticated
        e,
  )

  delivered_all :
      (o : Option S) (m : Message)
      → ((s : S) → o ≡ some s → is_authenticated s ≡ true)
      → delivered o m ≡ map write_message (if is_some o then m ∷ [] else [])
  delivered_all none m h = refl
  delivered_all (some s) m h = rw (h s refl) refl

  delivered_member :
      (id : Uuid) (cm : ClientManager S) (r : Room S) (m : Message)
      → Implements cm r
      → delivered (find uuid_eq id cm.clients) m
        ≡ map write_message (if is_some (r.member id) then m ∷ [] else [])
  delivered_member id cm r m h =
      delivered_all (find uuid_eq id cm.clients) m (λ s e. (member_ready id s cm r h e).1)
      ∙ ap (λ (o : Option S). map write_message (if is_some o then m ∷ [] else [])) (h.members id)

  newcomer_hears :
      (id : Uuid) (s : S) (cm : ClientManager S) (r : Room S)
      → AddsReady (add id s)
      → Implements cm r
      → received id (perform (add id s) cm).1 ≡ map write_message (last max_history_size r.said)
  unfolding perform add_client
  newcomer_hears id s cm r k h =
      let t : S = kept (find uuid_eq id cm.clients) s in
      let found : find uuid_eq id (perform (add id s) cm).0.clients ≡ some t =
        find-emplace_any uuid_eq id id s cm.clients
        ∙ ap (λ b. if b then some t else find uuid_eq id cm.clients)
            ((decide_iff (uuid_eq id id)).1 refl) in
      let ready =
        member_ready id t (perform (add id s) cm).0 (happen (add id s) r)
          (happen-Implements (add id s) cm r k h) found in
      rw (found, replay_to)
        (received-replay id t cm.chat_history ready.0 ready.1 ∙ ap (map write_message) h.history)

  other_hears_nothing :
      (id j : Uuid) (s : S) (cm : ClientManager S) (r : Room S)
      → AddsReady (add j s)
      → Implements cm r
      → j ≢ id
      → received id (perform (add j s) cm).1 ≡ []
  unfolding perform add_client
  other_hears_nothing id j s cm r k h n =
      received-replay_to_other id j _ cm.chat_history
        (λ t e.
          (member_ready j t (perform (add j s) cm).0 (happen (add j s) r)
            (happen-Implements (add j s) cm r k h) e).0)
        n

  received-hears :
      (id : Uuid) (c : Call S) (cm : ClientManager S) (r : Room S)
      → AddsReady c
      → Implements cm r
      → received id (perform c cm).1 ≡ map write_message (hears id c r)
  unfolding perform
  received-hears id (add j s) cm r k h =
      elim (uuid_eq j id)
        as (λ d.
          received id (perform (add j s) cm).1
          ≡ map write_message (if decide d then last max_history_size r.said else [])) [
            | yes e ↦
                subst
                  (λ x.
                    received x (perform (add j s) cm).1
                    ≡ map write_message (last max_history_size r.said))
                  e (newcomer_hears j s cm r k h)
            | no n ↦ other_hears_nothing id j s cm r k h n
          ]
  received-hears id (remove j) cm r k h = refl
  received-hears id (broadcast m) cm r k h =
      received-broadcast id m cm h.valid ∙ delivered_member id cm r m h
  received-hears id (send_to j m) cm r k h =
      received-send_to id j m cm h.valid
      ∙ elim (decide (uuid_eq j id))
          as (λ b.
            (if b then delivered (find uuid_eq id cm.clients) m else [])
            ≡ map write_message
                (if b then (if is_some (r.member id) then m ∷ [] else []) else [])) [
                  | true ↦ delivered_member id cm r m h
                  | false ↦ refl
                ]
  received-hears id clears cm r k h = refl

  -- From a state that stands for a room, any calls that add clients authenticated and under their own
  -- identifiers lead to a state that stands for the room after the same calls, and each client is sent
  -- exactly the frames of the messages that it hears in the room, in order.
  pub run-Implements :
      (cs : List (Call S)) (cm : ClientManager S) (r : Room S)
      → All AddsReady cs
      → Implements cm r
      → Implements (run cs cm).0 (all_happen cs r)
        × ((id : Uuid) → received id (run cs cm).1 ≡ map write_message (all_heard id cs r))
  unfolding run
  run-Implements [] cm r k h = (h, λ id. refl)
  run-Implements (c ∷ cs) cm r k h =
      let rest =
        run-Implements cs (perform c cm).0 (happen c r) k.1 (happen-Implements c cm r k.0 h) in
      (
        rest.0,
        λ id.
            received-append id (perform c cm).1 (run cs (perform c cm).0).1
            ∙ ap₂ ◌++◌ (received-hears id c cm r k.0 h) (rest.1 id)
            ∙ sym (map-append _ _ _),
      )

  pub new_manager-Implements :
      Implements (new_manager {S = S}) (record { member = λ k. none; said = [] })
  unfolding new_manager find
  new_manager-Implements = record {
    valid = new_manager-IsValid;
    authenticated = tt;
    members = λ k. refl;
    history = refl;
  }

  -- Two states that stand for the same room, whatever the order of their maps, send every client the
  -- same frames through the same calls, if these add clients authenticated and under their own
  -- identifiers.
  pub received_same_room :
      (cs : List (Call S)) (cm cm' : ClientManager S) (r : Room S) (id : Uuid)
      → All AddsReady cs
      → Implements cm r
      → Implements cm' r
      → received id (run cs cm).1 ≡ received id (run cs cm').1
  received_same_room cs cm cm' r id k h h' =
      (run-Implements cs cm r k h).1 id ∙ sym ((run-Implements cs cm' r k h').1 id)
