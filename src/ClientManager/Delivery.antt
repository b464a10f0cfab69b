-- ===== src/ClientManager/Delivery.antt =====
-- Which messages a client of client_manager.cpp is sent: the history when it joins, then each
-- broadcast once, until it is removed.
use qt_messenger.Prelude.{
  ◌≡◌, ◌≢◌, refl, sym, subst, ap, ap₂, ◌∙◌, inl, inr, true, Option, none, some, List, [], ◌∷◌, ◌++◌,
  map, append-nil, All, Bytes, decide, decide_iff, Bool-cases, if◌then◌else◌, arith,
}
use qt_messenger.Qt.{Qt}
use qt_messenger.Message.{Message, write_message}
use qt_messenger.Session.{Write, ClientSession}
use qt_messenger.UnorderedMap.{find, Distinct, All-find}
use qt_messenger.ClientManager.{
  ClientManager, replay, replay_to, send_if_authenticated, send_all, send_found,
  send_message_to_client, broadcast_message,
}
use qt_messenger.ClientManager.Invariant.{IsKeyed, IsValid}

module _ ⦃qt : Qt⦄ where
  open qt use {Uuid, uuid_eq}

  -- The frames that were written to the socket of `id`, in order.
  abbrev pub received : Uuid → List Write → List Bytes
  received id [] = []
  received id (w ∷ ws) =
      let rest = received id ws in if decide (uuid_eq w.to id) then w.frame ∷ rest else rest

  pub received-append :
      (id : Uuid) (ws vs : List Write) → received id (ws ++ vs) ≡ received id ws ++ received id vs
  received-append id [] vs = refl
  received-append id (w ∷ ws) vs = ground (arith, received-append id ws vs)

  received_other :
      (id to : Uuid) (ws : List Write) → All (λ w. w.to ≡ to) ws → to ≢ id → received id ws ≡ []
  received_other id to [] h n = refl
  received_other id to (w ∷ ws) h n =
      ground (arith, received_other id to ws h.1, decide_iff (uuid_eq w.to id))

module _ ⦃qt : Qt⦄ {S : Type 0} ⦃session : ClientSession S⦄ where
  open qt use {Uuid, uuid_eq}
  open session use {uuid, is_authenticated, send_message, sends_once, sends_own}

  -- What one message means for a client that may not be there or not be authenticated.
  abbrev pub delivered : Option S → Message → List Bytes
  delivered none m = []
  delivered (some s) m = if is_authenticated s then write_message m ∷ [] else []

  received_own :
      (id : Uuid) (s : S) (m : Message)
      → uuid s ≡ id
      → is_authenticated s ≡ true
      → received id (send_message s m) ≡ write_message m ∷ []
  received_own id s m e auth = rw (sends_once s m auth, e, (decide_iff (uuid_eq id id)).1 refl)

  received-send_if :
      (id : Uuid) (s : S) (m : Message)
      → uuid s ≡ id
      → received id (send_if_authenticated s m) ≡ delivered (some s) m
  unfolding send_if_authenticated
  received-send_if id s m e = elim (Bool-cases (is_authenticated s)) [
    | inl auth ↦ rw auth (received_own id s m e auth)
    | inr not_auth ↦ rw not_auth
  ]

  received-send_if_other :
      (id : Uuid) (s : S) (m : Message) → uuid s ≢ id → received id (send_if_authenticated s m) ≡ []
  unfolding send_if_authenticated
  received-send_if_other id s m n = elim (Bool-cases (is_authenticated s)) [
    | inl auth ↦ rw auth (received_other id (uuid s) _ (sends_own s m) n)
    | inr not_auth ↦ rw not_auth
  ]

  pub received-send_all :
      (id : Uuid) (m : Message) (clients : List (Uuid × S))
      → Distinct uuid_eq clients
      → All IsKeyed clients
      → received id (send_all clients m) ≡ delivered (find uuid_eq id clients) m
  unfolding send_all find
  received-send_all id m [] d k = refl
  received-send_all id m ((j, s) ∷ rest) d k =
      elim (uuid_eq j id)
        as (λ b.
          received id (send_if_authenticated s m ++ send_all rest m)
          ≡ delivered (if decide b then some s else find uuid_eq id rest) m) [
            | yes e ↦
                received-append id (send_if_authenticated s m) (send_all rest m)
                ∙ ap₂ ◌++◌ (received-send_if id s m (k.0 ∙ e)) (
                    received-send_all id m rest d.1 k.1
                    ∙ ap (λ o. delivered o m) (subst (λ x. find uuid_eq x rest ≡ none) e d.0))
                ∙ append-nil _
            | no n ↦
                received-append id (send_if_authenticated s m) (send_all rest m)
                ∙ ap₂ ◌++◌ (received-send_if_other id s m (λ p. n (sym k.0 ∙ p)))
                    (received-send_all id m rest d.1 k.1)
          ]

  -- In a valid state a broadcast reaches each authenticated client once, as the frame of the
  -- message, and nobody else.
  pub received-broadcast :
      (id : Uuid) (m : Message) (cm : ClientManager S)
      → IsValid cm
      → received id (broadcast_message m cm).1 ≡ delivered (find uuid_eq id cm.clients) m
  unfolding broadcast_message
  received-broadcast id m cm v = received-send_all id m cm.clients v.distinct v.keyed

  pub find-IsKeyed :
      (id : Uuid) (s : S) (m : List (Uuid × S))
      → All IsKeyed m
      → find uuid_eq id m ≡ some s
      → uuid s ≡ id
  find-IsKeyed id s m k e = All-find uuid_eq IsKeyed id s m k e

  pub received-replay :
      (id : Uuid) (s : S) (ms : List Message)
      → uuid s ≡ id
      → is_authenticated s ≡ true
      → received id (replay s ms) ≡ map write_message ms
  unfolding replay
  received-replay id s [] e auth = refl
  received-replay id s (m ∷ ms) e auth =
      received-append id (send_message s m) (replay s ms)
      ∙ ap₂ ◌++◌ (received_own id s m e auth) (received-replay id s ms e auth)

  received-replay_other :
      (id : Uuid) (s : S) (ms : List Message) → uuid s ≢ id → received id (replay s ms) ≡ []
  unfolding replay
  received-replay_other id s [] n = refl
  received-replay_other id s (m ∷ ms) n =
      received-append id (send_message s m) (replay s ms)
      ∙ ap₂ ◌++◌ (received_other id (uuid s) _ (sends_own s m) n) (received-replay_other id s ms n)

  -- A client that is sent the history is the one that joins.
  pub received-replay_to_other :
      (id j : Uuid) (o : Option S) (ms : List Message)
      → ((s : S) → o ≡ some s → uuid s ≡ j)
      → j ≢ id
      → received id (replay_to o ms) ≡ []
  unfolding replay_to
  received-replay_to_other id j none ms k n = refl
  received-replay_to_other id j (some s) ms k n =
      received-replay_other id s ms (λ e. n (sym (k s refl) ∙ e))

  send_found_here :
      (id : Uuid) (o : Option S) (m : Message)
      → ((s : S) → o ≡ some s → uuid s ≡ id)
      → received id (send_found o m) ≡ delivered o m
  unfolding send_found
  send_found_here id none m k = refl
  send_found_here id (some s) m k = received-send_if id s m (k s refl)

  send_found_other :
      (id j : Uuid) (o : Option S) (m : Message)
      → ((s : S) → o ≡ some s → uuid s ≡ j)
      → j ≢ id
      → received id (send_found o m) ≡ []
  unfolding send_found
  send_found_other id j none m k n = refl
  send_found_other id j (some s) m k n = received-send_if_other id s m (λ e. n (sym (k s refl) ∙ e))

  -- In a valid state a message to one client reaches that client, if it is there and authenticated,
  -- and nobody else.
  pub received-send_to :
      (id j : Uuid) (m : Message) (cm : ClientManager S)
      → IsValid cm
      → received id (send_message_to_client j m cm)
        ≡ (if decide (uuid_eq j id) then delivered (find uuid_eq id cm.clients) m else [])
  unfolding send_message_to_client
  received-send_to id j m cm v =
      elim (uuid_eq j id)
        as (λ b.
          received id (send_found (find uuid_eq j cm.clients) m)
          ≡ (if decide b then delivered (find uuid_eq id cm.clients) m else [])) [
            | yes e ↦
                send_found_here id _ m (λ s p. find-IsKeyed j s cm.clients v.keyed p ∙ e)
                ∙ ap (λ x. delivered (find uuid_eq x cm.clients) m) e
            | no n ↦ send_found_other id j _ m (λ s p. find-IsKeyed j s cm.clients v.keyed p) n
          ]
