-- ===== src/Server/Relay.antt =====
-- From one client to the others, through handleReadMessage, the message handler and the client
-- manager.
use qt_messenger.Prelude.{
  ◌≡◌, refl, ap, ◌∙◌, true, false, Option, none, some, List, [], ◌∷◌, ◌++◌, append-nil, map, Bytes,
  if◌then◌else◌, if_intro, is_some,
}
use qt_messenger.Qt.{Qt}
use qt_messenger.Reader.{returned}
use qt_messenger.Message.{Message, blank, write_message}
use qt_messenger.Message.Wire.{IsSendable, read_message-Reads}
use qt_messenger.Session.{Write}
use qt_messenger.Session.Boost.{BoostAsioClientSession, wrapped_session}
use qt_messenger.UnorderedMap.{find, All-find, is_some-find-emplace}
use qt_messenger.ClientManager.Delivery.{received, delivered}
use qt_messenger.MessageHandler.{is_user_list_request, handle_message}
use qt_messenger.MessageHandler.Routing.{chat_message}
use qt_messenger.Server.{
  Server, Effect, wrote, message_received, deliver, handle_parsed, handle_read_message,
}
use qt_messenger.Server.Auth.{IsReady}
use qt_messenger.Server.Invariant.{IsSound}

module _ ⦃qt : Qt⦄ where
  open qt use {Uuid, DateTime, uuid_eq}

  -- The writes among the effects, in order.
  abbrev pub writes : List Effect → List Write
  writes [] = []
  writes (wrote w ∷ es) = w ∷ writes es
  writes (_ ∷ es) = writes es

  pub writes-map :
      (ws : List Write) (es : List Effect) → writes (map wrote ws ++ es) ≡ ws ++ writes es
  writes-map [] es = refl
  writes-map (w ∷ ws) es = ap (λ r. w ∷ r) (writes-map ws es)

  delivered_ready :
      (o : Option BoostAsioClientSession) (m : Message)
      → ((t : BoostAsioClientSession) → o ≡ some t → t.authenticated ≡ true)
      → delivered o m ≡ (if is_some o then write_message m ∷ [] else [])
  delivered_ready none m h = refl
  delivered_ready (some t) m h = rw (h t refl)

  -- A read that begins with a whole message hands that message on; what follows it is dropped.
  pub handle_read_message-parsed :
      (fresh : Uuid) (now : DateTime) (session : BoostAsioClientSession) (m : Message)
      (tail : Bytes) (s : Server)
      → IsSendable m
      → session.authenticated ≡ true
      → handle_read_message fresh now session (some (write_message m ++ tail)) s
        ≡ handle_parsed fresh now session (returned m) s
  unfolding handle_read_message
  handle_read_message-parsed fresh now session m tail s sendable auth =
      simp (auth, (read_message-Reads m sendable blank refl).whole tail)

  pub deliver-effects :
      (fresh : Uuid) (now : DateTime) (session : BoostAsioClientSession) (m : Message) (s : Server)
      → session.message_callback ≡ true
      → (deliver fresh now session m s).1
        ≡ map wrote (handle_message fresh now m session.uuid s.manager).1 ++ message_received m ∷ []
  unfolding deliver
  deliver-effects fresh now session m s h =
      if_intro
        (λ (r : Server × List Effect).
          r.1
          ≡ map wrote (handle_message fresh now m session.uuid s.manager).1
            ++ message_received m ∷ [])
        session.message_callback (λ _. refl) (λ e. cc)

  handle_parsed-reads :
      (fresh : Uuid) (now : DateTime) (session : BoostAsioClientSession) (m : Message) (s : Server)
      → is_some
          (find uuid_eq session.uuid (handle_parsed fresh now session (returned m) s).0.sessions)
        ≡ true
  unfolding handle_parsed
  handle_parsed-reads fresh now session m s = is_some-find-emplace uuid_eq session.uuid session _

  handle_parsed-received :
      (fresh : Uuid) (now : DateTime) (session : BoostAsioClientSession) (m : Message) (s : Server)
      (j : Uuid)
      → session.message_callback ≡ true
      → IsSound s
      → is_user_list_request m ≡ false
      → received j (writes (handle_parsed fresh now session (returned m) s).1)
        ≡ (if is_some (find uuid_eq j s.manager.clients) then write_message m ∷ [] else [])
  unfolding handle_parsed
  handle_parsed-received fresh now session m s j callback sound chat =
      ap (λ es. received j (writes es)) (deliver-effects fresh now session m s callback)
      ∙ ap (received j) (
          writes-map (handle_message fresh now m session.uuid s.manager).1 (message_received m ∷ [])
          ∙ append-nil _)
      ∙ chat_message fresh now m session.uuid j s.manager sound.serving.valid chat
      ∙ delivered_ready _ m (λ t e.
        (All-find uuid_eq IsReady j t s.manager.clients sound.serving.ready e).authenticated)

  -- In a sound server, a message that fits the format, is no request for the user list, and arrives
  -- whole in one read of an authenticated session with its callbacks set, is written, as the very
  -- frame that came in, to every client in the manager, the sender too, and to nobody else; and the
  -- session reads on.
  pub relay :
      (fresh : Uuid) (now : DateTime) (session : BoostAsioClientSession) (m : Message)
      (tail : Bytes) (s : Server) (j : Uuid)
      → IsSendable m
      → IsReady (session.uuid, session)
      → IsSound s
      → is_user_list_request m ≡ false
      → let r = handle_read_message fresh now session (some (write_message m ++ tail)) s in
        (received j (writes r.1)
          ≡ (if is_some (find uuid_eq j s.manager.clients) then write_message m ∷ [] else []))
        × (is_some (find uuid_eq session.uuid r.0.sessions) ≡ true)
  relay fresh now session m tail s j sendable ready sound chat =
      rw (handle_read_message-parsed fresh now session m tail s sendable ready.authenticated) (
        handle_parsed-received fresh now session m s j ready.messages sound chat,
        handle_parsed-reads fresh now session m s,
      )
