-- ===== src/System/Conversation.antt =====
-- Many clients at once: what the server (multithreaded_server.cpp) reads from any of them is what the
-- windows (chat_window.cpp) of all of them show.
use qt_messenger.Prelude.{
  ℕ, ◌≡◌, refl, ap, ◌∙◌, true, some, List, [], ◌∷◌, map, All, Bytes, flatten,
}
use qt_messenger.Qt.{Qt}
use qt_messenger.Message.{Message, write_message}
use qt_messenger.Message.Wire.{IsSendable}
use qt_messenger.Session.Boost.{BoostAsioClientSession, wrapped_session}
use qt_messenger.UnorderedMap.{find, All-find}
use qt_messenger.ClientManager.{broadcast, run as run_calls}
use qt_messenger.ClientManager.Invariant.{AddsKeyed}
use qt_messenger.ClientManager.Delivery.{received}
use qt_messenger.ClientManager.Joining.{Spares, all_addressed, received-run}
use qt_messenger.Server.{Server, CheckUser, run}
use qt_messenger.Server.Auth.{RefusesEmpty, IsReady}
use qt_messenger.Server.Relay.{writes}
use qt_messenger.Server.Calls.{Calls}
use qt_messenger.Server.Making.{run-Makes}
use qt_messenger.Client.NetworkClient.{NetworkClient}
use qt_messenger.Client.NetworkClient.Reassembly.{receive}
use qt_messenger.Client.QtText.{QtText}
use qt_messenger.Client.ChatWindow.{ChatWindow, handle_events}
use qt_messenger.Client.ChatWindow.Shown.{IsShowable, shown, displayed-encode}
use qt_messenger.System.Newcomer.{flatten-frames}
use qt_messenger.System.Speaking.{Utterance, reading, Speaks, IsChat, IsServing, all_calls-reading}

module _ ⦃qt : Qt⦄ where
  open qt use {Uuid, uuid_eq}

  abbrev pub messages : List Utterance → List Message
  messages us = map (λ (u : Utterance). u.message) us

  abbrev broadcasts : List Utterance → Calls
  broadcasts us = map (λ (u : Utterance). broadcast u.message) us

  broadcasts-AddsKeyed : (us : List Utterance) → All AddsKeyed (broadcasts us)
  broadcasts-AddsKeyed [] = tt
  broadcasts-AddsKeyed (u ∷ us) = (tt, broadcasts-AddsKeyed us)

  broadcasts-Spares : (j : Uuid) (us : List Utterance) → All (Spares j) (broadcasts us)
  broadcasts-Spares j [] = tt
  broadcasts-Spares j (u ∷ us) = (tt, broadcasts-Spares j us)

  all_addressed-broadcasts :
      (j : Uuid) (us : List Utterance) → all_addressed j (broadcasts us) ≡ messages us
  all_addressed-broadcasts j [] = refl
  all_addressed-broadcasts j (u ∷ us) = ap (λ ms. u.message ∷ ms) (all_addressed-broadcasts j us)

  all-IsSendable : (us : List Utterance) → All IsChat us → All IsSendable (messages us)
  all-IsSendable [] h = tt
  all-IsSendable (u ∷ us) h = (h.0.sendable, all-IsSendable us h.1)

  -- Each client in the manager is sent the frames of the messages, in the order in which they are read.
  pub received-reading :
      (dbs : ℕ → CheckUser) (us : List Utterance) (s : Server) (j : Uuid)
      (t : BoostAsioClientSession)
      → ((k : ℕ) → RefusesEmpty (dbs k))
      → IsServing s
      → All IsChat us
      → All (Speaks s) us
      → find uuid_eq j s.manager.clients ≡ some t
      → received j (writes (run dbs (map reading us) s).1) ≡ map write_message (messages us)
  received-reading dbs us s j t refuses h chats speak found =
      ap (λ r. received j r.1)
        (run-Makes dbs (map reading us) s
          ∙ ap (λ cs. run_calls cs s.manager) (all_calls-reading dbs us s refuses h chats speak))
      ∙ received-run j t (broadcasts us) s.manager (broadcasts-AddsKeyed us)
          (broadcasts-Spares j us)
          (record {
            valid = h.sound.serving.valid;
            found = found;
            authenticated =
                (All-find uuid_eq IsReady j t s.manager.clients h.sound.serving.ready
                  found).authenticated;
          })
      ∙ ap (map write_message) (all_addressed-broadcasts j us)

module _ ⦃qt : Qt⦄ ⦃text : QtText⦄ where
  open qt use {Uuid, DateTime, uuid_eq}

  -- Any clients speak, in any order, each message whole in one read of its speaker's session, on a
  -- sound server that runs: then the window of every client in the manager shows all these messages,
  -- each once, in the order in which the server read them, however the bytes that the server writes to
  -- it are cut. The messages fit the format, have user names and are no requests or lists; the
  -- sessions of the speakers read; the client's buffer is empty and its message callback set; and the
  -- database, which may change, refuses the empty user name whenever it is asked.
  pub everyone_sees_the_chat :
      (dbs : ℕ → CheckUser) (us : List Utterance) (s : Server) (j : Uuid)
      (t : BoostAsioClientSession) (now : DateTime) (bs : List Bytes) (c : NetworkClient)
      (w : ChatWindow)
      → ((k : ℕ) → RefusesEmpty (dbs k))
      → IsServing s
      → All IsChat us
      → All (Speaks s) us
      → find uuid_eq j s.manager.clients ≡ some t
      → All IsShowable (messages us)
      → c.received_buffer ≡ []
      → c.message_callback ≡ true
      → flatten bs ≡ flatten (received j (writes (run dbs (map reading us) s).1))
      → handle_events now (receive bs c).1 w ≡ some (shown w (messages us))
  everyone_sees_the_chat dbs us s j t now bs c w refuses h chats speak found showable empty set
        arrives =
      displayed-encode now bs c (messages us) w (all-IsSendable us chats) showable empty set (
        arrives
        ∙ ap flatten (received-reading dbs us s j t refuses h chats speak found)
        ∙ flatten-frames (messages us))
