-- ===== src/System/Newcomer.antt =====
-- What a new client's window (chat_window.cpp) shows of the history and of the messages that the
-- server's manager (client_manager.cpp) sends it.
use qt_messenger.Prelude.{
  ◌≡◌, refl, ap, ◌∙◌, true, none, some, List, [], ◌∷◌, ◌++◌, map, All, Bytes, flatten, last,
}
use qt_messenger.Qt.{Qt}
use qt_messenger.Message.{Message, write_message}
use qt_messenger.Message.Wire.{IsSendable}
use qt_messenger.Session.{ClientSession}
use qt_messenger.UnorderedMap.{find}
use qt_messenger.ClientManager.{Call, add, max_history_size, new_manager, run}
use qt_messenger.ClientManager.History.{broadcasts}
use qt_messenger.ClientManager.Invariant.{AddsKeyed}
use qt_messenger.ClientManager.Delivery.{received}
use qt_messenger.ClientManager.Joining.{Spares, all_addressed, late_joiner}
use qt_messenger.Client.NetworkClient.{NetworkClient}
use qt_messenger.Client.NetworkClient.Loop.{encode}
use qt_messenger.Client.NetworkClient.Reassembly.{receive}
use qt_messenger.Client.QtText.{QtText}
use qt_messenger.Client.ChatWindow.{ChatWindow, handle_events}
use qt_messenger.Client.ChatWindow.Shown.{IsShowable, shown, displayed-encode}

module _ ⦃qt : Qt⦄ where
  pub flatten-frames : (ms : List Message) → flatten (map write_message ms) ≡ encode ms
  flatten-frames [] = refl
  flatten-frames (m ∷ ms) = ap (λ b. write_message m ++ b) (flatten-frames ms)

module _ ⦃qt : Qt⦄ ⦃text : QtText⦄ {S : Type 0} ⦃session : ClientSession S⦄ where
  open qt use {Uuid, DateTime, uuid_eq}
  open session use {uuid, is_authenticated}

  -- A client that joins after any calls on a new manager, authenticated and under its own identifier,
  -- which is not taken, shows the last hundred messages broadcast before it came (since the last
  -- `clear`) and then each message that is broadcast or addressed to it, through calls that do not add
  -- or remove it: each once, in order, behind what its window showed. All clients are added under
  -- their own identifiers; the messages fit the format and are chat messages with user names; the
  -- client's buffer is empty, its message callback is set, and the bytes arrive cut in any way.
  pub newcomer_sees_history :
      (id : Uuid) (s : S) (before after : List (Call S)) (now : DateTime) (bs : List Bytes)
      (c : NetworkClient) (w : ChatWindow)
      → uuid s ≡ id
      → is_authenticated s ≡ true
      → All AddsKeyed before
      → All AddsKeyed after
      → All (Spares id) after
      → find uuid_eq id (run before new_manager).0.clients ≡ none
      → All IsSendable (last max_history_size (broadcasts [] before) ++ all_addressed id after)
      → All IsShowable (last max_history_size (broadcasts [] before) ++ all_addressed id after)
      → c.received_buffer ≡ []
      → c.message_callback ≡ true
      → flatten bs ≡ flatten (received id (run (add id s ∷ after) (run before new_manager).0).1)
      → handle_events now (receive bs c).1 w
        ≡ some (shown w (last max_history_size (broadcasts [] before) ++ all_addressed id after))
  newcomer_sees_history id s before after now bs c w own auth kb ka spared absent sendable showable
        empty set arrives =
      displayed-encode now bs c _ w sendable showable empty set (
        arrives
        ∙ ap flatten (late_joiner id s before after own auth kb ka spared absent)
        ∙ flatten-frames _)
