-- ===== src/System.antt =====
-- The program as a whole: a client's window, the server, and the windows of the other clients, over a
-- network that keeps the bytes of a connection in order and cuts them as it likes.
pub mod Chat
pub mod Newcomer
pub mod Listing
pub mod UserList
pub mod Speaking
pub mod Conversation
use qt_messenger.Prelude.{List, [], ◌∷◌, ◌++◌, Bytes}
use qt_messenger.Qt.{Qt}
use qt_messenger.Client.NetworkClient.{Event}
use qt_messenger.Client.ChatWindow.Wiring.{Action, network}

module _ ⦃qt : Qt⦄ where
  -- The bytes that a client writes to its socket.
  abbrev pub sent : List Action → Bytes
  sent [] = []
  sent (network (Event.wrote b) ∷ rest) = b ++ sent rest
  sent (_ ∷ rest) = sent rest
