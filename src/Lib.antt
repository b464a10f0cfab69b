-- ===== src/Lib.antt =====
-- A model of QtMessenger, a chat of Qt clients and a Boost.Asio server, and what holds of it.
--
-- The program. A client (client/) connects to the server (server/) over TCP, sends a user name and a
-- password, and then messages; the server checks the credentials against a database (common/), keeps
-- the connected clients and the last messages, replays these to a client that joins, and relays each
-- message to all. Both sides write `Message` (common/) with `QDataStream`.
--
-- Which file models which part:
--   Qt: what the code takes from Qt (QUuid, QDateTime, QString, QDataStream), as a record of operations
--     with their documented laws. It is a parameter of every module, as an instance argument.
--   Reader: code that reads from a `QDataStream`, as a state monad with exceptions.
--   Message: common/include/message.h, common/src/message.cpp. `read_message`, `write_message` are the
--     stream operators.
--   UnorderedMap: `std::unordered_map`, as an association list in some order of iteration.
--   Session: server/include/client_session_interface.h as an interface; Session.Boost is
--     server/src/boost_asio_client_session.cpp with `SharedSessionWrapper` as its implementation.
--   ClientManager: server/src/client_manager.cpp over any implementation of the interface.
--     ClientManager.Room specifies it as a room with members and what was said, without the map, its
--     order and the bounded history; ClientManager.Refinement relates the two.
--   MessageHandler: server/src/message_handler.cpp. In MessageHandler.Threads several threads run it;
--     a schedule says which takes the client manager's mutex next, and MessageHandler.Threads.Turns how
--     many turns a thread needs.
--   Server: server/src/multithreaded_server.cpp and the reads of the sessions, as a machine over the
--     completions that `io_context` delivers; each handler is one step. Server.Main is
--     server/src/main_multithreaded.cpp, up to its event loop. Server.Calls says which methods of the
--     client manager a run of the machine calls.
--   Client.AuthHandler, Client.NetworkClient: client/src/auth_handler.cpp, client/src/network_client.cpp.
--     Client.NetworkClient.Lifecycle is the relation of its steps: calls, and notifications of the
--     socket, in the orders that the states of `QTcpSocket` allow.
--   Database: common/src/database_manager.cpp over `Sql`, which stands for SQLite and Qt's SQL module.
--   Client.ChatController, Client.ChatWindow, Client.UserListWindow, Client.EmojiWindow,
--     Client.LoginWindow, Client.RegisterWindow, Client.PasswordWindow: the files of the same names in
--     client/src, as far as they decide what is shown and done; `QtText` stands for Qt's text functions.
--     Client.ChatWindow.Wiring is which signals of the chat window call which slots.
--   Client.Widgets: what these windows take from Qt's widgets: the tree that `setupUi` creates and lays
--     out, and the style sheets of `applyStyles`. Client.Widgets.Children has `findChild`, as a parameter
--     that is known to give a widget with a name of its own. The modules Ui of the windows are these
--     trees and sheets, with the slots over them; the modules Shows, and Client.ChatWindow.Screen, compare
--     them with the windows of the modules above, which know no widgets. Client.ChatWindow.Rows and
--     Client.UserListWindow.Rows are the widgets of one message and of one user.
--   Client.Windows, Client.Application: client/src/main.cpp and how the windows follow one another, as a
--     machine over what the user, the network and the timers do; it ends with its last window or by an
--     error.
--   Client.Accounts: registering, logging in and connecting together.
--   System: the window of one client, the server, and the window of another. System.Speaking is a
--     conversation: who says what, one after the other.
--   Examples: a concrete `Qt`, `Sql` and `findChild`, and the theorems at concrete inputs.
--
-- State and calls. A method is a function from state to state that also returns what it wrote, emitted
-- and called, in order. A callback is a Boolean: whether it is set. Bytes on a socket are lists of
-- numbers. Identifiers from `createUuid` and the current time are arguments. A read of the
-- server carries the bytes that `async_read_some` gave; that they are at most 4096, and 1024 for
-- credentials, is not used.
-- Each completion of a run of the server has its own `checkUser`, since the database may change between
-- them.
--
-- Errors. What `operator>>` throws is a result, also when `reserve` gets no memory for the users that a
-- message announces: `can_reserve` of `Qt` says for how many it does. `remote_endpoint` of an accepted
-- socket throws if the peer is gone, which ends the server. Qt asks that the position of `at` is in range:
-- `checks_at` of `QtText` says if the build checks it, and `is_fatal` is where that ends the program.
--
-- Fuel. The loop of `processBuffer` is the only one that needs it: it runs on one more than the bytes in
-- the buffer, which is enough because a successful read takes a byte at least.
--
-- Not modelled: fonts, cursors, frames, scroll modes and the sizes of contents, logging, and running out
-- of memory anywhere but in that `reserve`; `close` of a socket is taken to succeed. A handler of the
-- server is a single step of `Server.run`; threads inside the message handler interleave in
-- MessageHandler.Threads, between the acquisitions of the client manager's mutex, and writes to one
-- socket are taken in that order. The single-threaded server (server/src/async_tcp_server.cpp,
-- server/src/client_session.cpp) is not in the build and does not compile against its interfaces:
-- `ClientSession` has no `isAuthenticated` and calls its callback with one argument too many.
mod Prelude
pub mod Qt
pub mod Reader
pub mod Message
pub mod UnorderedMap
pub mod Session
pub mod ClientManager
pub mod MessageHandler
pub mod Client
pub mod Database
pub mod Server
pub mod System
mod Examples
