-- ===== src/Client.antt =====
-- client/: the chat client.
pub mod AuthHandler
pub mod NetworkClient
pub mod QtText
pub mod Widgets
pub mod ChatController
pub mod UserListWindow
pub mod EmojiWindow
pub mod ChatWindow
pub mod LoginWindow
pub mod RegisterWindow
pub mod PasswordWindow
pub mod Accounts
pub mod Windows
pub mod Application
