-- ===== src/Examples.antt =====
-- Tests of the definitions and instances of the theorems, over a small stand-in for Qt.
mod Format
mod SampleQt
mod SampleSql
mod SampleWidgets
mod Messages
mod Chat
mod Serving
mod Client
mod Accounts
mod System
mod Threads
mod Lifecycle
mod Starting
mod Windows
mod Conversation
mod Widgets
