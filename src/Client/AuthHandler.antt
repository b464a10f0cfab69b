-- ===== src/Client/AuthHandler.antt =====
-- client/include/auth_handler.h, client/src/auth_handler.cpp: what the client writes to the socket
-- to say who it is. Each function returns the block that it writes and flushes.
use qt_messenger.Prelude.{◌++◌, Bytes}
use qt_messenger.Qt.{Qt}
use qt_messenger.Message.{write_text}

module _ ⦃qt : Qt⦄ where
  unfoldable pub send_username : Bytes → Bytes
  send_username username = write_text username

  unfoldable pub send_password : Bytes → Bytes
  send_password password = write_text password

  unfoldable pub send_credentials : Bytes → Bytes → Bytes
  send_credentials username password = write_text username ++ write_text password
