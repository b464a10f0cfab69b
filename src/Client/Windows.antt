-- ===== src/Client/Windows.antt =====
-- What happens to the windows of the client (login_window.cpp, password_window.cpp,
-- register_window.cpp, chat_window.cpp): what the user does, and the notifications of the socket.
use qt_messenger.Prelude.{ℕ, Bool, true, false, Option, none, some, List, [], ◌∷◌, Bytes, bytes}
use qt_messenger.Qt.{Qt}
use qt_messenger.Client.NetworkClient.{
  SocketState, NetworkClient, Event, Ending, raised, on_connected, on_disconnected, on_error,
  on_ready_read,
}
use qt_messenger.Client.QtText.{QtText}
use qt_messenger.Client.ChatWindow.{ChatWindow, handle_events}
use qt_messenger.Client.ChatWindow.Wiring.{Signal, Answer, Action, network, logged_out}
use qt_messenger.Client.LoginWindow.{LoginWindow, chat_logged_out, clear_error_message}
use qt_messenger.Client.RegisterWindow.{RegisterWindow}
use qt_messenger.Client.PasswordWindow.{PasswordWindow}

module _ ⦃qt : Qt⦄ where
  open qt use {QString, DateTime, from_std_string}

  -- A notification of the socket.
  pub data Notice : Type 0 where
    got_connected got_disconnected : Notice
    got_error : Option SocketState → Notice
    got_bytes : Bytes → Notice

  -- What the user does in a window, and what happens to it.
  pub data LoginAct : Type 0 where
    types_username : QString → LoginAct
    clicks_login clicks_register : LoginAct

  pub data PasswordAct : Type 0 where
    types_password : QString → PasswordAct
    submits : PasswordAct

  pub data RegisterAct : Type 0 where
    types_account : QString → QString → RegisterAct
    creates times_out : RegisterAct

  pub data ChatAct : Type 0 where
    types_text : QString → ChatAct
    signals : (ℕ → Answer) → DateTime → Signal → ChatAct
    notices : DateTime → Notice → ChatAct

  -- `cancels`: a dialog is rejected; `closes_hidden`: the timer of a password window fires; `quits`: the
  -- user closes the login window or the chat window.
  pub data Act : Type 0 where
    at_login : LoginAct → Act
    at_password : PasswordAct → Act
    at_register : RegisterAct → Act
    at_chat : ChatAct → Act
    cancels closes_hidden quits : Act

  -- The constructors of the windows.
  unfoldable pub new_login : LoginWindow
  unfolding clear_error_message
  new_login = clear_error_message (record {
    username_field = from_std_string [];
    title = from_std_string [];
    error_state = false;
    is_visible = true;
  })

  -- An exception out of `operator>>` ends the program.
  unfoldable pub unless_raised :
      NetworkClient × List Event × Ending → Option (NetworkClient × List Event)
  unless_raised (c, es, raised) = none
  unless_raised (c, es, _) = some (c, es)

  unfoldable pub notify : Notice → NetworkClient → Option (NetworkClient × List Event)
  unfolding unless_raised
  notify got_connected c = some (on_connected c)
  notify got_disconnected c = some (on_disconnected c)
  notify (got_error state) c = some (on_error state c)
  notify (got_bytes b) c = unless_raised (on_ready_read b c)

  -- What the network client of a window did under its slots.
  unfoldable pub network_events : List Action → List Event
  network_events [] = []
  network_events (network e ∷ rest) = e ∷ network_events rest
  network_events (_ ∷ rest) = network_events rest

  -- A window that emits `loggedOut` closes, and is deleted then.
  unfoldable pub leaves : List Action → Bool
  leaves [] = false
  leaves (logged_out ∷ rest) = true
  leaves (_ ∷ rest) = leaves rest

  unfoldable pub respond : List Action → LoginWindow → LoginWindow
  respond [] l = l
  respond (logged_out ∷ rest) l = respond rest (chat_logged_out l)
  respond (_ ∷ rest) l = respond rest l

module _ ⦃qt : Qt⦄ ⦃text : QtText⦄ where
  open qt use {QString, DateTime, from_std_string}

  pub data Dialog : Type 0 where
    no_dialog : Dialog
    asks_password : PasswordWindow → Dialog
    registers : RegisterWindow → Dialog

  unfoldable pub password_dialog : Option QString → Dialog
  password_dialog none = no_dialog
  password_dialog (some username) = asks_password (record {
    username = username;
    password_field = from_std_string [];
    error = none;
    accepted = false;
  })

  unfoldable pub register_dialog : Dialog
  register_dialog = registers (record {
    username_field = from_std_string [];
    password_field = from_std_string [];
    status = from_std_string (bytes "Fill in all fields");
    status_is_error = false;
    accepts = false;
  })

  unfoldable pub hear :
      DateTime → ChatWindow → Option (NetworkClient × List Event) → Option ChatWindow
  hear now w none = none
  hear now w (some (c, es)) =
      handle_events now es (record w { controller = record w.controller { network_client = c } })
