-- ===== src/Client/ChatWindow/Ui.antt =====
-- client/src/chat_window.cpp: the widgets of the chat window.
use qt_messenger.Prelude.{Bool, true, false, none, some, List, [], ◌∷◌, Bytes, bytes, if◌then◌else◌}
use qt_messenger.Qt.{Qt}
use qt_messenger.Client.Widgets.{
  plain, label, line_edit, push_button, frame, list_widget, Style, Rule, Layout, box, end,
  add_widget, add_layout, add_stretch, Element, element, Ui, with_variable,
}

module _ ⦃qt : Qt⦄ where
  open qt use {QString, from_std_string}

  -- What `setupUi` creates, and how it lays it out.
  abbrev pub children : List Element
  children =
      record (element label (bytes "titleLabel")) {
        text = from_std_string (bytes "QtMessenger");
        name = bytes "titleLabel";
        is_centered = true;
      }
      ∷ record (element push_button (bytes "m_logoutButton")) {
        text = from_std_string (bytes "Logout");
        name = bytes "logoutButton";
      }
      ∷ record (element label (bytes "m_statusLabel")) {
        text = from_std_string (bytes "Offline");
        name = bytes "statusLabel";
      }
      ∷ record (element frame (bytes "headerSeparator")) { name = bytes "headerSeparator" }
      ∷ record (element list_widget (bytes "m_chatHistory")) { name = bytes "chatHistory" }
      ∷ record (element line_edit (bytes "m_inputField")) {
        placeholder = bytes "Type your message...";
        name = bytes "inputField";
        min_height = 50;
      }
      ∷ record (element push_button (bytes "m_emojiButton")) {
        text = from_std_string (240 ∷ 159 ∷ 152 ∷ 138 ∷ []);
        name = bytes "emojiButton";
        tool_tip = bytes "Insert emoji";
      }
      ∷ record (element push_button (bytes "m_sendButton")) {
        text = from_std_string (226 ∷ 134 ∷ 146 ∷ []);
        name = bytes "sendButton";
        tool_tip = bytes "Send message";
      }
      ∷ record (element push_button (bytes "m_usersButton")) {
        text = from_std_string (240 ∷ 159 ∷ 145 ∷ 165 ∷ []);
        name = bytes "usersButton";
        tool_tip = bytes "Show users";
      }
      ∷ element plain (bytes "centralWidget")
      ∷ []

  abbrev pub layouts : List (Bytes × Layout)
  layouts =
      (
        bytes "centralWidget",
        (box false (some 15) (some (20, 15, 20, 15)) (
            add_layout
              (box true none none (
                add_widget (bytes "m_logoutButton") false (
                  add_stretch (
                    add_widget (bytes "titleLabel") false
                      (add_stretch (add_widget (bytes "m_statusLabel") false end))))))
              (add_widget (bytes "headerSeparator") false (
                add_widget (bytes "m_chatHistory") false (
                  add_layout
                    (box true none none (
                      add_widget (bytes "m_emojiButton") false (
                        add_widget (bytes "m_inputField") false (
                          add_widget (bytes "m_sendButton") false
                            (add_widget (bytes "m_usersButton") false end)))))
                    end))))),
      )
      ∷ []

  -- `applyStyles`
  abbrev pub style_rules : List Rule
  style_rules =
      record {
        selector = bytes "QMainWindow";
        declarations = ((bytes "background-color", bytes "white") ∷ []);
      }
      ∷ record {
        selector = bytes "QLabel#titleLabel";
        declarations =
            ((bytes "font-size", bytes "22px")
              ∷ (bytes "font-weight", bytes "bold")
              ∷ (bytes "color", bytes "#179cde")
              ∷ []);
      }
      ∷ record {
        selector = (bytes "QLabel#statusLabel[text=\"Connected\"]");
        declarations =
            ((bytes "color", bytes "#28a745") ∷ (bytes "font-weight", bytes "bold") ∷ []);
      }
      ∷ record {
        selector = (bytes "QLabel#statusLabel[text=\"Offline\"]");
        declarations =
            ((bytes "color", bytes "#dc3545") ∷ (bytes "font-weight", bytes "bold") ∷ []);
      }
      ∷ record {
        selector = bytes "QFrame#headerSeparator";
        declarations = ((bytes "color", bytes "#e0e0e0") ∷ (bytes "height", bytes "1px") ∷ []);
      }
      ∷ record {
        selector = bytes "QListWidget#chatHistory";
        declarations =
            ((bytes "background-color", bytes "#f5f7fa")
              ∷ (bytes "border-radius", bytes "10px")
              ∷ (bytes "padding", bytes "10px")
              ∷ []);
      }
      ∷ record {
        selector = bytes "QLineEdit#inputField";
        declarations =
            ((bytes "border", bytes "1px solid #e0e0e0")
              ∷ (bytes "border-radius", bytes "25px")
              ∷ (bytes "padding", bytes "12px 20px")
              ∷ (bytes "font-size", bytes "14px")
              ∷ (bytes "background-color", bytes "white")
              ∷ []);
      }
      ∷ record {
        selector = bytes "QLineEdit#inputField:focus";
        declarations = ((bytes "border", bytes "1.5px solid #179cde") ∷ []);
      }
      ∷ record {
        selector = bytes "QPushButton#sendButton";
        declarations =
            ((bytes "background-color", bytes "#179cde")
              ∷ (bytes "color", bytes "white")
              ∷ (bytes "border", bytes "none")
              ∷ (bytes "border-radius", bytes "25px")
              ∷ (bytes "font-size", bytes "18px")
              ∷ (bytes "min-width", bytes "50px")
              ∷ (bytes "max-width", bytes "50px")
              ∷ (bytes "min-height", bytes "50px")
              ∷ (bytes "max-height", bytes "50px")
              ∷ []);
      }
      ∷ record {
        selector = bytes "QPushButton#sendButton:hover";
        declarations = ((bytes "background-color", bytes "#0e8fd0") ∷ []);
      }
      ∷ record {
        selector = bytes "QPushButton#emojiButton, QPushButton#usersButton";
        declarations =
            ((bytes "background-color", bytes "transparent")
              ∷ (bytes "color", bytes "#737373")
              ∷ (bytes "border", bytes "none")
              ∷ (bytes "border-radius", bytes "25px")
              ∷ (bytes "font-size", bytes "22px")
              ∷ (bytes "min-width", bytes "50px")
              ∷ (bytes "max-width", bytes "50px")
              ∷ (bytes "min-height", bytes "50px")
              ∷ (bytes "max-height", bytes "50px")
              ∷ []);
      }
      ∷ record {
        selector = bytes "QPushButton#emojiButton:hover, QPushButton#usersButton:hover";
        declarations = ((bytes "background-color", bytes "#f0f2f5") ∷ []);
      }
      ∷ record {
        selector = bytes "QPushButton#logoutButton";
        declarations =
            ((bytes "background-color", bytes "transparent")
              ∷ (bytes "color", bytes "#737373")
              ∷ (bytes "border", bytes "1px solid #d0d0d0")
              ∷ (bytes "border-radius", bytes "20px")
              ∷ (bytes "padding", bytes "5px 15px")
              ∷ (bytes "font-size", bytes "14px")
              ∷ []);
      }
      ∷ record {
        selector = bytes "QPushButton#logoutButton:hover";
        declarations = ((bytes "background-color", bytes "#f0f2f5") ∷ []);
      }
      ∷ []

  abbrev pub apply_styles : Ui → Ui
  apply_styles ui = record ui { sheet = style_rules }

  abbrev pub status_style : Bytes → Style
  status_style color = (bytes "color", color) ∷ (bytes "font-weight", bytes "bold") ∷ []

  -- `updateConnectionStatus`
  abbrev pub update_status_ui : Bool → Ui → Ui
  update_status_ui connected = with_variable (bytes "m_statusLabel") (λ e.
      if connected
      then record e {
        text = from_std_string (bytes "Connected");
        style = status_style (bytes "#28a745");
      }
      else record e {
        text = from_std_string (bytes "Disconnected");
        style = status_style (bytes "#dc3545");
      })

  -- The constructor: `setupUi` with its styles, the styles again, and the status. `size` is the smallest.
  abbrev pub new_chat_ui : Ui
  new_chat_ui = update_status_ui false (
      apply_styles (
        apply_styles (record {
          is_shown = false;
          title = bytes "Qt Chat App";
          size = (800, 600);
          children = children;
          layouts = layouts;
          sheet = [];
        })))
