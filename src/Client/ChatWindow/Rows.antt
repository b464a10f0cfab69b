-- ===== src/Client/ChatWindow/Rows.antt =====
-- client/src/chat_window.cpp: the widgets in the history of the chat. Word wrap, the selection of text
-- and the sizes of the items are left out.
use qt_messenger.Prelude.{Bool, true, false, none, some, List, [], ◌∷◌, Bytes, bytes, if◌then◌else◌}
use qt_messenger.Qt.{Qt}
use qt_messenger.Client.QtText.{QtText}
use qt_messenger.Client.Widgets.{
  plain, label, Layout, Items, box, end, add_widget, add_stretch, element, Ui,
}
use qt_messenger.Message.{Message}

module _ ⦃qt : Qt⦄ ⦃text : QtText⦄ where
  open qt use {QString, DateTime, from_std_string}
  open text use {first_letter, hours_minutes, arg_texts}

  -- The order of the parts of a message: the user's own on the right, another's on the left.
  abbrev pub message_items : Bool → Items
  message_items true =
      add_stretch
        (add_widget (bytes "bubbleWidget") false (add_widget (bytes "avatarLabel") false end))
  message_items false =
      add_widget (bytes "avatarLabel") false
        (add_widget (bytes "bubbleWidget") false (add_stretch end))

  abbrev pub message_layouts : Items → List (Bytes × Layout)
  message_layouts items =
      (bytes "messageWidget", box true none (some (5, 5, 5, 5)) items)
      ∷ (
        bytes "bubbleWidget",
        box false (some 2) (some (12, 8, 12, 8))
            (add_widget (bytes "headerWidget") false (add_widget (bytes "textLabel") false end)),
      )
      ∷ (
        bytes "headerWidget",
        box true (some 10) (some (0, 0, 0, 2)) (
            add_widget (bytes "nameLabel") false
              (add_stretch (add_widget (bytes "timeLabel") false end))),
      )
      ∷ []

  -- What `displayChatMessage` builds for a message, whose user name is not empty.
  abbrev pub message_widget : Bool → Message → Ui
  message_widget own m = record {
    is_shown = true;
    title = [];
    size = (0, 0);
    children =
        record (element plain (bytes "messageWidget")) {
          name = if own then bytes "ownMessageWidget" else bytes "otherMessageWidget";
        }
        ∷ record (element label (bytes "avatarLabel")) {
          fixed_width = some 40;
          fixed_height = some 40;
          is_centered = true;
          name = bytes "avatarLabel";
          text = first_letter (from_std_string m.username);
          style =
              if own
              then ((bytes "background-color", bytes "#179cde")
                  ∷ (bytes "color", bytes "white")
                  ∷ (bytes "border-radius", bytes "20px")
                  ∷ (bytes "font-weight", bytes "bold")
                  ∷ (bytes "font-size", bytes "16px")
                  ∷ [])
              else ((bytes "background-color", bytes "#9e9e9e")
                  ∷ (bytes "color", bytes "white")
                  ∷ (bytes "border-radius", bytes "20px")
                  ∷ (bytes "font-weight", bytes "bold")
                  ∷ (bytes "font-size", bytes "16px")
                  ∷ []);
        }
        ∷ record (element plain (bytes "bubbleWidget")) {
          name = if own then bytes "ownBubble" else bytes "otherBubble";
          style =
              if own
              then ((bytes "background-color", bytes "#e3f2fd")
                  ∷ (bytes "border-radius", bytes "18px")
                  ∷ (bytes "border-top-right-radius", bytes "5px")
                  ∷ [])
              else ((bytes "background-color", bytes "white")
                  ∷ (bytes "border-radius", bytes "18px")
                  ∷ (bytes "border-top-left-radius", bytes "5px")
                  ∷ []);
        }
        ∷ element plain (bytes "headerWidget")
        ∷ record (element label (bytes "nameLabel")) {
          text = if own then from_std_string (bytes "You") else from_std_string m.username;
          name = bytes "nameLabel";
          style =
              if own
              then ((bytes "font-weight", bytes "bold") ∷ (bytes "color", bytes "#179cde") ∷ [])
              else ((bytes "font-weight", bytes "bold") ∷ (bytes "color", bytes "#333333") ∷ []);
        }
        ∷ record (element label (bytes "timeLabel")) {
          text = hours_minutes m.timestamp;
          name = bytes "timeLabel";
          style = ((bytes "color", bytes "#9e9e9e") ∷ (bytes "font-size", bytes "11px") ∷ []);
        }
        ∷ record (element label (bytes "textLabel")) {
          text = from_std_string m.text;
          name = bytes "textLabel";
          style = ((bytes "color", bytes "#333333") ∷ []);
        }
        ∷ [];
    layouts = message_layouts (message_items own);
    sheet = [];
  }

  -- What `displaySystemMessage` builds for a text.
  abbrev pub system_widget : QString → Ui
  system_widget message = record {
    is_shown = true;
    title = [];
    size = (0, 0);
    children =
        element plain (bytes "messageWidget")
        ∷ record (element plain (bytes "bubbleWidget")) {
          name = bytes "systemBubble";
          style =
              ((bytes "background-color", bytes "#f1f1f1")
                ∷ (bytes "border-radius", bytes "18px")
                ∷ []);
        }
        ∷ record (element label (bytes "textLabel")) {
          text = message;
          is_centered = true;
          style =
              ((bytes "color", bytes "#757575")
                ∷ (bytes "font-size", bytes "13px")
                ∷ (bytes "font-style", bytes "italic")
                ∷ []);
        }
        ∷ [];
    layouts =
        (
          bytes "messageWidget",
          box true none (some (5, 5, 5, 5))
              (add_stretch (add_widget (bytes "bubbleWidget") false (add_stretch end))),
        )
        ∷ (
          bytes "bubbleWidget",
          box false none (some (15, 10, 15, 10)) (add_widget (bytes "textLabel") false end),
        )
        ∷ [];
    sheet = [];
  }

  abbrev pub system_text : DateTime → Bytes → QString
  system_text now message =
      arg_texts (bytes "[%1] %2") (hours_minutes now) (from_std_string message)
