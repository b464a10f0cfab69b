-- ===== src/Client/ChatWindow/Draws.antt =====
-- The widgets of the chat window (chat_window.cpp) in any state of the window.
use qt_messenger.Prelude.{
  ◌≡◌, refl, Bool, true, false, Option, some, List, [], ◌∷◌, ◌++◌, bytes, map,
}
use qt_messenger.Qt.{Qt}
use qt_messenger.Message.{Message}
use qt_messenger.Client.Widgets.Children.{QtWidgets}
use qt_messenger.Client.QtText.{QtText}
use qt_messenger.Client.UserListWindow.Ui.{UserListUi}
use qt_messenger.Client.UserListWindow.Shows.{DrawsUsers}
use qt_messenger.Client.Widgets.{
  plain, label, Items, end, add_widget, add_stretch, element, Ui, with_variable,
}
use qt_messenger.Client.Widgets.Runs.{Alike}
use qt_messenger.Client.ChatWindow.{
  Part, stretch, bubble, avatar, Bubble, Item, chat_item, system_item, ChatWindow, bubble_of,
}
use qt_messenger.Client.ChatWindow.Ui.{status_style, new_chat_ui}
use qt_messenger.Client.ChatWindow.Rows.{message_layouts, message_widget, system_widget}
use qt_messenger.Client.ChatWindow.Acts.{ChatUi, set_input}

module _ ⦃qt : Qt⦄ ⦃widgets : QtWidgets⦄ ⦃text : QtText⦄ where
  open qt use {Uuid, DateTime, QString, from_std_string, is_empty}

  -- A layout from the order of its parts.
  abbrev pub items_of : List Part → Items
  items_of [] = end
  items_of (stretch ∷ parts) = add_stretch (items_of parts)
  items_of (bubble ∷ parts) = add_widget (bytes "bubbleWidget") false (items_of parts)
  items_of (avatar ∷ parts) = add_widget (bytes "avatarLabel") false (items_of parts)

  -- The widgets of a bubble.
  abbrev pub bubble_widget : Bubble → Ui
  bubble_widget b = record {
    is_shown = true;
    title = [];
    size = (0, 0);
    children =
        record (element plain (bytes "messageWidget")) { name = b.widget_name }
        ∷ record (element label (bytes "avatarLabel")) {
          fixed_width = some 40;
          fixed_height = some 40;
          is_centered = true;
          name = bytes "avatarLabel";
          text = b.avatar_letter;
          style =
              (bytes "background-color", b.avatar_color)
              ∷ (bytes "color", bytes "white")
              ∷ (bytes "border-radius", bytes "20px")
              ∷ (bytes "font-weight", bytes "bold")
              ∷ (bytes "font-size", bytes "16px")
              ∷ [];
        }
        ∷ record (element plain (bytes "bubbleWidget")) {
          name = b.bubble_name;
          style =
              (bytes "background-color", b.bubble_color)
              ∷ (bytes "border-radius", bytes "18px")
              ∷ (bytes "border-" ++ b.sharp_corner ++ bytes "-radius", bytes "5px")
              ∷ [];
        }
        ∷ element plain (bytes "headerWidget")
        ∷ record (element label (bytes "nameLabel")) {
          text = b.name;
          name = bytes "nameLabel";
          style = (bytes "font-weight", bytes "bold") ∷ (bytes "color", b.name_color) ∷ [];
        }
        ∷ record (element label (bytes "timeLabel")) {
          text = b.time;
          name = bytes "timeLabel";
          style = (bytes "color", bytes "#9e9e9e") ∷ (bytes "font-size", bytes "11px") ∷ [];
        }
        ∷ record (element label (bytes "textLabel")) {
          text = b.text;
          name = bytes "textLabel";
          style = (bytes "color", bytes "#333333") ∷ [];
        }
        ∷ [];
    layouts = message_layouts (items_of b.order);
    sheet = [];
  }

  pub message_widget-bubble_of :
      (own : Bool) (m : Message) → message_widget own m ≡ bubble_widget (bubble_of own m)
  unfolding bubble_of
  message_widget-bubble_of true m = refl
  message_widget-bubble_of false m = refl

  abbrev pub item_widget : Item → Ui
  item_widget (chat_item b) = bubble_widget b
  item_widget (system_item t) = system_widget t

  -- The widgets of a window in any state, with those of the window of the users.
  abbrev pub chat_drawn : ChatWindow → Option UserListUi → ChatUi
  chat_drawn w users = record {
    controller = w.controller;
    ui = set_input w.input_field (
        with_variable (bytes "m_statusLabel")
          (λ e. record e { text = w.status; style = status_style w.status_color }) new_chat_ui);
    history = map item_widget w.items;
    users = users;
    is_open = w.is_open;
  }

  pub record DrawsChat (w : ChatWindow) (p : ChatUi) : Type 0 where
    pub users : Option UserListUi
    pub same : p ≡ chat_drawn w users
    pub alike : Alike DrawsUsers w.user_list_window users
