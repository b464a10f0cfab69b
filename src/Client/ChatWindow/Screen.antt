-- ===== src/Client/ChatWindow/Screen.antt =====
-- The chat window (chat_window.cpp) under everything that happens to it, and what its widgets show.
use qt_messenger.Prelude.{
  ◌≡◌, refl, sym, ap, subst, true, none, some, List, [], ◌∷◌, Bytes, bytes, bytes_eq, map,
  if◌then◌else◌,
}
use qt_messenger.Qt.{Qt}
use qt_messenger.Client.Widgets.Children.{QtWidgets}
use qt_messenger.Client.QtText.{QtText}
use qt_messenger.Client.NetworkClient.{NetworkClient}
use qt_messenger.Client.ChatController.{new_controller}
use qt_messenger.Client.UserListWindow.Shows.{ShowsUsers, DrawsUsers-ShowsUsers}
use qt_messenger.Client.Widgets.{
  Items, end, add_widget, add_layout, add_spacing, add_stretch, Layout, box, Ui, element_of, seen,
  styled, declared,
}
use qt_messenger.Client.Widgets.Runs.{Alike, Alike-weaken, run_until, run_until-Alike}
use qt_messenger.Client.ChatWindow.{
  Part, stretch, bubble, avatar, Bubble, Item, chat_item, system_item, ChatWindow, new_window,
  update_connection_status,
}
use qt_messenger.Client.ChatWindow.Ui.{new_chat_ui}
use qt_messenger.Client.ChatWindow.Acts.{ChatUi, input_of}
use qt_messenger.Client.ChatWindow.Draws.{items_of, item_widget, DrawsChat}
use qt_messenger.Client.ChatWindow.Happenings.{ChatEvent, chat_window, chat_ui, chat-DrawsChat}

module _ ⦃qt : Qt⦄ ⦃widgets : QtWidgets⦄ ⦃text : QtText⦄ where
  open qt use {Uuid, DateTime, QString, from_std_string}

  -- What the user sees of a message: who said what and when, the letter and the colours, the names of
  -- the widgets, and the order of the parts.
  abbrev arranged : Items → List Part
  arranged end = []
  arranged (add_stretch items) = stretch ∷ arranged items
  arranged (add_widget v centred items) =
      let rest = arranged items in
      if bytes_eq v (bytes "avatarLabel") then avatar ∷ rest else bubble ∷ rest
  arranged (add_layout l items) = arranged items
  arranged (add_spacing n items) = arranged items

  abbrev items_in : List (Bytes × Layout) → Items
  items_in [] = end
  items_in ((v, box horizontal spacing margins items) ∷ _) = items

  pub record ShowsBubble (b : Bubble) (row : Ui) : Type 0 where
    pub name : seen (element_of (bytes "nameLabel") row) ≡ some b.name
    pub time : seen (element_of (bytes "timeLabel") row) ≡ some b.time
    pub words : seen (element_of (bytes "textLabel") row) ≡ some b.text
    pub letter : seen (element_of (bytes "avatarLabel") row) ≡ some b.avatar_letter
    pub name_color :
        declared (bytes "color") (styled (element_of (bytes "nameLabel") row)) ≡ some b.name_color
    pub avatar_color :
        declared (bytes "background-color") (styled (element_of (bytes "avatarLabel") row))
        ≡ some b.avatar_color
    pub bubble_color :
        declared (bytes "background-color") (styled (element_of (bytes "bubbleWidget") row))
        ≡ some b.bubble_color
    pub order : arranged (items_in row.layouts) ≡ b.order

  pub data ShowsItem : Item → Ui → Type 0 where
    shows_bubble : {b : Bubble} {row : Ui} → ShowsBubble b row → ShowsItem (chat_item b) row
    shows_system :
        {t : QString} {row : Ui}
        → seen (element_of (bytes "textLabel") row) ≡ some t
        → ShowsItem (system_item t) row

  -- The items one by one.
  pub data ShowsItems : List Item → List Ui → Type 0 where
    no_items : ShowsItems [] []
    next_item :
        {i : Item} {row : Ui} {items : List Item} {rows : List Ui}
        → ShowsItem i row
        → ShowsItems items rows
        → ShowsItems (i ∷ items) (row ∷ rows)

  -- What the user sees of the window: the status and its colour, what stands in the field, the
  -- messages in their order, and the window of the users, if there is one.
  pub record ShowsChat (w : ChatWindow) (p : ChatUi) : Type 0 where
    pub status : seen (element_of (bytes "m_statusLabel") p.ui) ≡ some w.status
    pub status_color :
        declared (bytes "color") (styled (element_of (bytes "m_statusLabel") p.ui))
        ≡ some w.status_color
    pub input : input_of p.ui ≡ w.input_field
    pub items : ShowsItems w.items p.history
    pub users : Alike ShowsUsers w.user_list_window p.users
    pub is_open : p.is_open ≡ w.is_open

  arranged-items_of : (parts : List Part) → arranged (items_of parts) ≡ parts
  arranged-items_of [] = refl
  arranged-items_of (stretch ∷ parts) = ap (λ ps. stretch ∷ ps) (arranged-items_of parts)
  arranged-items_of (bubble ∷ parts) = ap (λ ps. bubble ∷ ps) (arranged-items_of parts)
  arranged-items_of (avatar ∷ parts) = ap (λ ps. avatar ∷ ps) (arranged-items_of parts)

  item_widget-ShowsItem : (i : Item) → ShowsItem i (item_widget i)
  item_widget-ShowsItem (chat_item b) = shows_bubble (record {
    name = refl;
    time = refl;
    words = refl;
    letter = refl;
    name_color = refl;
    avatar_color = refl;
    bubble_color = refl;
    order = arranged-items_of b.order;
  })
  item_widget-ShowsItem (system_item t) = shows_system refl

  item_widgets-ShowsItems : (items : List Item) → ShowsItems items (map item_widget items)
  item_widgets-ShowsItems [] = no_items
  item_widgets-ShowsItems (i ∷ items) =
      next_item (item_widget-ShowsItem i) (item_widgets-ShowsItems items)

  DrawsChat-ShowsChat : (w : ChatWindow) (p : ChatUi) → DrawsChat w p → ShowsChat w p
  DrawsChat-ShowsChat w p d = subst (ShowsChat w) (sym d.same) (record {
    status = refl;
    status_color = refl;
    input = refl;
    items = item_widgets-ShowsItems w.items;
    users = Alike-weaken DrawsUsers-ShowsUsers w.user_list_window d.users d.alike;
    is_open = refl;
  })

  -- The widgets as the constructor leaves them.
  abbrev pub opened_ui : NetworkClient → ChatUi
  opened_ui c = record {
    controller = new_controller c;
    ui = new_chat_ui;
    history = [];
    users = none;
    is_open = true;
  }

  opened-DrawsChat : (c : NetworkClient) → DrawsChat (new_window c) (opened_ui c)
  unfolding new_window update_connection_status
  opened-DrawsChat c = record { users = none; same = refl; alike = tt }

  -- Whatever the user of a new chat window types, clicks and searches, and whatever the network client
  -- reports, the widgets of the window stop the program exactly when its description without widgets
  -- says so; until then they show its status in its colour, its text field, its messages in their
  -- order with their names, times, letters, colours and sides, and its window of the users, as that
  -- description says, and they are open exactly as long.
  pub chat_widgets_show_window :
      (xs : List ChatEvent) (c : NetworkClient)
      → Alike ShowsChat
          (run_until chat_window xs (new_window c))
          (run_until chat_ui xs (opened_ui c))
  chat_widgets_show_window xs c =
      Alike-weaken DrawsChat-ShowsChat (run_until chat_window xs (new_window c))
        (run_until chat_ui xs (opened_ui c))
        (run_until-Alike DrawsChat chat_window chat_ui chat-DrawsChat xs (new_window c)
          (opened_ui c) (opened-DrawsChat c))
