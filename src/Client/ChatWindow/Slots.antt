-- ===== src/Client/ChatWindow/Slots.antt =====
-- The slots of the chat window (chat_window.cpp), with and without its widgets.
use qt_messenger.Prelude.{
  ◌≡◌, refl, sym, ap, ap₂, subst, ℕ, suc, Bool, true, false, Option, none, some, List, [], ◌∷◌,
  ◌++◌, map, if◌then◌else◌,
}
use qt_messenger.Qt.{Qt}
use qt_messenger.Client.Widgets.Children.{QtWidgets}
use qt_messenger.Client.QtText.{QtText}
use qt_messenger.Client.ChatController.{send_input}
use qt_messenger.Client.UserListWindow.{UserListWindow}
use qt_messenger.Client.UserListWindow.Ui.{UserListUi}
use qt_messenger.Client.UserListWindow.Shows.{DrawsUsers, opened-DrawsUsers}
use qt_messenger.Client.Widgets.Runs.{Alike, if_both}
use qt_messenger.Client.ChatWindow.{
  ChatWindow, send_from_window, get_input_text, logout, or_new, open_user_list_window,
}
use qt_messenger.Client.ChatWindow.Wiring.{
  network, asks_to_log_out, logged_out, Slot, sends, opens_emojis, logs_out, opens_users, Answer,
  Action, insert_emoji, call_slot, call_slots,
}
use qt_messenger.Client.ChatWindow.Acts.{
  ChatUi, set_input, send_ui, logout_ui, or_new_ui, open_users_ui, insert_emoji_ui, call_slot_ui,
  call_slots_ui,
}
use qt_messenger.Client.ChatWindow.Draws.{chat_drawn, DrawsChat}

module _ ⦃qt : Qt⦄ ⦃widgets : QtWidgets⦄ ⦃text : QtText⦄ where
  open qt use {Uuid, DateTime, QString, from_std_string}

  abbrev pub Matches : ChatWindow × List Action → ChatUi × List Action → Type 0
  Matches r q = DrawsChat r.0 q.0 × (r.1 ≡ q.1)

  pub type_text-DrawsChat :
      (q : QString) (w : ChatWindow) (p : ChatUi)
      → DrawsChat w p
      → DrawsChat (record w { input_field = q }) (record p { ui = set_input q p.ui })
  type_text-DrawsChat q w p d = record {
    users = d.users;
    same = ap (λ (p : ChatUi). record p { ui = set_input q p.ui }) d.same;
    alike = d.alike;
  }

  drawn-DrawsChat :
      (w : ChatWindow) (users : Option UserListUi)
      → Alike DrawsUsers w.user_list_window users
      → DrawsChat w (chat_drawn w users)
  drawn-DrawsChat w users h = record { users = users; same = refl; alike = h }

  -- The slots, over the widgets that a window draws.
  send-Matches :
      (id : Uuid) (now : DateTime) (w : ChatWindow) (users : Option UserListUi)
      → Alike DrawsUsers w.user_list_window users
      → let r = send_from_window id now w in
        let q = send_ui id now (chat_drawn w users) in DrawsChat r.0 q.0 × (r.1 ≡ q.1)
  unfolding send_from_window send_ui get_input_text
  send-Matches id now w users h =
      let d = drawn-DrawsChat w users h in
      (
        if_both DrawsChat (send_input id now (get_input_text w) w.controller).1
            (type_text-DrawsChat (from_std_string []) w (chat_drawn w users) d) d,
        refl,
      )

  logout-Matches :
      (confirmed at_once : Bool) (w : ChatWindow) (users : Option UserListUi)
      → Alike DrawsUsers w.user_list_window users
      → let r = logout confirmed at_once w in
        let q = logout_ui confirmed at_once (chat_drawn w users) in DrawsChat r.0 q.0 × (r.1 ≡ q.1)
  unfolding logout logout_ui
  logout-Matches true at_once w users h = (record { users = users; same = refl; alike = h }, refl)
  logout-Matches false at_once w users h = (drawn-DrawsChat w users h, refl)

  or_new-Alike :
      (o : Option UserListWindow) (o' : Option UserListUi)
      → Alike DrawsUsers o o'
      → Alike DrawsUsers (or_new o) (or_new_ui o')
  or_new-Alike none none h = opened-DrawsUsers
  or_new-Alike (some l) (some l') h = h
  or_new-Alike none (some l') h = absurd h
  or_new-Alike (some l) none h = absurd h

  insert_emoji-DrawsChat :
      (cursor : ℕ) (o : Option QString) (w : ChatWindow) (users : Option UserListUi)
      → Alike DrawsUsers w.user_list_window users
      → DrawsChat (insert_emoji cursor o w) (insert_emoji_ui cursor o (chat_drawn w users))
  unfolding insert_emoji insert_emoji_ui
  insert_emoji-DrawsChat cursor none w users h = drawn-DrawsChat w users h
  insert_emoji-DrawsChat cursor (some emoji) w users h = record {
    users = users;
    same = refl;
    alike = h;
  }

  call_slot-drawn :
      (slot : Slot) (a : Answer) (w : ChatWindow) (users : Option UserListUi)
      → Alike DrawsUsers w.user_list_window users
      → Matches (call_slot slot a w) (call_slot_ui slot a (chat_drawn w users))
  unfolding call_slot call_slot_ui open_user_list_window open_users_ui
  call_slot-drawn sends a w users h =
      let s = send-Matches a.id a.now w users h in (s.0, ap (map network) s.1)
  call_slot-drawn opens_emojis a w users h =
      (insert_emoji-DrawsChat a.cursor a.emoji w users h, refl)
  call_slot-drawn logs_out a w users h =
      let s = logout-Matches a.confirmed a.at_once w users h in
      (
        s.0,
        ap (λ es. asks_to_log_out ∷ map network es ++ (if a.confirmed then logged_out ∷ [] else []))
            s.1,
      )
  call_slot-drawn opens_users a w users h = (
    record {
      users = or_new_ui users;
      same = refl;
      alike = or_new-Alike w.user_list_window users h;
    },
    refl,
  )

  pub call_slots-Matches :
      (answers : ℕ → Answer) (k : ℕ) (slots : List Slot) (w : ChatWindow) (p : ChatUi)
      → DrawsChat w p
      → Matches (call_slots answers k slots w) (call_slots_ui answers k slots p)
  unfolding call_slots call_slots_ui
  call_slots-Matches answers k [] w p d = (d, refl)
  call_slots-Matches answers k (slot ∷ slots) w p d =
      let now =
        subst (λ p. Matches (call_slot slot (answers k) w) (call_slot_ui slot (answers k) p))
          (sym d.same) (call_slot-drawn slot (answers k) w d.users d.alike) in
      let next = call_slots-Matches answers (suc k) slots _ _ now.0 in
      (next.0, ap₂ (λ es fs. es ++ fs) now.1 next.1)
