-- ===== src/Client/ChatWindow/Shown.antt =====
-- What the user sees of what the server sends: chat_window.cpp over network_client.cpp.
use qt_messenger.Prelude.{
  Bool, ◌||◌, if◌then◌else◌, ◌≡◌, refl, sym, ap, ◌∙◌, true, false, Option, none, some, List, [],
  ◌∷◌, ◌++◌, map, All, append_assoc, append-nil, flatten, Bytes, Option-cases, inl, inr,
}
use qt_messenger.Qt.{Qt}
use qt_messenger.Message.{Message, is_user_list}
use qt_messenger.Message.Wire.{IsSendable}
use qt_messenger.Client.NetworkClient.{
  NetworkClient, Event, user_list_received, calls_user_list, dispatch, Ending,
}
use qt_messenger.Client.NetworkClient.Loop.{encode, dispatch_all}
use qt_messenger.Client.NetworkClient.Reassembly.{receive, receive-encode}
use qt_messenger.Client.QtText.{QtText, is_fatal}
use qt_messenger.Client.UserListWindow.{UserListWindow, update_rows}
use qt_messenger.Client.ChatWindow.{
  ChatWindow, Item, chat_item, bubble_of, is_own_message, display_chat_message, handle_event,
  handle_events, and_handle, put_list, update_list, update_user_list,
}

module _ ⦃qt : Qt⦄ ⦃text : QtText⦄ where
  open qt use {DateTime, QString, from_std_string, is_empty}

  -- A chat message whose user name can be shown.
  pub record IsShowable (m : Message) : Type 0 where
    pub chats : is_user_list m.kind ≡ false
    pub named : is_empty (from_std_string m.username) ≡ false

  abbrev pub item_for : ChatWindow → Message → Item
  item_for w m = chat_item (bubble_of (is_own_message w m) m)

  abbrev pub shown : ChatWindow → List Message → ChatWindow
  shown w ms = record w { items = w.items ++ map (item_for w) ms }

  handle_events-append :
      (now : DateTime) (es fs : List Event) (w : ChatWindow)
      → handle_events now (es ++ fs) w ≡ and_handle (handle_events now fs) (handle_events now es w)
  unfolding handle_events
  handle_events-append now [] fs w = refl
  handle_events-append now (e ∷ es) fs w = elim (Option-cases (handle_event now e w)) [
    | inl h ↦ rw h refl
    | inr (v, h) ↦ rw h (handle_events-append now es fs v)
  ]

  handle_last : (now : DateTime) (o : Option ChatWindow) → and_handle (handle_events now []) o ≡ o
  unfolding handle_events
  handle_last now none = refl
  handle_last now (some w) = refl

  handle_events-dispatch :
      (now : DateTime) (c : NetworkClient) (m : Message) (w : ChatWindow)
      → c.message_callback ≡ true
      → is_user_list m.kind ≡ false
      → handle_events now (dispatch c m) w ≡ display_chat_message m w
  unfolding handle_events handle_event dispatch
  handle_events-dispatch now c m w set chats =
      rw (chats, set) (handle_last now (display_chat_message m w))

  display_showable :
      (m : Message) (w : ChatWindow)
      → IsShowable m
      → display_chat_message m w ≡ some (shown w (m ∷ []))
  unfolding display_chat_message
  display_showable m w h = rw h.named refl

  shown_messages :
      (now : DateTime) (c : NetworkClient) (ms : List Message) (w : ChatWindow)
      → c.message_callback ≡ true
      → All IsShowable ms
      → handle_events now (dispatch_all c ms) w ≡ some (shown w ms)
  unfolding handle_events
  shown_messages now c [] w set h = λ i. some (record w { items = sym (append-nil w.items) i })
  shown_messages now c (m ∷ ms) w set h =
      handle_events-append now (dispatch c m) (dispatch_all c ms) w
      ∙ ap (and_handle (handle_events now (dispatch_all c ms)))
          (handle_events-dispatch now c m w set h.0.chats ∙ display_showable m w h.0)
      ∙ shown_messages now c ms (shown w (m ∷ [])) set h.1
      ∙ λ i.
          some
            (record w { items = append_assoc w.items (item_for w m ∷ []) (map (item_for w) ms) i })

  -- However the bytes of a sequence of chat messages that fit the format are cut into reads, a window
  -- over a client with an empty buffer and its message callback set shows exactly these messages
  -- behind what it showed before, each once and in order, if none has an empty user name.
  pub displayed-encode :
      (now : DateTime) (bs : List Bytes) (c : NetworkClient) (ms : List Message) (w : ChatWindow)
      → All IsSendable ms
      → All IsShowable ms
      → c.received_buffer ≡ []
      → c.message_callback ≡ true
      → flatten bs ≡ encode ms
      → handle_events now (receive bs c).1 w ≡ some (shown w ms)
  displayed-encode now bs c ms w sendable showable empty set e =
      ap (λ (r : NetworkClient × List Event × Ending). handle_events now r.1 w)
        (receive-encode bs c ms sendable empty e)
      ∙ shown_messages now c ms w set showable

  -- One of the names is empty, and the build checks for that.
  abbrev pub stops : List Message → Bool
  stops [] = false
  stops (m ∷ ms) = is_fatal (from_std_string m.username) || stops ms

  display_next :
      (now : DateTime) (m : Message) (w : ChatWindow) (rest : List Message)
      (next : ChatWindow → Option ChatWindow)
      → next (shown w (m ∷ []))
        ≡ (if stops rest then none else some (shown (shown w (m ∷ [])) rest))
      → and_handle next (display_chat_message m w)
        ≡ (if stops (m ∷ rest) then none else some (shown (shown w (m ∷ [])) rest))
  unfolding display_chat_message
  display_next now m w rest next h =
      elim (is_fatal (from_std_string m.username))
        as (λ b.
          and_handle next (if b then none else some (shown w (m ∷ [])))
          ≡ (if b || stops rest then none else some (shown (shown w (m ∷ [])) rest))) [
            | true ↦ refl
            | false ↦ h
          ]

  any_messages :
      (now : DateTime) (c : NetworkClient) (ms : List Message) (w : ChatWindow)
      → c.message_callback ≡ true
      → All (λ (m : Message). is_user_list m.kind ≡ false) ms
      → handle_events now (dispatch_all c ms) w ≡ (if stops ms then none else some (shown w ms))
  unfolding handle_events
  any_messages now c [] w set h = λ i. some (record w { items = sym (append-nil w.items) i })
  any_messages now c (m ∷ ms) w set h =
      handle_events-append now (dispatch c m) (dispatch_all c ms) w
      ∙ ap (and_handle (handle_events now (dispatch_all c ms)))
          (handle_events-dispatch now c m w set h.0)
      ∙ display_next now m w ms (handle_events now (dispatch_all c ms))
          (any_messages now c ms (shown w (m ∷ [])) set h.1)
      ∙ λ i.
          if stops (m ∷ ms)
          then none
          else some (record w {
            items = append_assoc w.items (item_for w m ∷ []) (map (item_for w) ms) i;
          })

  -- Chat messages with any user names, cut into any reads: if `at` is checked and one of them has an
  -- empty user name, the program stops; otherwise the window shows exactly these messages behind what
  -- it showed before, each once and in order, the nameless too. The messages fit the format, and the
  -- client has an empty buffer and its message callback set.
  pub displayed_or_stopped :
      (now : DateTime) (bs : List Bytes) (c : NetworkClient) (ms : List Message) (w : ChatWindow)
      → All IsSendable ms
      → All (λ (m : Message). is_user_list m.kind ≡ false) ms
      → c.received_buffer ≡ []
      → c.message_callback ≡ true
      → flatten bs ≡ encode ms
      → handle_events now (receive bs c).1 w ≡ (if stops ms then none else some (shown w ms))
  displayed_or_stopped now bs c ms w sendable chats empty set e =
      ap (λ (r : NetworkClient × List Event × Ending). handle_events now r.1 w)
        (receive-encode bs c ms sendable empty e)
      ∙ any_messages now c ms w set chats

  put_twice :
      (now : DateTime) (us : List QString) (w : ChatWindow) (l : UserListWindow)
      → and_handle
          (λ v. and_handle (handle_events now []) (update_user_list us v))
          (put_list w (update_rows us l))
        ≡ put_list w (update_rows us l)
  unfolding update_user_list update_rows
  put_twice now us w l = elim (Option-cases (update_rows us l)) [
    | inl e ↦ rw e refl
    | inr (again, e) ↦
        ap
          (λ o.
            and_handle (λ v. and_handle (handle_events now []) (update_user_list us v))
              (put_list w o))
          e
        ∙ handle_last now
            (put_list (record w { user_list_window = some again }) (update_rows us again))
        ∙ ap (put_list (record w { user_list_window = some again })) e
        ∙ sym (ap (put_list w) e)
  ]

  -- A user list reaches an open user list window twice, by the signal and by the callback, with the
  -- effect of one: the window shows the names of this list and no others, or the program stops at an
  -- empty one, if `at` is checked. The client has its user list callback set.
  pub user_list_shown :
      (now : DateTime) (c : NetworkClient) (m : Message) (w : ChatWindow) (l : UserListWindow)
      → c.user_list_callback ≡ true
      → is_user_list m.kind ≡ true
      → w.user_list_window ≡ some l
      → handle_events now (dispatch c m) w
        ≡ put_list w (update_rows (map from_std_string m.users) l)
  unfolding handle_events handle_event dispatch update_user_list
  user_list_shown now c m w l set lists opened =
      let us : List QString = map from_std_string m.users in
      let signals : List Event = user_list_received us ∷ calls_user_list us ∷ [] in
      let both : dispatch c m ≡ signals = rw (lists, set) refl in
      ap (λ es. handle_events now es w) both
      ∙ ap (and_handle (λ v. and_handle (handle_events now []) (update_user_list us v)))
          (ap (λ o. update_list us o w) opened)
      ∙ put_twice now us w l
