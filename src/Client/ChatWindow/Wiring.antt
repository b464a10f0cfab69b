-- ===== src/Client/ChatWindow/Wiring.antt =====
-- chat_window.cpp: which signals of the window's widgets call which slots. `setupUi` connects them, and
-- `connectSignals`, which the constructor calls afterwards, connects them again.
use qt_messenger.Prelude.{
  ℕ, suc, Bool, true, false, Option, none, some, List, [], ◌∷◌, ◌++◌, map, if◌then◌else◌,
}
use qt_messenger.Qt.{Qt}
use qt_messenger.Client.NetworkClient.{Event}
use qt_messenger.Client.QtText.{QtText}
use qt_messenger.Client.ChatWindow.{ChatWindow, send_from_window, logout, open_user_list_window}

pub data Signal : Type 0 where
  send_clicked return_pressed emoji_clicked logout_clicked users_clicked : Signal

pub data Slot : Type 0 where
  sends opens_emojis logs_out opens_users : Slot

-- the connections of `setupUi`
abbrev pub setup_connections : List (Signal × Slot)
setup_connections =
    (send_clicked, sends)
    ∷ (return_pressed, sends)
    ∷ (emoji_clicked, opens_emojis)
    ∷ (logout_clicked, logs_out)
    ∷ (users_clicked, opens_users)
    ∷ []

-- the connections of `connectSignals`
abbrev pub connect_signals : List (Signal × Slot)
connect_signals =
    (send_clicked, sends)
    ∷ (return_pressed, sends)
    ∷ (emoji_clicked, opens_emojis)
    ∷ (logout_clicked, logs_out)
    ∷ (users_clicked, opens_users)
    ∷ []

abbrev pub is_signal : Signal → Signal → Bool
is_signal send_clicked send_clicked = true
is_signal return_pressed return_pressed = true
is_signal emoji_clicked emoji_clicked = true
is_signal logout_clicked logout_clicked = true
is_signal users_clicked users_clicked = true
is_signal _ _ = false

-- A connection that is made twice calls its slot twice.
unfoldable pub slots_of : Signal → List (Signal × Slot) → List Slot
slots_of signal [] = []
slots_of signal ((s, slot) ∷ rest) =
    let others = slots_of signal rest in if is_signal s signal then slot ∷ others else others

module _ ⦃qt : Qt⦄ where
  open qt use {Uuid, DateTime, QString}

  -- What the world adds to one call of a slot: an identifier and the time for a message, the answer to
  -- the question of `logout` and how the socket closes, the emoji that is chosen and the cursor.
  pub record Answer : Type 0 where
    pub id : Uuid
    pub now : DateTime
    pub confirmed : Bool
    pub at_once : Bool
    pub emoji : Option QString
    pub cursor : ℕ

  pub data Action : Type 0 where
    network : Event → Action
    shows_emojis : Action
    asks_to_log_out : Action
    logged_out : Action

module _ ⦃qt : Qt⦄ ⦃text : QtText⦄ where
  open qt use {QString}
  open text use {insert_at}

  -- `insertEmoji`, if one was chosen
  unfoldable pub insert_emoji : ℕ → Option QString → ChatWindow → ChatWindow
  insert_emoji cursor none w = w
  insert_emoji cursor (some emoji) w = record w {
    input_field = insert_at cursor emoji w.input_field;
  }

  unfoldable pub call_slot : Slot → Answer → ChatWindow → ChatWindow × List Action
  unfolding insert_emoji
  call_slot sends a w = let (w', es) = send_from_window a.id a.now w in (w', map network es)
  call_slot opens_emojis a w = (insert_emoji a.cursor a.emoji w, shows_emojis ∷ [])
  call_slot logs_out a w =
      let (w', es) = logout a.confirmed a.at_once w in
      (w', asks_to_log_out ∷ map network es ++ (if a.confirmed then logged_out ∷ [] else []))
  call_slot opens_users a w =
      let (w', es) = open_user_list_window a.id a.now w in (w', map network es)

  -- The slots one after the other, the `k`-th with the `k`-th answer.
  unfoldable pub call_slots : (ℕ → Answer) → ℕ → List Slot → ChatWindow → ChatWindow × List Action
  unfolding call_slot
  call_slots answers k [] w = (w, [])
  call_slots answers k (slot ∷ slots) w =
      let (w', as') = call_slot slot (answers k) w in
      let (w'', bs) = call_slots answers (suc k) slots w' in (w'', as' ++ bs)

  -- A signal of a widget of the window.
  unfoldable pub emit_signal : (ℕ → Answer) → Signal → ChatWindow → ChatWindow × List Action
  unfolding slots_of call_slots
  emit_signal answers signal w =
      call_slots answers 0 (slots_of signal (setup_connections ++ connect_signals)) w
