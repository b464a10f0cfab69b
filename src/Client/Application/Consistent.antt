-- ===== src/Client/Application/Consistent.antt =====
-- The windows of client/src/main.cpp fit together: what that means, and what follows from it.
use qt_messenger.Prelude.{
  ◌≡◌, refl, sym, ap, subst, ◌∙◌, inl, inr, Bool, true, false, not, ◌||◌, Option, Option-cases,
  none, some, is_some, List, [], ◌∷◌,
}
use qt_messenger.Qt.{Qt}
use qt_messenger.Database.{Sql}
use qt_messenger.Client.QtText.{QtText}
use qt_messenger.Client.ChatWindow.{ChatWindow}
use qt_messenger.Client.ChatWindow.Wiring.{
  Action, network, shows_emojis, asks_to_log_out, logged_out,
}
use qt_messenger.Client.LoginWindow.{LoginWindow, chat_logged_out, clear_error_message}
use qt_messenger.Client.Windows.{
  Dialog, no_dialog, asks_password, registers, password_dialog, leaves, respond,
}
use qt_messenger.Client.Application.{Application}
use qt_messenger.Client.Application.Credentials.{Whenever}
use qt_messenger.Client.Application.Kept.{account}

module _ ⦃qt : Qt⦄ where
  open qt use {QString, is_empty}

  pub respond-is_visible :
      (as' : List Action) (l : LoginWindow)
      → (respond as' l).is_visible ≡ (leaves as' || l.is_visible)
  unfolding respond leaves chat_logged_out clear_error_message
  respond-is_visible [] l = refl
  respond-is_visible (network e ∷ rest) l = respond-is_visible rest l
  respond-is_visible (shows_emojis ∷ rest) l = respond-is_visible rest l
  respond-is_visible (asks_to_log_out ∷ rest) l = respond-is_visible rest l
  respond-is_visible (logged_out ∷ rest) l =
      respond-is_visible rest (chat_logged_out l) ∙ or_true (leaves rest)
    where
      or_true : (b : Bool) → (b || true) ≡ true
      or_true true = refl
      or_true false = refl

  abbrev pub NamesUser : Option QString → Type 0
  NamesUser = Whenever (λ u. is_empty u ≡ false)

module _ ⦃qt : Qt⦄ ⦃text : QtText⦄ where
  open qt use {QString, is_empty}

  -- A dialog stands before the login window.
  abbrev pub Modal : Dialog → Bool → Type 0
  Modal no_dialog visible = Unit
  Modal _ visible = visible ≡ true

  -- A password is asked for a user with a name.
  abbrev pub Named : Dialog → Type 0
  Named (asks_password w) = is_empty w.username ≡ false
  Named _ = Unit

  pub Modal-visible : (before : Dialog) (b : Bool) → b ≡ true → Modal before b
  Modal-visible no_dialog b h = tt
  Modal-visible (asks_password w) b h = h
  Modal-visible (registers w) b h = h

  pub Modal-hidden : (before : Dialog) (b c : Bool) → b ≡ false → Modal before b → Modal before c
  Modal-hidden no_dialog b c e h = tt
  Modal-hidden (asks_password w) b c e h = cc
  Modal-hidden (registers w) b c e h = cc

  pub password_dialog-Named : (o : Option QString) → NamesUser o → Named (password_dialog o)
  unfolding password_dialog
  password_dialog-Named none h = tt
  password_dialog-Named (some u) h = h

module _ ⦃qt : Qt⦄ where
  pub nothing : (P : ChatWindow → Type 0) (o : Option ChatWindow) → o ≡ none → Whenever P o
  nothing P o e = subst (Whenever P) (sym e) tt

module _ ⦃qt : Qt⦄ ⦃text : QtText⦄ {Db : Type 0} ⦃sql : Sql Db⦄ where
  open qt use {QString, DateTime, trimmed, is_empty, to_std_string}

  -- The window's user and password are in the table, and neither is empty.
  pub record HasAccount (d : Db) (w : ChatWindow) : Type 0 where
    pub user : QString
    pub password : QString
    pub named : is_empty user ≡ false
    pub secret : is_empty password ≡ false
    pub stored : sql.password_of d user ≡ some password
    pub same : account w ≡ (to_std_string user, (to_std_string user, to_std_string password))

  pub same_account :
      (w v : ChatWindow) (d : Db) → account v ≡ account w → HasAccount d w → HasAccount d v
  same_account w v d e h = record {
    user = h.user;
    password = h.password;
    named = h.named;
    secret = h.secret;
    stored = h.stored;
    same = e ∙ h.same;
  }

  pub record IsConsistent (a : Application Db) : Type 0 where
    pub one_window : a.login.is_visible ≡ not (is_some a.chat)
    pub modal : Modal a.dialog a.login.is_visible
    pub named : Named a.dialog
    pub accounts : Whenever (HasAccount a.db) a.chat

  pub no_chat : (a : Application Db) → IsConsistent a → a.login.is_visible ≡ true → a.chat ≡ none
  no_chat a h visible = elim (Option-cases a.chat) [
    | inl e ↦ e
    | inr (w, e) ↦ absurd (cc (h.one_window, visible, ap is_some e))
  ]

  pub hidden :
      (a : Application Db) (w : ChatWindow)
      → IsConsistent a
      → a.chat ≡ some w
      → a.login.is_visible ≡ false
  hidden a w h e = h.one_window ∙ ap (λ o. not (is_some o)) e

  -- While the login window is visible the database may change.
  pub with_db :
      (a : Application Db) (next : Dialog) (d : Db)
      → IsConsistent a
      → a.login.is_visible ≡ true
      → Named next
      → IsConsistent (record a { dialog = next; db = d })
  with_db a next d h visible named = record {
    one_window = h.one_window;
    modal = Modal-visible next a.login.is_visible visible;
    named = named;
    accounts = nothing (HasAccount d) a.chat (no_chat a h visible);
  }
