-- ===== src/Client/Application/Accounts.antt =====
-- Every chat window that the program of client/src/main.cpp opens runs on an account of the database.
use qt_messenger.Prelude.{
  ℕ, zero, suc, ◌≡◌, refl, sym, ap, subst, ◌∙◌, inl, inr, Bool, true, false, not, ◌||◌, Option,
  Option-cases, none, some, is_some, List, [], ◌∷◌, if◌then◌else◌, if_intro,
}
use qt_messenger.Qt.{Qt}
use qt_messenger.Database.{Sql, initialize}
use qt_messenger.Client.QtText.{QtText}
use qt_messenger.Client.ChatWindow.{ChatWindow}
use qt_messenger.Client.ChatWindow.Wiring.{Action}
use qt_messenger.Client.LoginWindow.{clear_error_message}
use qt_messenger.Client.Windows.{
  ChatAct, Act, at_login, at_password, at_register, at_chat, cancels, signals, types_text, notices,
  closes_hidden, quits, new_login, leaves,
}
use qt_messenger.Client.Application.{
  if_chat, Application, launch, conclude, in_chat, close_hidden, act, and_play, play,
}
use qt_messenger.Client.Application.Credentials.{Whenever}
use qt_messenger.Client.Application.Kept.{
  SameAccount, hear_notice-SameAccount, heard_signal-SameAccount,
}
use qt_messenger.Client.Application.Consistent.{
  respond-is_visible, Modal-hidden, HasAccount, same_account, IsConsistent, hidden,
}
use qt_messenger.Client.Application.Dialogs.{
  if_free-IsConsistent, if_password-IsConsistent, if_register-IsConsistent,
}

module _ ⦃qt : Qt⦄ ⦃text : QtText⦄ {Db : Type 0} ⦃sql : Sql Db⦄ where
  open qt use {QString, DateTime, trimmed, is_empty, to_std_string}

  conclude-IsConsistent :
      (as' : List Action) (w : ChatWindow) (o : Option ChatWindow) (a : Application Db)
      → IsConsistent a
      → a.chat ≡ some w
      → SameAccount w o
      → Whenever IsConsistent (conclude as' o a)
  unfolding conclude
  conclude-IsConsistent as' w none a h e same = tt
  conclude-IsConsistent as' w (some v) a h e same =
      let closed = hidden a w h e in
      let k = subst (Whenever (HasAccount a.db)) e h.accounts in
      let seen = respond-is_visible as' a.login in
      record {
        one_window = seen ∙ ap (λ b. leaves as' || b) closed ∙ either (leaves as') v;
        modal = Modal-hidden a.dialog a.login.is_visible _ closed h.modal;
        named = h.named;
        accounts =
            if_intro (Whenever (HasAccount a.db)) (leaves as') (λ _. tt)
              (λ _. same_account w v a.db same k);
      }
    where
      either :
          (b : Bool) (v : ChatWindow) → (b || false) ≡ not (is_some (if b then none else some v))
      either true v = refl
      either false v = refl

  if_chat-IsConsistent :
      (x : ChatAct) (o : Option ChatWindow) (a : Application Db)
      → IsConsistent a
      → a.chat ≡ o
      → Whenever IsConsistent (if_chat x o a)
  unfolding if_chat in_chat
  if_chat-IsConsistent x none a h e = h
  if_chat-IsConsistent (types_text q) (some w) a h e = record {
    one_window = hidden a w h e;
    modal = h.modal;
    named = h.named;
    accounts = same_account w _ a.db refl (subst (Whenever (HasAccount a.db)) e h.accounts);
  }
  if_chat-IsConsistent (signals answers now s) (some w) a h e =
      conclude-IsConsistent _ w _ a h e (heard_signal-SameAccount answers now s _ w)
  if_chat-IsConsistent (notices now n) (some w) a h e =
      conclude-IsConsistent [] w _ a h e (hear_notice-SameAccount now n w)

  close_hidden-IsConsistent :
      (n : ℕ) (o : Option ChatWindow) (a : Application Db)
      → IsConsistent a
      → a.chat ≡ o
      → Whenever IsConsistent (close_hidden n o a)
  unfolding close_hidden
  close_hidden-IsConsistent zero o a h e = h
  close_hidden-IsConsistent (suc n) none a h e = tt
  close_hidden-IsConsistent (suc n) (some w) a h e = record {
    one_window = sym (ap (λ o. not (is_some o)) e);
    modal = Modal-hidden a.dialog a.login.is_visible false (hidden a w h e) h.modal;
    named = h.named;
    accounts = h.accounts;
  }

  act-IsConsistent :
      (x : Act) (a : Application Db) → IsConsistent a → Whenever IsConsistent (act x a)
  unfolding act
  act-IsConsistent (at_login x) a h = if_free-IsConsistent x a.dialog a h
  act-IsConsistent (at_password x) a h = if_password-IsConsistent x a.dialog a h refl
  act-IsConsistent (at_register x) a h = if_register-IsConsistent x a.dialog a h refl
  act-IsConsistent (at_chat x) a h = if_chat-IsConsistent x a.chat a h refl
  act-IsConsistent cancels a h = record {
    one_window = h.one_window;
    modal = tt;
    named = tt;
    accounts = h.accounts;
  }
  act-IsConsistent closes_hidden a h = close_hidden-IsConsistent a.timers a.chat a h refl
  act-IsConsistent quits a h = tt

  and_play-IsConsistent :
      (next : Application Db → Option (Application Db)) (o : Option (Application Db))
      → ((a : Application Db) → IsConsistent a → Whenever IsConsistent (next a))
      → Whenever IsConsistent o
      → Whenever IsConsistent (and_play next o)
  and_play-IsConsistent next none step h = tt
  and_play-IsConsistent next (some a) step h = step a h

  play-IsConsistent :
      (xs : List Act) (a : Application Db) → IsConsistent a → Whenever IsConsistent (play xs a)
  unfolding play
  play-IsConsistent [] a h = h
  play-IsConsistent (x ∷ xs) a h =
      and_play-IsConsistent (play xs) (act x a) (play-IsConsistent xs) (act-IsConsistent x a h)

  launch-IsConsistent : (d : Db) → Whenever IsConsistent (launch d)
  unfolding launch new_login clear_error_message
  launch-IsConsistent d = elim (Option-cases (initialize d)) [
    | inl e ↦ rw (e, Whenever) tt
    | inr (d', e) ↦
        rw (e, Whenever) (record { one_window = refl; modal = tt; named = tt; accounts = tt })
  ]

  -- From the start of the client, whatever the user, the network and the timers do: as long as the
  -- program runs, either the login window is visible or one chat window is open, dialogs stand only
  -- before the login window, and an open chat window and its network client run on a user and a
  -- password that are in the table, neither of them empty, if nobody else writes the database.
  pub chats_have_accounts :
      (d : Db) (a b : Application Db) (xs : List Act)
      → launch d ≡ some a
      → play xs a ≡ some b
      → IsConsistent b
  chats_have_accounts d a b xs started played =
      subst (Whenever IsConsistent) played
        (play-IsConsistent xs a (subst (Whenever IsConsistent) started (launch-IsConsistent d)))
