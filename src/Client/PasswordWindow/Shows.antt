-- ===== src/Client/PasswordWindow/Shows.antt =====
-- The widgets of the password window (password_window.cpp), against its description without widgets.
use qt_messenger.Prelude.{
  ◌≡◌, ◌∷◌, refl, sym, ap, ◌∙◌, subst, if_intro, Bool, true, false, Option, none, some, List, [],
  Bytes, bytes, if◌then◌else◌,
}
use mathlib.Core.Option.{some-injective}
use qt_messenger.Qt.{Qt}
use qt_messenger.Database.{IDatabase}
use qt_messenger.Client.QtText.{QtText, is_fatal}
use qt_messenger.Client.NetworkClient.{Event}
use qt_messenger.Client.ChatWindow.{ChatWindow}
use qt_messenger.Client.Widgets.{IsOnly, label, Ui, element_of, with_variable, set_text, said, seen}
use qt_messenger.Client.Widgets.Children.{
  in_order, QtWidgets, changes_at, with_child-with_variable, in_order-changes_at,
}
use qt_messenger.Client.Widgets.Runs.{Acting, Agrees, run_acts, run_acts-Agrees, if_both}
use qt_messenger.Client.Windows.{PasswordAct, types_password, submits}
use qt_messenger.Client.PasswordWindow.{PasswordWindow, show_error, after_check, on_submit_clicked}
use qt_messenger.Client.PasswordWindow.Ui.{
  apply_styles, style_changes, bare_ui, setup_named, new_password_ui, put_error, show_error_ui,
  PasswordUi, with_ui, after_check_ui, on_submit_ui, password_act_ui,
}

module _ ⦃qt : Qt⦄ ⦃widgets : QtWidgets⦄ ⦃text : QtText⦄ where
  open qt use {QString, from_std_string, trimmed, is_empty}
  open text use {first_letter, arg_text}

  -- What the user sees: for whom the password is asked, the first letter of the name, what stands in
  -- the field, and the error, if there is one.
  pub record ShowsPassword (w : PasswordWindow) (ui : Ui) : Type 0 where
    pub heading :
        seen (element_of (bytes "m_statusLabel") ui)
        ≡ some (arg_text (bytes "Login for %1") w.username)
    pub avatar : seen (element_of (bytes "avatarLabel") ui) ≡ some (first_letter w.username)
    pub field : said (element_of (bytes "m_passwordField") ui) ≡ w.password_field
    pub error : seen (element_of (bytes "errorLabel") ui) ≡ w.error

  -- The widgets as the constructor leaves them, by the variables that `findChild` is after.
  abbrev found : List Bytes
  found =
      bytes "mainContainer"
      ∷ bytes "m_statusLabel"
      ∷ bytes "avatarLabel"
      ∷ bytes "passwordIcon"
      ∷ bytes "errorLabel"
      ∷ bytes "cancelButton"
      ∷ []

  abbrev styled_ui : QString → Ui
  styled_ui u = changes_at found style_changes (changes_at found style_changes (bare_ui u))

  styled_ui_lem : (u : QString) → apply_styles (setup_named u) ≡ styled_ui u
  styled_ui_lem u =
      ap (in_order style_changes) (
        in_order-changes_at found style_changes (bare_ui u) (
          (refl, refl),
          ((refl, refl), ((refl, refl), ((refl, refl), ((refl, refl), ((refl, refl), tt))))),
        ))
      ∙ in_order-changes_at found style_changes (changes_at found style_changes (bare_ui u)) (
        (refl, refl),
        ((refl, refl), ((refl, refl), ((refl, refl), ((refl, refl), ((refl, refl), tt))))),
      )

  abbrev show_at : Option QString → Ui → Ui
  show_at none ui = ui
  show_at (some message) ui =
      with_variable (bytes "errorLabel") (λ e. record e { text = message; is_visible = true }) ui

  -- The widgets of a window in any state.
  abbrev drawn : PasswordWindow → Ui
  drawn w =
      show_at w.error
        (with_variable (bytes "m_passwordField") (set_text w.password_field) (styled_ui w.username))

  shown_at :
      (o : Option QString) (w : PasswordWindow)
      → w.error ≡ o
      → ShowsPassword (record w { error = o }) (drawn (record w { error = o }))
  shown_at none w e = record { heading = refl; avatar = refl; field = refl; error = refl }
  shown_at (some m) w e = record { heading = refl; avatar = refl; field = refl; error = refl }

  typed_at :
      (o : Option QString) (q : QString) (w : PasswordWindow)
      → with_variable (bytes "m_passwordField") (set_text q) (drawn (record w { error = o }))
        ≡ drawn (record w { error = o; password_field = q })
  typed_at none q w = refl
  typed_at (some m) q w = refl

  error_first :
      (o : Option QString) (message : Bytes) (w : PasswordWindow)
      → with_variable (bytes "errorLabel") (put_error message) (drawn (record w { error = o }))
        ≡ drawn (record w { error = some (from_std_string message) })
  error_first none message w = refl
  error_first (some m) message w = refl

  one_error :
      (o : Option QString) (w : PasswordWindow)
      → IsOnly label
          (bytes "errorLabel")
          (bytes "errorLabel")
          (drawn (record w { error = o })).children
  one_error none w = (refl, refl)
  one_error (some m) w = (refl, refl)

  error_at :
      (o : Option QString) (message : Bytes) (w : PasswordWindow)
      → show_error_ui message (drawn (record w { error = o }))
        ≡ drawn (record w { error = some (from_std_string message) })
  error_at o message w =
      with_child-with_variable label (bytes "errorLabel") (bytes "errorLabel") (put_error message)
        (drawn (record w { error = o })) (one_error o w)
      ∙ error_first o message w

  drawn-ShowsPassword : (w : PasswordWindow) → ShowsPassword w (drawn w)
  drawn-ShowsPassword w = shown_at w.error w refl

  -- The window without widgets.
  unfoldable pub password_act :
      {D : Type 0}
      → IDatabase D
      → Acting PasswordAct D PasswordWindow (Option (ChatWindow × List Event))
  password_act db (types_password q) d w = ((record w { password_field = q }, none), d)
  password_act db submits d w = on_submit_clicked db d w

  abbrev Draws : PasswordUi → PasswordWindow → Type 0
  Draws p w = p ≡ record { username = w.username; ui = drawn w }

  after_check-Draws :
      (password : QString) (valid : Bool) (w : PasswordWindow)
      → let r = after_check_ui password valid (record { username = w.username; ui = drawn w }) in
        let q = after_check password valid w in Draws r.0 q.0 × (r.1 ≡ q.1)
  unfolding after_check after_check_ui show_error
  after_check-Draws password true w = (refl, refl)
  after_check-Draws password false w = (
    ap (λ ui. record { username = w.username; ui = ui })
        (error_at w.error (bytes "Incorrect password") w),
    refl,
  )

  -- The window of a user as it opens.
  abbrev pub password_opened : QString → PasswordWindow
  password_opened u = record {
    username = u;
    password_field = from_std_string [];
    error = none;
    accepted = false;
  }

  module _ {D : Type 0} (db : IDatabase D) where
    act-Draws :
        (x : PasswordAct) (d : D) (w : PasswordWindow)
        → Agrees Draws
            (password_act_ui db x d (record { username = w.username; ui = drawn w }))
            (password_act db x d w)
    unfolding password_act_ui password_act on_submit_ui on_submit_clicked show_error
    act-Draws (types_password q) d w =
        (ap (λ ui. record { username = w.username; ui = ui }) (typed_at w.error q w), refl, refl)
    act-Draws submits d w =
        subst
          (λ q.
            let r = db.check_user w.username (trimmed q) d in
            let p : PasswordUi = record { username = w.username; ui = drawn w } in
            Agrees Draws
              (if is_empty (trimmed q)
                then ((with_ui (show_error_ui (bytes "Please enter a password")) p, none), d)
                else (after_check_ui (trimmed q) r.0 p, r.1))
              (on_submit_clicked db d w))
          (sym (drawn-ShowsPassword w).field)
          (let q = trimmed w.password_field in
            let r = db.check_user w.username q d in
            let checked = after_check-Draws q r.0 w in
            if_both (Agrees Draws) (is_empty q)
              (
                ap (λ ui. record { username = w.username; ui = ui })
                    (error_at w.error (bytes "Please enter a password") w),
                refl,
                refl,
              )
              (checked.0, checked.1, refl))

    opens_drawn :
        (u : QString) (ui : Ui) → new_password_ui u ≡ some ui → ui ≡ drawn (password_opened u)
    unfolding new_password_ui
    opens_drawn u ui e =
        if_intro (λ o. o ≡ some ui → ui ≡ drawn (password_opened u)) (is_fatal u) (λ _ h. cc)
          (λ _ h. sym (some-injective _ _ h) ∙ styled_ui_lem u) e

    -- If the password window of a user opens, then, whatever the user types and submits, its widgets
    -- show the user for whom it asks, the letter, the password that was typed, and the last error, and
    -- nothing where there has been none; and it opens the chat windows, and leaves the database, as
    -- its description without widgets says.
    pub password_widgets_show_window :
        (xs : List PasswordAct) (d : D) (u : QString) (ui : Ui)
        → new_password_ui u ≡ some ui
        → Agrees
            (λ p w. ShowsPassword w p.ui)
            (run_acts (password_act_ui db) xs d (record { username = u; ui = ui }))
            (run_acts (password_act db) xs d (password_opened u))
    password_widgets_show_window xs d u ui e =
        let w = (run_acts (password_act db) xs d (password_opened u)).0.0 in
        let r =
          run_acts-Agrees Draws (password_act_ui db) (password_act db)
            (λ x d p w same.
              subst (λ p. Agrees Draws (password_act_ui db x d p) (password_act db x d w))
                (sym same) (act-Draws x d w))
            xs d (record { username = u; ui = ui }) (password_opened u)
            (ap (λ ui. record { username = u; ui = ui }) (opens_drawn u ui e)) in
        (subst (λ p. ShowsPassword w p.ui) (sym r.0) (drawn-ShowsPassword w), r.1, r.2)
