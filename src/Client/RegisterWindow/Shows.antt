-- ===== src/Client/RegisterWindow/Shows.antt =====
-- The widgets of the registration window (register_window.cpp), against its description without widgets.
use qt_messenger.Prelude.{
  ◌≡◌, refl, sym, ap, ◌∙◌, subst, Bool, true, false, ◌||◌, some, List, [], ◌∷◌, Bytes, bytes,
}
use qt_messenger.Qt.{Qt}
use qt_messenger.Database.{IDatabase}
use qt_messenger.Client.Widgets.{
  Style, Ui, element_of, with_variable, set_text, said, seen, styled, declares,
}
use qt_messenger.Client.Widgets.Children.{in_order, QtWidgets, changes_at, in_order-changes_at}
use qt_messenger.Client.Widgets.Runs.{Acting, Agrees, run_acts, run_acts-Agrees, if_both}
use qt_messenger.Client.Windows.{RegisterAct, types_account, creates, times_out}
use qt_messenger.Client.RegisterWindow.{
  RegisterWindow, show_message, after_add, add_new, on_register_clicked,
}
use qt_messenger.Client.RegisterWindow.Ui.{
  bare_ui, style_changes, new_register_ui, message_style, show_message_ui, RegisterUi, with_ui,
  after_add_ui, add_new_ui, on_register_ui, register_act_ui,
}

module _ ⦃qt : Qt⦄ ⦃widgets : QtWidgets⦄ where
  open qt use {QString, from_std_string, trimmed, is_empty}

  -- What the user sees: what stands in the fields, the status, and whether it is red.
  pub record ShowsRegister (w : RegisterWindow) (ui : Ui) : Type 0 where
    pub username : said (element_of (bytes "m_usernameField") ui) ≡ w.username_field
    pub password : said (element_of (bytes "m_passwordField") ui) ≡ w.password_field
    pub status : seen (element_of (bytes "m_statusLabel") ui) ≡ some w.status
    pub color :
        declares (bytes "color") (bytes "#dc3545") (styled (element_of (bytes "m_statusLabel") ui))
        ≡ w.status_is_error

  -- The widgets as the constructor leaves them, by the variables that `findChild` is after.
  abbrev found : List Bytes
  found =
      bytes "mainContainer"
      ∷ bytes "titleLabel"
      ∷ bytes "usernameIcon"
      ∷ bytes "passwordIcon"
      ∷ bytes "cancelButton"
      ∷ []

  abbrev styled_ui : Ui
  styled_ui = changes_at found style_changes (changes_at found style_changes bare_ui)

  new_register_ui-styled : new_register_ui ≡ styled_ui
  new_register_ui-styled =
      ap (in_order style_changes) (
        in_order-changes_at found style_changes bare_ui
          ((refl, refl), ((refl, refl), ((refl, refl), ((refl, refl), ((refl, refl), tt))))))
      ∙ in_order-changes_at found style_changes (changes_at found style_changes bare_ui)
          ((refl, refl), ((refl, refl), ((refl, refl), ((refl, refl), ((refl, refl), tt)))))

  -- The widgets of a window in any state, with the style of the status.
  abbrev drawn : Style → RegisterWindow → Ui
  drawn style w = with_variable (bytes "m_usernameField") (set_text w.username_field) (
      with_variable (bytes "m_passwordField") (set_text w.password_field) (
        with_variable (bytes "m_statusLabel") (λ e. record e { text = w.status; style = style })
          styled_ui))

  record Draws (r : RegisterUi) (w : RegisterWindow) : Type 0 where
    style : Style
    same : r ≡ record { ui = drawn style w; accepts = w.accepts }
    is_red : declares (bytes "color") (bytes "#dc3545") style ≡ w.status_is_error

  Draws-ShowsRegister : (r : RegisterUi) (w : RegisterWindow) → Draws r w → ShowsRegister w r.ui
  Draws-ShowsRegister r w h =
      subst (λ (r : RegisterUi). ShowsRegister w r.ui) (sym h.same)
        (record { username = refl; password = refl; status = refl; color = h.is_red })

  message_style-is_red :
      (b : Bool) → declares (bytes "color") (bytes "#dc3545") (message_style b) ≡ b
  message_style-is_red true = refl
  message_style-is_red false = refl

  -- The window without widgets.
  unfoldable pub register_act :
      {D : Type 0} → IDatabase D → Acting RegisterAct D RegisterWindow Bool
  register_act db (types_account u p) d w =
      ((record w { username_field = u; password_field = p }, w.accepts), d)
  register_act db creates d w = let (w', d') = on_register_clicked db d w in ((w', w'.accepts), d')
  register_act db times_out d w = ((w, w.accepts), d)

  -- The widgets of a window, and what they become.
  abbrev open_at : Style → RegisterWindow → RegisterUi
  open_at style w = record { ui = drawn style w; accepts = w.accepts }

  show_message-Draws :
      (m : Bytes) (b : Bool) (style : Style) (w : RegisterWindow)
      → Draws (with_ui (show_message_ui m b) (open_at style w)) (show_message m b w)
  unfolding show_message
  show_message-Draws m b style w = record {
    style = message_style b;
    same = refl;
    is_red = message_style-is_red b;
  }

  after_add-Draws :
      (added : Bool) (style : Style) (w : RegisterWindow)
      → Draws (after_add_ui added (open_at style w)) (after_add added w)
  unfolding after_add after_add_ui show_message
  after_add-Draws true style w = record { style = message_style false; same = refl; is_red = refl }
  after_add-Draws false style w = show_message-Draws (bytes "Registration failed") true style w

  abbrev Matches : {D : Type 0} → RegisterUi × D → RegisterWindow × D → Type 0
  Matches r q = Draws r.0 q.0 × (r.1 ≡ q.1)

  -- The window as it opens.
  abbrev pub register_opened : RegisterWindow
  register_opened = record {
    username_field = from_std_string [];
    password_field = from_std_string [];
    status = from_std_string (bytes "Fill in all fields");
    status_is_error = false;
    accepts = false;
  }

  module _ {D : Type 0} (db : IDatabase D) where
    add_new-Matches :
        (u p : QString) (exists : Bool) (d : D) (style : Style) (w : RegisterWindow)
        → Matches (add_new_ui db u p (exists, d) (open_at style w)) (add_new db u p (exists, d) w)
    unfolding add_new add_new_ui
    add_new-Matches u p true d style w =
        (show_message-Draws (bytes "Username already exists") true style w, refl)
    add_new-Matches u p false d style w =
        let r = db.add_user u p d in (after_add-Draws r.0 style w, refl)

    on_register-Matches :
        (d : D) (style : Style) (w : RegisterWindow)
        → Matches (on_register_ui db d (open_at style w)) (on_register_clicked db d w)
    unfolding on_register_ui on_register_clicked
    on_register-Matches d style w =
        let u = trimmed w.username_field in
        let p = trimmed w.password_field in
        let r = db.user_exists u d in
        if_both Matches (is_empty u || is_empty p)
          (show_message-Draws (bytes "Please fill in all fields") true style w, refl)
          (add_new-Matches u p r.0 r.1 style w)

    act-Agrees :
        (x : RegisterAct) (d : D) (r : RegisterUi) (w : RegisterWindow)
        → Draws r w
        → Agrees Draws (register_act_ui db x d r) (register_act db x d w)
    unfolding register_act_ui register_act
    act-Agrees (types_account u p) d r w h =
        subst
          (λ r.
            Agrees Draws (register_act_ui db (types_account u p) d r)
              (register_act db (types_account u p) d w))
          (sym h.same) (record { style = h.style; same = refl; is_red = h.is_red }, refl, refl)
    act-Agrees creates d r w h =
        subst (λ r. Agrees Draws (register_act_ui db creates d r) (register_act db creates d w))
          (sym h.same)
          (let m = on_register-Matches d h.style w in
            (m.0, ap (λ (r : RegisterUi). r.accepts) m.0.same, m.1))
    act-Agrees times_out d r w h = (h, ap (λ (r : RegisterUi). r.accepts) h.same, refl)

    -- Whatever the user types in the registration window, however often he asks for the account, and
    -- whenever the timer fires, its widgets show the user name and the password that were typed and
    -- the last message, red if it is an error and only then; and the window is about to be accepted,
    -- and leaves the database, as its description without widgets says.
    pub account_widgets_show_window :
        (xs : List RegisterAct) (d : D)
        → Agrees
            (λ r w. ShowsRegister w r.ui)
            (run_acts (register_act_ui db) xs d (record { ui = new_register_ui; accepts = false }))
            (run_acts (register_act db) xs d register_opened)
    account_widgets_show_window xs d =
        let first_drawn : Draws (record { ui = new_register_ui; accepts = false }) register_opened =
          record {
            style = (bytes "font-size", bytes "14px") ∷ (bytes "color", bytes "#737373") ∷ [];
            same = ap (λ (ui : Ui). record { ui = ui; accepts = false }) new_register_ui-styled;
            is_red = refl;
          } in
        let r =
          run_acts-Agrees Draws (register_act_ui db) (register_act db) act-Agrees xs d
            (record { ui = new_register_ui; accepts = false }) register_opened first_drawn in
        (Draws-ShowsRegister _ _ r.0, r.1, r.2)
