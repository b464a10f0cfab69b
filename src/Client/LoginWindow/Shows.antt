-- ===== src/Client/LoginWindow/Shows.antt =====
-- The widgets of the login window (login_window.cpp), against its description without widgets.
use qt_messenger.Prelude.{
  ◌≡◌, refl, sym, ap, ◌∙◌, ◌∷◌, if_intro, subst, Bool, true, false, Option, none, some, List, [],
  Bytes, bytes,
}
use qt_messenger.Qt.{Qt}
use qt_messenger.Database.{IDatabase}
use qt_messenger.Client.Widgets.{
  Style, Ui, element_of, with_variable, set_text, said, seen, styled, declares,
}
use qt_messenger.Client.Widgets.Runs.{Acting, Agrees, run_acts, run_acts-Agrees, if_both}
use qt_messenger.Client.LoginWindow.{
  LoginWindow, display_error_message, clear_error_message, login_known, on_login_clicked,
  chat_opened, chat_logged_out,
}
use qt_messenger.Client.LoginWindow.Ui.{
  new_login_ui, title_style, error_style, display_error_ui, login_known_ui, on_login_ui,
  login_act_ui, LoginEvent, typed, clicked, opened_chat, left_chat,
}
use qt_messenger.Client.Windows.{new_login}

module _ ⦃qt : Qt⦄ where
  open qt use {QString, from_std_string, trimmed, is_empty}

  -- What the user sees: if the window is shown, what stands in the field, the title, and whether it is
  -- red.
  pub record ShowsLogin (w : LoginWindow) (ui : Ui) : Type 0 where
    pub shown : ui.is_shown ≡ w.is_visible
    pub username : said (element_of (bytes "m_usernameField") ui) ≡ w.username_field
    pub title : seen (element_of (bytes "m_titleLabel") ui) ≡ some w.title
    pub color :
        declares (bytes "color") (bytes "#dc3545") (styled (element_of (bytes "m_titleLabel") ui))
        ≡ w.error_state

  -- The widgets of a window in any state, with the style of the title.
  abbrev drawn : Style → LoginWindow → Ui
  drawn style w =
      record (with_variable (bytes "m_usernameField") (set_text w.username_field) (
        with_variable (bytes "m_titleLabel") (λ e. record e { text = w.title; style = style })
          new_login_ui)) { is_shown = w.is_visible }

  record Draws (ui : Ui) (w : LoginWindow) : Type 0 where
    style : Style
    widgets : ui ≡ drawn style w
    is_red : declares (bytes "color") (bytes "#dc3545") style ≡ w.error_state

  Draws-ShowsLogin : (ui : Ui) (w : LoginWindow) → Draws ui w → ShowsLogin w ui
  Draws-ShowsLogin ui w h =
      subst (ShowsLogin w) (sym h.widgets)
        (record { shown = refl; username = refl; title = refl; color = h.is_red })

  display_error-Draws :
      (m : Bytes) (style : Style) (w : LoginWindow)
      → Draws (display_error_ui m (drawn style w)) (display_error_message m w)
  unfolding display_error_message
  display_error-Draws m style w = record { style = error_style; widgets = refl; is_red = refl }

  -- The window without widgets.
  unfoldable pub login_act :
      {D : Type 0} → IDatabase D → Acting LoginEvent D LoginWindow (Option QString)
  login_act db (typed q) d w = ((record w { username_field = q }, none), d)
  login_act db clicked d w = on_login_clicked db d w
  login_act db opened_chat d w = ((chat_opened w, none), d)
  login_act db left_chat d w = ((chat_logged_out w, none), d)

  abbrev Matches : Ui × Option QString → LoginWindow × Option QString → Type 0
  Matches r q = Draws r.0 q.0 × (r.1 ≡ q.1)

  login_known-Matches :
      (u : QString) (exists : Bool) (style : Style) (w : LoginWindow)
      → declares (bytes "color") (bytes "#dc3545") style ≡ w.error_state
      → Matches (login_known_ui u exists (drawn style w)) (login_known u exists w)
  unfolding login_known login_known_ui
  login_known-Matches u true style w e =
      (record { style = style; widgets = refl; is_red = e }, refl)
  login_known-Matches u false style w e =
      (display_error-Draws (bytes "User does not exist") style w, refl)

  -- If the window is on the screen after the events, when it was so before: a chat window that opens
  -- hides it, and one that logs out shows it again.
  abbrev pub on_screen : Bool → List LoginEvent → Bool
  on_screen b [] = b
  on_screen b (typed q ∷ xs) = on_screen b xs
  on_screen b (clicked ∷ xs) = on_screen b xs
  on_screen b (opened_chat ∷ xs) = on_screen false xs
  on_screen b (left_chat ∷ xs) = on_screen true xs

  module _ {D : Type 0} (db : IDatabase D) where
    act-drawn :
        (x : LoginEvent) (d : D) (style : Style) (w : LoginWindow)
        → declares (bytes "color") (bytes "#dc3545") style ≡ w.error_state
        → Agrees Draws (login_act_ui db x d (drawn style w)) (login_act db x d w)
    unfolding login_act_ui login_act on_login_ui on_login_clicked chat_opened chat_logged_out
        clear_error_message
    act-drawn (typed q) d style w e =
        (record { style = style; widgets = refl; is_red = e }, refl, refl)
    act-drawn clicked d style w e =
        let u = trimmed w.username_field in
        let r = db.user_exists u d in
        let known = login_known-Matches u r.0 style w e in
        if_both (Agrees Draws) (is_empty u)
          (display_error-Draws (bytes "Please enter a username") style w, refl, refl)
          (known.0, known.1, refl)
    act-drawn opened_chat d style w e =
        (record { style = style; widgets = refl; is_red = e }, refl, refl)
    act-drawn left_chat d style w e =
        (record { style = title_style; widgets = refl; is_red = refl }, refl, refl)

    login_known_shown :
        (u : QString) (exists : Bool) (w : LoginWindow)
        → (login_known u exists w).0.is_visible ≡ w.is_visible
    unfolding login_known display_error_message
    login_known_shown u true w = refl
    login_known_shown u false w = refl

    clicked_shown :
        (d : D) (w : LoginWindow) → (on_login_clicked db d w).0.0.is_visible ≡ w.is_visible
    unfolding on_login_clicked display_error_message
    clicked_shown d w =
        let u = trimmed w.username_field in
        if_intro (λ (r : (LoginWindow × Option QString) × D). r.0.0.is_visible ≡ w.is_visible)
          (is_empty u) (λ _. refl) (λ _. login_known_shown u _ w)

    run-on_screen :
        (xs : List LoginEvent) (d : D) (w : LoginWindow)
        → (run_acts (login_act db) xs d w).0.0.is_visible ≡ on_screen w.is_visible xs
    unfolding run_acts login_act chat_opened chat_logged_out clear_error_message
    run-on_screen [] d w = refl
    run-on_screen (typed q ∷ xs) d w = run-on_screen xs d (record w { username_field = q })
    run-on_screen (clicked ∷ xs) d w =
        let r = on_login_clicked db d w in
        run-on_screen xs r.1 r.0.0 ∙ ap (λ b. on_screen b xs) (clicked_shown d w)
    run-on_screen (opened_chat ∷ xs) d w = run-on_screen xs d (chat_opened w)
    run-on_screen (left_chat ∷ xs) d w = run-on_screen xs d (chat_logged_out w)

    -- Whatever the user types in the login window and however often he logs in, and whenever a chat
    -- window opens or logs out, the widgets show the name that was typed and the last message, red if
    -- it is an error and only then; the window is on the screen until a chat window opens, and again
    -- from when one logs out; and it asks for the passwords, and leaves the database, as its
    -- description without widgets says.
    pub login_widgets_show_window :
        (xs : List LoginEvent) (d : D)
        → Agrees
            (λ ui w. ShowsLogin w ui)
            (run_acts (login_act_ui db) xs d new_login_ui)
            (run_acts (login_act db) xs d new_login)
          × ((run_acts (login_act_ui db) xs d new_login_ui).0.0.is_shown ≡ on_screen true xs)
    unfolding new_login clear_error_message
    login_widgets_show_window xs d =
        let r =
          run_acts-Agrees Draws (login_act_ui db) (login_act db)
            (λ x d ui w h.
              subst (λ ui. Agrees Draws (login_act_ui db x d ui) (login_act db x d w))
                (sym h.widgets) (act-drawn x d h.style w h.is_red))
            xs d new_login_ui new_login (record { style = []; widgets = refl; is_red = refl }) in
        let shows = Draws-ShowsLogin _ _ r.0 in
        ((shows, r.1, r.2), shows.shown ∙ run-on_screen xs d new_login)
