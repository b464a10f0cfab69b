-- ===== src/Client/Widgets/Children.antt =====
-- `QObject::findChild`, and how the windows use it to change a widget.
use qt_messenger.Prelude.{
  ◌≡◌, refl, sym, ap, ◌∙◌, Bool, true, false, Option, none, some, List, [], ◌∷◌, Bytes, filter_by,
  if◌then◌else◌,
}
use qt_messenger.Qt.{Qt}
use qt_messenger.Client.Widgets.{Kind, Element, Ui, first, with_variable, is_named, IsOne, IsOnly}

module _ ⦃qt : Qt⦄ where
  -- `findChild<...>(name)` among the descendants of a window. Which of several it gives is left open.
  pub record QtWidgets : Type 0 where
    pub find_child : Kind → Bytes → List Element → Option Element
    pub find_child_only :
        (kind : Kind) (name : Bytes) (es : List Element) (e : Element)
        → filter_by (is_named name) es ≡ e ∷ []
        → e.kind ≡ kind
        → find_child kind name es ≡ some e

  -- A change of the widget that was found, if there is one.
  abbrev pub on_element : Option Element → (Element → Element) → Ui → Ui
  on_element none f ui = ui
  on_element (some e) f ui = with_variable e.id f ui

  -- Statements of `applyStyles`: on what `findChild` gives, on a member, and on the window.
  pub data Change : Type 0 where
    on_child : Kind → Bytes → (Element → Element) → Change
    on_variable : Bytes → (Element → Element) → Change
    on_window : (Ui → Ui) → Change

  -- The same, where it is known which variables `findChild` finds.
  abbrev pub changes_at : List Bytes → List Change → Ui → Ui
  changes_at ids [] ui = ui
  changes_at [] (on_child kind name f ∷ cs) ui = changes_at [] cs ui
  changes_at (id ∷ ids) (on_child kind name f ∷ cs) ui = changes_at ids cs (with_variable id f ui)
  changes_at ids (on_variable id f ∷ cs) ui = changes_at ids cs (with_variable id f ui)
  changes_at ids (on_window f ∷ cs) ui = changes_at ids cs (f ui)

  -- What `findChild` is asked for is there once, and is that variable.
  abbrev pub IsClear : List Bytes → List Change → Ui → Type 0
  IsClear ids [] ui = Unit
  IsClear [] (on_child kind name f ∷ cs) ui = ⊥
  IsClear (id ∷ ids) (on_child kind name f ∷ cs) ui =
      IsOnly kind name id ui.children × IsClear ids cs (with_variable id f ui)
  IsClear ids (on_variable id f ∷ cs) ui = IsClear ids cs (with_variable id f ui)
  IsClear ids (on_window f ∷ cs) ui = IsClear ids cs (f ui)

  pub first_kept :
      (test : Element → Bool) (e : Element) (es rest : List Element)
      → filter_by test es ≡ e ∷ rest
      → first test es ≡ some e
  first_kept test e [] rest h = cc
  first_kept test e (x ∷ es) rest h =
      (elim (test x)
          as (λ b.
            (if b then x ∷ filter_by test es else filter_by test es) ≡ e ∷ rest
            → (if b then some x else first test es) ≡ some e) [
              | true ↦ λ same. cc
              | false ↦ λ same. first_kept test e es rest same
            ])
        h

  -- A widget with a name of its own is found.
  one_found :
      ⦃widgets : QtWidgets⦄
      → (kind : Kind) (name id : Bytes) (es kept : List Element)
      → filter_by (is_named name) es ≡ kept
      → IsOne kind id kept
      → widgets.find_child kind name es ≡ first (is_named name) es
  one_found kind name id es [] h only = absurd only
  one_found ⦃widgets⦄ kind name id es (e ∷ []) h only =
      widgets.find_child_only kind name es e h only.0 ∙ sym (first_kept (is_named name) e es [] h)
  one_found kind name id es (_ ∷ _ ∷ _) h only = absurd only

  pub find_child-first :
      ⦃widgets : QtWidgets⦄
      → (kind : Kind) (name id : Bytes) (es : List Element) → IsOnly kind name id es
      → widgets.find_child kind name es ≡ first (is_named name) es
  find_child-first kind name id es only =
      one_found kind name id es (filter_by (is_named name) es) refl only

  module _ ⦃widgets : QtWidgets⦄ where
    -- `if (child) { ... }` on what `findChild` gives
    abbrev pub with_child : Kind → Bytes → (Element → Element) → Ui → Ui
    with_child kind name f ui = on_element (widgets.find_child kind name ui.children) f ui

    abbrev pub change : Change → Ui → Ui
    change (on_child kind name f) ui = with_child kind name f ui
    change (on_variable id f) ui = with_variable id f ui
    change (on_window f) ui = f ui

    -- Statements one after the other.
    abbrev pub in_order : List Change → Ui → Ui
    in_order [] ui = ui
    in_order (c ∷ cs) ui = in_order cs (change c ui)

    one_changed :
        (kind : Kind) (name id : Bytes) (f : Element → Element) (ui : Ui) (kept : List Element)
        → filter_by (is_named name) ui.children ≡ kept
        → IsOne kind id kept
        → with_child kind name f ui ≡ with_variable id f ui
    one_changed kind name id f ui [] h only = absurd only
    one_changed kind name id f ui (e ∷ []) h only =
        ap (λ o. on_element o f ui) (widgets.find_child_only kind name ui.children e h only.0)
        ∙ ap (λ v. with_variable v f ui) only.1
    one_changed kind name id f ui (_ ∷ _ ∷ _) h only = absurd only

    pub with_child-with_variable :
        (kind : Kind) (name id : Bytes) (f : Element → Element) (ui : Ui)
        → IsOnly kind name id ui.children
        → with_child kind name f ui ≡ with_variable id f ui
    with_child-with_variable kind name id f ui only =
        one_changed kind name id f ui (filter_by (is_named name) ui.children) refl only

    pub in_order-changes_at :
        (ids : List Bytes) (cs : List Change) (ui : Ui)
        → IsClear ids cs ui
        → in_order cs ui ≡ changes_at ids cs ui
    in_order-changes_at ids [] ui clear = refl
    in_order-changes_at [] (on_child kind name f ∷ cs) ui clear = absurd clear
    in_order-changes_at (id ∷ ids) (on_child kind name f ∷ cs) ui clear =
        ap (in_order cs) (with_child-with_variable kind name id f ui clear.0)
        ∙ in_order-changes_at ids cs (with_variable id f ui) clear.1
    in_order-changes_at ids (on_variable id f ∷ cs) ui clear =
        in_order-changes_at ids cs (with_variable id f ui) clear
    in_order-changes_at ids (on_window f ∷ cs) ui clear = in_order-changes_at ids cs (f ui) clear
