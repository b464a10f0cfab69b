-- ===== src/Client/Widgets.antt =====
-- What the windows of the client take from Qt's widgets: what `setupUi` creates, names and lays out.
-- Sizes of contents, fonts, other alignments, cursors, frames and scroll modes are left out.
pub mod Children
pub mod Runs
use qt_messenger.Prelude.{
  ◌≡◌, filter_by, ℕ, Bool, true, false, ◌&&◌, Option, none, some, List, [], ◌∷◌, Bytes, bytes_eq,
  if◌then◌else◌,
}
use qt_messenger.Qt.{Qt}

-- `QWidget`, `QLabel`, `QLineEdit`, `QPushButton`, `QFrame`, `QListWidget`, `QTabWidget`
pub data Kind : Type 0 where
  plain label line_edit push_button frame list_widget tab_widget : Kind

-- The declarations of a style sheet, and its rules.
abbrev pub Style : Type 0
Style = List (Bytes × Bytes)

pub record Rule : Type 0 where
  pub selector : Bytes
  pub declarations : Style

mutual
  -- A box layout: horizontal or not, its spacing and its margins, if they are set, and its items.
  pub data Layout : Type 0 where
    box : Bool → Option ℕ → Option (ℕ × ℕ × ℕ × ℕ) → Items → Layout

  -- A widget by the name of its variable, centred or not; a layout; a space; a stretch.
  pub data Items : Type 0 where
    end : Items
    add_widget : Bytes → Bool → Items → Items
    add_layout : Layout → Items → Items
    add_spacing : ℕ → Items → Items
    add_stretch : Items → Items

module _ ⦃qt : Qt⦄ where
  open qt use {QString, from_std_string}

  -- A widget, by the name of its variable. `fixed`: the fixed width and height; `style`, `rules`: its own style
  -- sheet.
  pub record Element : Type 0 where
    pub id : Bytes
    pub kind : Kind
    pub name : Bytes
    pub text : QString
    pub placeholder : Bytes
    pub tool_tip : Bytes
    pub is_centered : Bool
    pub is_visible : Bool
    pub is_secret : Bool
    pub min_height : ℕ
    pub fixed_width : Option ℕ
    pub fixed_height : Option ℕ
    pub style : Style
    pub rules : List Rule

  -- A widget as its constructor leaves it.
  abbrev pub element : Kind → Bytes → Element
  element kind id = record {
    id = id;
    kind = kind;
    name = [];
    text = from_std_string [];
    placeholder = [];
    tool_tip = [];
    is_centered = false;
    is_visible = true;
    is_secret = false;
    min_height = 0;
    fixed_width = none;
    fixed_height = none;
    style = [];
    rules = [];
  }

  -- A window: if it is shown, its title, its size, its descendants as they were created, the layouts of those that
  -- have one, and its style sheet.
  pub record Ui : Type 0 where
    pub is_shown : Bool
    pub title : Bytes
    pub size : ℕ × ℕ
    pub children : List Element
    pub layouts : List (Bytes × Layout)
    pub sheet : List Rule

  -- The first that passes the test, and a change of it.
  abbrev pub first : (Element → Bool) → List Element → Option Element
  first test [] = none
  first test (e ∷ es) = let rest = first test es in if test e then some e else rest

  abbrev pub at_first : (Element → Bool) → (Element → Element) → List Element → List Element
  at_first test f [] = []
  at_first test f (e ∷ es) = let rest = at_first test f es in if test e then f e ∷ es else e ∷ rest

  -- The widget of a variable.
  abbrev pub is_variable : Bytes → Element → Bool
  is_variable id e = bytes_eq e.id id

  abbrev pub element_of : Bytes → Ui → Option Element
  element_of id ui = first (is_variable id) ui.children

  -- The widgets with an object name, and whether there is exactly one, of a given class and a given
  -- variable.
  abbrev pub is_named : Bytes → Element → Bool
  is_named name e = bytes_eq e.name name

  abbrev pub IsOne : Kind → Bytes → List Element → Type 0
  IsOne kind id [] = ⊥
  IsOne kind id (e ∷ []) = (e.kind ≡ kind) × (e.id ≡ id)
  IsOne kind id (_ ∷ _ ∷ _) = ⊥

  abbrev pub IsOnly : Kind → Bytes → Bytes → List Element → Type 0
  IsOnly kind name id es = IsOne kind id (filter_by (is_named name) es)

  abbrev pub with_variable : Bytes → (Element → Element) → Ui → Ui
  with_variable id f ui = record ui { children = at_first (is_variable id) f ui.children }

  abbrev pub set_text : QString → Element → Element
  set_text t e = record e { text = t }

  abbrev pub set_style : Style → Element → Element
  set_style s e = record e { style = s }

  -- What a label or a field says, and what a label says if it can be seen.
  abbrev pub said : Option Element → QString
  said none = from_std_string []
  said (some e) = e.text

  abbrev pub seen : Option Element → Option QString
  seen none = none
  seen (some e) = if e.is_visible then some e.text else none

  -- The style sheet of a widget, and whether a sheet declares a value.
  abbrev pub styled : Option Element → Style
  styled none = []
  styled (some e) = e.style

abbrev pub declares : Bytes → Bytes → Style → Bool
declares key value [] = false
declares key value ((k, v) ∷ s) =
    let rest = declares key value s in if bytes_eq k key then bytes_eq v value else rest

abbrev pub declared : Bytes → Style → Option Bytes
declared key [] = none
declared key ((k, v) ∷ s) = let rest = declared key s in if bytes_eq k key then some v else rest
