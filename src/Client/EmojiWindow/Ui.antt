-- ===== src/Client/EmojiWindow/Ui.antt =====
-- client/src/emoji_window.cpp: the widgets of the window of the emojis. Fonts are left out.
use qt_messenger.Prelude.{ℕ, true, false, some, List, [], ◌∷◌, map, Bytes, bytes}
use qt_messenger.Qt.{Qt}
use qt_messenger.Client.Widgets.{
  label, push_button, tab_widget, Rule, box, end, add_widget, Element, element, Ui,
}
use qt_messenger.Client.EmojiWindow.{Button, add_emoji_buttons_to_grid}

abbrev pub smileys : List Bytes
smileys =
    (240 ∷ 159 ∷ 152 ∷ 138 ∷ [])
    ∷ (240 ∷ 159 ∷ 152 ∷ 130 ∷ [])
    ∷ (240 ∷ 159 ∷ 152 ∷ 141 ∷ [])
    ∷ (240 ∷ 159 ∷ 152 ∷ 142 ∷ [])
    ∷ (240 ∷ 159 ∷ 165 ∷ 179 ∷ [])
    ∷ (240 ∷ 159 ∷ 152 ∷ 162 ∷ [])
    ∷ (240 ∷ 159 ∷ 152 ∷ 161 ∷ [])
    ∷ (240 ∷ 159 ∷ 152 ∷ 180 ∷ [])
    ∷ (240 ∷ 159 ∷ 164 ∷ 147 ∷ [])
    ∷ (240 ∷ 159 ∷ 152 ∷ 135 ∷ [])
    ∷ (240 ∷ 159 ∷ 152 ∷ 137 ∷ [])
    ∷ (240 ∷ 159 ∷ 164 ∷ 148 ∷ [])
    ∷ (240 ∷ 159 ∷ 152 ∷ 143 ∷ [])
    ∷ (240 ∷ 159 ∷ 152 ∷ 139 ∷ [])
    ∷ (240 ∷ 159 ∷ 164 ∷ 151 ∷ [])
    ∷ (240 ∷ 159 ∷ 152 ∷ 132 ∷ [])
    ∷ (240 ∷ 159 ∷ 152 ∷ 133 ∷ [])
    ∷ (240 ∷ 159 ∷ 164 ∷ 163 ∷ [])
    ∷ (240 ∷ 159 ∷ 152 ∷ 152 ∷ [])
    ∷ (240 ∷ 159 ∷ 153 ∷ 130 ∷ [])
    ∷ (240 ∷ 159 ∷ 152 ∷ 151 ∷ [])
    ∷ (240 ∷ 159 ∷ 164 ∷ 145 ∷ [])
    ∷ (240 ∷ 159 ∷ 164 ∷ 170 ∷ [])
    ∷ (240 ∷ 159 ∷ 152 ∷ 156 ∷ [])
    ∷ (240 ∷ 159 ∷ 152 ∷ 157 ∷ [])
    ∷ []

abbrev pub objects : List Bytes
objects =
    (240 ∷ 159 ∷ 146 ∷ 187 ∷ [])
    ∷ (240 ∷ 159 ∷ 147 ∷ 177 ∷ [])
    ∷ (226 ∷ 140 ∷ 154 ∷ [])
    ∷ (240 ∷ 159 ∷ 147 ∷ 183 ∷ [])
    ∷ (240 ∷ 159 ∷ 148 ∷ 139 ∷ [])
    ∷ (240 ∷ 159 ∷ 146 ∷ 161 ∷ [])
    ∷ (240 ∷ 159 ∷ 148 ∷ 141 ∷ [])
    ∷ (240 ∷ 159 ∷ 148 ∷ 145 ∷ [])
    ∷ (240 ∷ 159 ∷ 147 ∷ 129 ∷ [])
    ∷ (226 ∷ 156 ∷ 143 ∷ 239 ∷ 184 ∷ 143 ∷ [])
    ∷ (240 ∷ 159 ∷ 147 ∷ 154 ∷ [])
    ∷ (240 ∷ 159 ∷ 142 ∷ 174 ∷ [])
    ∷ (240 ∷ 159 ∷ 142 ∷ 167 ∷ [])
    ∷ (240 ∷ 159 ∷ 142 ∷ 172 ∷ [])
    ∷ (240 ∷ 159 ∷ 142 ∷ 181 ∷ [])
    ∷ (240 ∷ 159 ∷ 154 ∷ 151 ∷ [])
    ∷ (226 ∷ 156 ∷ 136 ∷ 239 ∷ 184 ∷ 143 ∷ [])
    ∷ (240 ∷ 159 ∷ 154 ∷ 128 ∷ [])
    ∷ (226 ∷ 154 ∷ 189 ∷ [])
    ∷ (240 ∷ 159 ∷ 143 ∷ 134 ∷ [])
    ∷ (240 ∷ 159 ∷ 146 ∷ 176 ∷ [])
    ∷ (240 ∷ 159 ∷ 146 ∷ 142 ∷ [])
    ∷ (240 ∷ 159 ∷ 142 ∷ 129 ∷ [])
    ∷ (240 ∷ 159 ∷ 148 ∷ 165 ∷ [])
    ∷ (226 ∷ 157 ∷ 164 ∷ 239 ∷ 184 ∷ 143 ∷ [])
    ∷ []

abbrev pub animals : List Bytes
animals =
    (240 ∷ 159 ∷ 144 ∷ 182 ∷ [])
    ∷ (240 ∷ 159 ∷ 144 ∷ 177 ∷ [])
    ∷ (240 ∷ 159 ∷ 144 ∷ 173 ∷ [])
    ∷ (240 ∷ 159 ∷ 144 ∷ 185 ∷ [])
    ∷ (240 ∷ 159 ∷ 144 ∷ 176 ∷ [])
    ∷ (240 ∷ 159 ∷ 166 ∷ 138 ∷ [])
    ∷ (240 ∷ 159 ∷ 144 ∷ 187 ∷ [])
    ∷ (240 ∷ 159 ∷ 144 ∷ 188 ∷ [])
    ∷ (240 ∷ 159 ∷ 144 ∷ 168 ∷ [])
    ∷ (240 ∷ 159 ∷ 144 ∷ 175 ∷ [])
    ∷ (240 ∷ 159 ∷ 166 ∷ 129 ∷ [])
    ∷ (240 ∷ 159 ∷ 144 ∷ 174 ∷ [])
    ∷ (240 ∷ 159 ∷ 144 ∷ 183 ∷ [])
    ∷ (240 ∷ 159 ∷ 144 ∷ 184 ∷ [])
    ∷ (240 ∷ 159 ∷ 144 ∷ 181 ∷ [])
    ∷ (240 ∷ 159 ∷ 144 ∷ 148 ∷ [])
    ∷ (240 ∷ 159 ∷ 144 ∷ 167 ∷ [])
    ∷ (240 ∷ 159 ∷ 144 ∷ 166 ∷ [])
    ∷ (240 ∷ 159 ∷ 166 ∷ 134 ∷ [])
    ∷ (240 ∷ 159 ∷ 166 ∷ 133 ∷ [])
    ∷ (240 ∷ 159 ∷ 144 ∷ 157 ∷ [])
    ∷ (240 ∷ 159 ∷ 166 ∷ 139 ∷ [])
    ∷ (240 ∷ 159 ∷ 144 ∷ 153 ∷ [])
    ∷ (240 ∷ 159 ∷ 166 ∷ 132 ∷ [])
    ∷ (240 ∷ 159 ∷ 144 ∷ 160 ∷ [])
    ∷ []

-- `applyStyles`
abbrev pub style_rules : List Rule
style_rules =
    record {
      selector = bytes "QDialog";
      declarations =
          ((bytes "background-color", bytes "white") ∷ (bytes "border-radius", bytes "10px") ∷ []);
    }
    ∷ record {
      selector = bytes "QLabel#titleLabel";
      declarations =
          ((bytes "font-size", bytes "22px")
            ∷ (bytes "font-weight", bytes "bold")
            ∷ (bytes "color", bytes "#333333")
            ∷ (bytes "margin", bytes "10px 0")
            ∷ []);
    }
    ∷ record {
      selector = bytes "QTabWidget::pane";
      declarations =
          ((bytes "border", bytes "1px solid #e0e0e0")
            ∷ (bytes "border-radius", bytes "5px")
            ∷ (bytes "background-color", bytes "white")
            ∷ (bytes "top", bytes "-1px")
            ∷ []);
    }
    ∷ record {
      selector = bytes "QTabBar::tab";
      declarations =
          ((bytes "background-color", bytes "#f5f5f5")
            ∷ (bytes "padding", bytes "8px 15px")
            ∷ (bytes "margin-right", bytes "2px")
            ∷ (bytes "border-top-left-radius", bytes "5px")
            ∷ (bytes "border-top-right-radius", bytes "5px")
            ∷ (bytes "font-size", bytes "14px")
            ∷ []);
    }
    ∷ record {
      selector = bytes "QTabBar::tab:selected";
      declarations =
          ((bytes "background-color", bytes "white")
            ∷ (bytes "border", bytes "1px solid #e0e0e0")
            ∷ (bytes "border-bottom-color", bytes "white")
            ∷ []);
    }
    ∷ record {
      selector = bytes "QTabBar::tab:hover:!selected";
      declarations = ((bytes "background-color", bytes "#e0e0e0") ∷ []);
    }
    ∷ record {
      selector = bytes "QPushButton#emojiButton";
      declarations =
          ((bytes "background-color", bytes "white")
            ∷ (bytes "border", bytes "1px solid #f0f0f0")
            ∷ (bytes "border-radius", bytes "8px")
            ∷ (bytes "text-align", bytes "center")
            ∷ []);
    }
    ∷ record {
      selector = bytes "QPushButton#emojiButton:hover";
      declarations =
          ((bytes "background-color", bytes "#f0f2f5")
            ∷ (bytes "border", bytes "1px solid #e0e0e0")
            ∷ []);
    }
    ∷ record {
      selector = bytes "QPushButton#emojiButton:pressed";
      declarations = ((bytes "background-color", bytes "#e0e0e0") ∷ []);
    }
    ∷ []

module _ ⦃qt : Qt⦄ where
  open qt use {from_std_string}

  -- What `addEmojiButtonsToGrid` creates for an emoji; a click emits the emoji and accepts the dialog.
  abbrev pub emoji_button : Bytes → Element
  emoji_button emoji = record (element push_button (bytes "button")) {
    text = from_std_string emoji;
    fixed_width = some 60;
    fixed_height = some 60;
    name = bytes "emojiButton";
  }

  -- A tab: what stands on it, the spacing of its grid, and the buttons in the cells.
  pub record Tab : Type 0 where
    pub title : Bytes
    pub spacing : ℕ
    pub buttons : List (Button Element)

  abbrev pub tab : Bytes → List Bytes → Tab
  tab title emojis = record {
    title = title;
    spacing = 10;
    buttons = add_emoji_buttons_to_grid (map emoji_button emojis) 5;
  }

  pub record EmojiUi : Type 0 where
    pub ui : Ui
    pub tabs : List Tab

  abbrev pub apply_styles : Ui → Ui
  apply_styles ui = record ui { sheet = style_rules }

  -- The constructor: `setupUi` with its styles, and the styles again.
  abbrev pub new_emoji_ui : EmojiUi
  new_emoji_ui = record {
    ui = apply_styles (
        apply_styles (record {
          is_shown = false;
          title = bytes "Select Emoji";
          size = (450, 550);
          children =
              record (element label (bytes "titleLabel")) {
                text = from_std_string (bytes "Emojis");
                name = bytes "titleLabel";
                is_centered = true;
                fixed_height = some 50;
              }
              ∷ record (element tab_widget (bytes "tabWidget")) { name = bytes "tabWidget" }
              ∷ [];
          layouts =
              (
                bytes "this",
                box false (some 15) (some (20, 20, 20, 20)) (
                    add_widget (bytes "titleLabel") false
                      (add_widget (bytes "tabWidget") false end)),
              )
              ∷ [];
          sheet = [];
        }));
    tabs =
        tab (240 ∷ 159 ∷ 152 ∷ 138 ∷ 32 ∷ 83 ∷ 109 ∷ 105 ∷ 108 ∷ 101 ∷ 121 ∷ 115 ∷ []) smileys
        ∷ tab (240 ∷ 159 ∷ 142 ∷ 174 ∷ 32 ∷ 79 ∷ 98 ∷ 106 ∷ 101 ∷ 99 ∷ 116 ∷ 115 ∷ []) objects
        ∷ tab (240 ∷ 159 ∷ 144 ∷ 177 ∷ 32 ∷ 65 ∷ 110 ∷ 105 ∷ 109 ∷ 97 ∷ 108 ∷ 115 ∷ []) animals
        ∷ [];
  }
