-- ===== src/Client/LoginWindow/Sheet.antt =====
-- client/src/login_window.cpp: the style sheet of the login window.
use qt_messenger.Prelude.{List, [], ◌∷◌, bytes}
use qt_messenger.Client.Widgets.{Rule}

-- What `applyStyles` sets.
abbrev pub style_rules : List Rule
style_rules =
    record {
      selector = bytes "QMainWindow";
      declarations = ((bytes "background-color", bytes "#f0f2f5") ∷ []);
    }
    ∷ record {
      selector = bytes "QLabel#infoLabel";
      declarations =
          ((bytes "color", bytes "#737373")
            ∷ (bytes "font-size", bytes "14px")
            ∷ (bytes "margin-bottom", bytes "10px")
            ∷ []);
    }
    ∷ record {
      selector = bytes "QLabel#titleLabel";
      declarations =
          ((bytes "font-size", bytes "28px")
            ∷ (bytes "font-weight", bytes "bold")
            ∷ (bytes "color", bytes "#179cde")
            ∷ (bytes "margin-bottom", bytes "10px")
            ∷ []);
    }
    ∷ record {
      selector = (bytes "QLabel#titleLabel[errorState=\"true\"]");
      declarations = ((bytes "color", bytes "#dc3545") ∷ (bytes "font-size", bytes "18px") ∷ []);
    }
    ∷ record {
      selector = bytes "QLabel#versionLabel, QLabel#copyrightLabel";
      declarations =
          ((bytes "font-size", bytes "12px")
            ∷ (bytes "color", bytes "#9E9E9E")
            ∷ (bytes "margin", bytes "3px 0")
            ∷ []);
    }
    ∷ record {
      selector = bytes "QLabel#usernameIcon";
      declarations = ((bytes "font-size", bytes "18px") ∷ (bytes "color", bytes "#179cde") ∷ []);
    }
    ∷ record {
      selector = bytes "QWidget#formContainer";
      declarations =
          ((bytes "background-color", bytes "white")
            ∷ (bytes "border-radius", bytes "30px")
            ∷ (bytes "padding", bytes "20px")
            ∷ []);
    }
    ∷ record {
      selector = bytes "QLineEdit";
      declarations =
          ((bytes "border", bytes "1px solid #e0e0e0")
            ∷ (bytes "border-radius", bytes "25px")
            ∷ (bytes "padding", bytes "12px 20px")
            ∷ (bytes "font-size", bytes "14px")
            ∷ (bytes "background-color", bytes "#f5f7fa")
            ∷ []);
    }
    ∷ record {
      selector = bytes "QLineEdit:focus";
      declarations = ((bytes "border", bytes "2px solid #179cde") ∷ []);
    }
    ∷ record {
      selector = bytes "QPushButton";
      declarations =
          ((bytes "border-radius", bytes "25px")
            ∷ (bytes "font-size", bytes "16px")
            ∷ (bytes "margin", bytes "8px 0")
            ∷ []);
    }
    ∷ record {
      selector = (bytes "QPushButton[text=\"Login\"]");
      declarations =
          ((bytes "background-color", bytes "#179cde")
            ∷ (bytes "color", bytes "white")
            ∷ (bytes "border", bytes "none")
            ∷ (bytes "font-weight", bytes "bold")
            ∷ []);
    }
    ∷ record {
      selector = (bytes "QPushButton[text=\"Login\"]:hover");
      declarations = ((bytes "background-color", bytes "#0e8fd0") ∷ []);
    }
    ∷ record {
      selector = (bytes "QPushButton[text=\"Login\"]:pressed");
      declarations = ((bytes "background-color", bytes "#0980c0") ∷ []);
    }
    ∷ record {
      selector = (bytes "QPushButton[text=\"Register\"]");
      declarations =
          ((bytes "background-color", bytes "transparent")
            ∷ (bytes "color", bytes "#179cde")
            ∷ (bytes "border", bytes "1px solid #179cde")
            ∷ []);
    }
    ∷ record {
      selector = (bytes "QPushButton[text=\"Register\"]:hover");
      declarations = ((bytes "background-color", bytes "rgba(23, 156, 222, 0.1)") ∷ []);
    }
    ∷ record {
      selector = (bytes "QPushButton[text=\"Register\"]:pressed");
      declarations = ((bytes "background-color", bytes "rgba(23, 156, 222, 0.2)") ∷ []);
    }
    ∷ []
