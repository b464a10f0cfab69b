-- ===== src/Client/QtText.antt =====
-- What the windows take from Qt to show texts.
use qt_messenger.Prelude.{ℕ, Bool, ◌&&◌, Bytes}
use qt_messenger.Qt.{Qt}

pub record QtText ⦃qt : Qt⦄ : Type 0 where
  -- `QString(s.at(0).toUpper())`. Qt asks for a string that is not empty; of an empty one this is
  -- whatever a build without the check reads there.
  pub first_letter : qt.QString → qt.QString
  -- Whether the build checks the position that `at` is given, and ends the program if it is out of
  -- range. Qt promises neither.
  pub checks_at : Bool
  -- `QDateTime::toString("HH:mm")`
  pub hours_minutes : qt.DateTime → qt.QString
  -- `QString::toLower`, `QString::contains`
  pub to_lower : qt.QString → qt.QString
  pub contains_text : qt.QString → qt.QString → Bool
  -- `QString(format).arg(a)`, `QString(format).arg(a).arg(b)`
  pub arg_text : Bytes → qt.QString → qt.QString
  pub arg_texts : Bytes → qt.QString → qt.QString → qt.QString
  pub arg_count : Bytes → ℕ → qt.QString → qt.QString
  -- `QLineEdit::insert` with the cursor at a position
  pub insert_at : ℕ → qt.QString → qt.QString → qt.QString

-- `at(0)` of this string ends the program.
abbrev pub is_fatal : ⦃qt : Qt⦄ ⦃text : QtText⦄ → qt.QString → Bool
is_fatal ⦃qt⦄ ⦃text⦄ s = qt.is_empty s && text.checks_at
