-- ===== src/Client/EmojiWindow.antt =====
-- client/src/emoji_window.cpp: where `addEmojiButtonsToGrid` puts the buttons.
pub mod Grid
pub mod Ui
use qt_messenger.Prelude.{ℕ, ◌+◌, List, [], ◌∷◌, leb, if◌then◌else◌}

pub record Button (A : Type 0) : Type 0 where
  pub emoji : A
  pub row : ℕ
  pub column : ℕ

-- The loop, with its variables `row` and `col`.
unfoldable pub place : {A : Type 0} → ℕ → ℕ → ℕ → List A → List (Button A)
place columns row col [] = []
place columns row col (e ∷ es) =
    let wrapped = place columns (row + 1) 0 es in
    let next = place columns row (col + 1) es in
    record { emoji = e; row = row; column = col }
    ∷ (if leb columns (col + 1) then wrapped else next)

unfoldable pub add_emoji_buttons_to_grid : {A : Type 0} → List A → ℕ → List (Button A)
unfolding place
add_emoji_buttons_to_grid emojis columns = place columns 0 0 emojis
