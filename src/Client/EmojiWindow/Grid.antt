-- ===== src/Client/EmojiWindow/Grid.antt =====
-- The cells of the emoji grid in emoji_window.cpp.
use qt_messenger.Prelude.{
  ℕ, suc, ◌+◌, ◌*◌, ◌<◌, ◌≡◌, refl, List, [], ◌∷◌, map, All, leb, ap, subst, true, false,
  if◌then◌else◌, if_intro, arith,
}
use native.Mathlib.Nat.{add-mul}
use qt_messenger.Client.EmojiWindow.{Button, place, add_emoji_buttons_to_grid}

leb_full : (columns col : ℕ) → col < columns → leb columns (col + 1) ≡ true → col + 1 ≡ columns
leb_full columns col h e = ground arith

leb_free : (columns col : ℕ) → leb columns (col + 1) ≡ false → col + 1 < columns
leb_free columns col e = ground arith

next_row :
    (columns row col : ℕ) → col + 1 ≡ columns → (row + 1) * columns + 0 ≡ suc (row * columns + col)
next_row columns row col h = omega (arith, add-mul row 1 columns)

first_cell : (columns : ℕ) → 0 * columns + 0 ≡ 0
first_cell columns = omega arith

next_column : (columns row col : ℕ) → row * columns + (col + 1) ≡ suc (row * columns + col)
next_column columns row col = omega arith

module _ {A : Type 0} where
  -- `n`, `n + 1`, and so on.
  abbrev pub count_from : ℕ → List A → List ℕ
  count_from n [] = []
  count_from n (e ∷ es) = n ∷ count_from (suc n) es

  abbrev pub cell : ℕ → Button A → ℕ
  cell columns b = b.row * columns + b.column

  -- The buttons fill the cells from `row`, `col` on.
  abbrev pub Fills : ℕ → ℕ → List A → List (Button A) → Type 0
  Fills columns n es bs =
      All (λ (b : Button A). b.column < columns) bs
      × (map (cell columns) bs ≡ count_from n es)
      × (map (λ (b : Button A). b.emoji) bs ≡ es)

  place-Fills :
      (columns row col : ℕ) (es : List A)
      → col < columns
      → Fills columns (row * columns + col) es (place columns row col es)
  unfolding place
  place-Fills columns row col [] h = (tt, refl, refl)
  place-Fills columns row col (e ∷ es) h =
      let rest : Fills columns (suc (row * columns + col)) es (
          if leb columns (col + 1)
          then place columns (row + 1) 0 es
          else place columns row (col + 1) es) =
        if_intro (Fills columns (suc (row * columns + col)) es) (leb columns (col + 1))
          (λ full.
            rw (← next_row columns row col (leb_full columns col h full))
              (place-Fills columns (row + 1) 0 es (omega arith)))
          (λ free.
            rw (← next_column columns row col)
              (place-Fills columns row (col + 1) es (leb_free columns col free))) in
      ((h, rest.0), ap (λ ns. (row * columns + col) ∷ ns) rest.1, ap (λ r. e ∷ r) rest.2)

  -- With at least one column, the buttons stand in the order of the emojis in the cells of the grid,
  -- row by row, each column within the grid, with no cell left out or used twice.
  pub add_emoji_buttons_to_grid-Fills :
      (columns : ℕ) (emojis : List A)
      → 0 < columns
      → Fills columns 0 emojis (add_emoji_buttons_to_grid emojis columns)
  unfolding add_emoji_buttons_to_grid
  add_emoji_buttons_to_grid-Fills columns emojis h =
      subst (λ n. Fills columns n emojis (place columns 0 0 emojis)) (first_cell columns)
        (place-Fills columns 0 0 emojis h)
