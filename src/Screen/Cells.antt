-- ===== src/Screen/Cells.antt =====
-- The loops of drivers/gfx.c over the cells of the screen.
use simplix.Base.{
  ℕ, zero, suc, ◌+◌, ◌*◌, ◌%◌, ◌≡◌, arith, ltb, leb, ◌==◌, if◌then◌else◌, ◌&&◌, ◌∙◌, ap,
}
use simplix.Screen.{blank_cells, move_cells, move_cell, put_cell, screen_cols, default_text_attr}

-- The byte at `j` of a blank cell.
abbrev pub blank : ℕ → ℕ
blank j = if j % 2 == 0 then 0 else default_text_attr

pub blank_cells_lem :
    (n i j : ℕ) (video : ℕ → ℕ)
    → blank_cells n i video j ≡ (if leb (2 * i) j && ltb j (2 * (i + n)) then blank j else video j)
unfolding blank_cells
blank_cells_lem zero i j video = ground arith
blank_cells_lem (suc n) i j video =
    blank_cells_lem n (i + 1) j (put_cell i 0 default_text_attr video) ∙ ground arith

move_cell_lem :
    (i j : ℕ) (video : ℕ → ℕ)
    → move_cell i video j
      ≡ (if leb (2 * i) j && ltb j (2 * (i + 1)) then video (j + 2 * screen_cols) else video j)
unfolding move_cell
move_cell_lem i j video =
    let even : video (2 * (screen_cols + i)) ≡ video (2 * i + 2 * screen_cols) =
      ap video (omega arith) in
    let odd : video (2 * (screen_cols + i) + 1) ≡ video (2 * i + 1 + 2 * screen_cols) =
      ap video (omega arith) in
    ground (arith, even, odd)

-- The loop moves each cell up by one row: it reads a cell before it writes it.
pub move_cells_lem :
    (n i j : ℕ) (video : ℕ → ℕ)
    → move_cells n i video j
      ≡ (if leb (2 * i) j && ltb j (2 * (i + n)) then video (j + 2 * screen_cols) else video j)
unfolding move_cells
move_cells_lem zero i j video = ground arith
move_cells_lem (suc n) i j video =
    move_cells_lem n (i + 1) j (move_cell i video)
    ∙ ground (arith, move_cell_lem i j video, move_cell_lem i (j + 2 * screen_cols) video)
