-- ===== src/Screen.antt =====
-- The text-mode screen, drivers/gfx.c.
-- The video memory is a function from offsets, counted from VIDEO, to bytes; the program writes
-- no offset below 0. A char is its byte, of which the printable ones are the same signed or not.
pub mod Cells
pub mod Scroll
pub mod Cursor
pub mod Text
mod Tests
use simplix.Base.{
  ℕ, zero, suc, ◌+◌, ◌-◌, ◌*◌, ◌/◌, ◌^◌, Bool, ◌&&◌, ◌||◌, Option, none, some, ltb, leb, ◌==◌,
  if◌then◌else◌, update,
}
use simplix.Str.{Memory}

pub record Screen : Type 0 where
  pub video : ℕ → ℕ
  pub offset : ℕ

abbrev pub screen_rows : ℕ
screen_rows = 25

abbrev pub screen_cols : ℕ
screen_cols = 80

-- Light gray on black.
abbrev pub default_text_attr : ℕ
default_text_attr = 7

-- The two writes of a cell: the character and its attribute.
abbrev pub put_cell : ℕ → ℕ → ℕ → (ℕ → ℕ) → ℕ → ℕ
put_cell i c attr video = update (update video (2 * i) c) (2 * i + 1) attr

-- The loop that blanks `n` cells, from cell `i` on.
unfoldable pub blank_cells : ℕ → ℕ → (ℕ → ℕ) → ℕ → ℕ
blank_cells zero i video = video
blank_cells (suc n) i video = blank_cells n (i + 1) (put_cell i 0 default_text_attr video)

unfoldable pub gfx_cls : Screen → Screen
unfolding blank_cells
gfx_cls s = record { video = blank_cells (screen_rows * screen_cols) 0 s.video; offset = 0 }

-- One round of the loop that moves the cells up, and `n` rounds from cell `i` on.
unfoldable pub move_cell : ℕ → (ℕ → ℕ) → ℕ → ℕ
move_cell i video =
    let v = update video (2 * i) (video (2 * (screen_cols + i))) in
    update v (2 * i + 1) (v (2 * (screen_cols + i) + 1))

unfoldable pub move_cells : ℕ → ℕ → (ℕ → ℕ) → ℕ → ℕ
move_cells zero i video = video
move_cells (suc n) i video = move_cells n (i + 1) (move_cell i video)

-- The bounds of the two loops, as they are written.
abbrev pub moved : ℕ
moved = (screen_rows - 1) * (screen_cols - 1)

abbrev pub blanked : ℕ
blanked = screen_rows * (screen_cols - 1) - moved

unfoldable pub scroll : Screen → Screen
unfolding move_cells blank_cells
scroll s = record {
  video = blank_cells blanked moved (move_cells moved 0 s.video);
  offset = s.offset - screen_cols;
}

unfoldable pub gfx_putchar : ℕ → Screen → Screen
gfx_putchar c s0 =
    let s : Screen = if leb (screen_rows * screen_cols) s0.offset then scroll s0 else s0 in
    if leb 32 c && leb c 126
    then record { video = put_cell s.offset c default_text_attr s.video; offset = s.offset + 1 }
    else if c == 10
    then record s { offset = screen_cols * (1 + s.offset / screen_cols) }
    else s

-- The loop up to the terminating zero; `none` means that the fuel ran out.
unfoldable pub gfx_putstring : ℕ → Memory → ℕ → Screen → Option Screen
unfolding gfx_putchar
gfx_putstring zero mem p s = none
gfx_putstring (suc fuel) mem p s =
    let rest = gfx_putstring fuel mem (p + 1) (gfx_putchar (mem p) s) in
    if mem p == 0 then some s else rest

abbrev pub gfx_get_cursor_offset : Screen → ℕ
gfx_get_cursor_offset s = s.offset

unfoldable pub videomem_putchar : ℕ → ℕ → ℕ → ℕ → Screen → Screen
videomem_putchar c row col textattr s = record s {
  video = put_cell (row * screen_cols + col) c textattr s.video;
}

unfoldable pub videomem_loop : ℕ → Memory → ℕ → ℕ → ℕ → (ℕ → ℕ) → Option (ℕ → ℕ)
videomem_loop zero mem p i textattr video = none
videomem_loop (suc fuel) mem p i textattr video =
    let rest =
      videomem_loop fuel mem (p + 1) (i + 1) textattr (put_cell i (mem p) textattr video) in
    if mem p == 0
    then some video
    else if leb (screen_rows * screen_cols) i
    then some video
    else rest

unfoldable pub videomem_putstring : ℕ → Memory → ℕ → ℕ → ℕ → ℕ → Screen → Option Screen
unfolding videomem_loop
videomem_putstring fuel mem p row col textattr s =
    elim (videomem_loop fuel mem p (row * screen_cols + col) textattr s.video) [
      | none ↦ none
      | some v ↦ some (record s { video = v })
    ]
