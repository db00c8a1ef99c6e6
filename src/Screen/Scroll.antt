-- ===== src/Screen/Scroll.antt =====
-- What the scrolling of gfx_putchar does to the screen.
use simplix.Base.{ℕ, ◌+◌, ◌*◌, ◌≡◌, arith, ltb, if◌then◌else◌, ◌∙◌}
use simplix.Screen.{Screen, scroll, move_cells, moved, blanked, screen_cols}
use simplix.Screen.Cells.{blank, blank_cells_lem, move_cells_lem}

-- The byte at `j` of the screen after it is scrolled.
abbrev pub scrolled : (ℕ → ℕ) → ℕ → ℕ
scrolled video j =
    if ltb j (2 * 1896)
    then video (j + 2 * screen_cols)
    else if ltb j (2 * 1975)
    then blank j
    else video j

-- Scrolling moves the first 1896 cells of the 1920 that hold the rows behind the first up by one
-- row and blanks 79 cells behind them. The last 25 cells of the bottom row stay as they are.
pub scroll-scrolled : (s : Screen) (j : ℕ) → (scroll s).video j ≡ scrolled s.video j
unfolding scroll
scroll-scrolled s j =
    blank_cells_lem blanked moved j (move_cells moved 0 s.video)
    ∙ ground (arith, move_cells_lem moved 0 j s.video)
