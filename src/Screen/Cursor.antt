-- ===== src/Screen/Cursor.antt =====
-- The cursor of drivers/gfx.c.
use simplix.Base.{
  ℕ, ◌+◌, ◌-◌, ◌*◌, ◌/◌, ◌≤◌, ◌<◌, ◌≡◌, refl, inl, inr, arith, leb, ◌==◌, if◌then◌else◌, ◌&&◌, ◌∙◌,
  Bool-cases,
}
use simplix.Screen.{
  Screen, scroll, gfx_putchar, put_cell, screen_rows, screen_cols, default_text_attr,
}
use simplix.Screen.Scroll.{scroll-scrolled}

-- The cursor is on the screen or just behind it, and no byte behind the screen is written.
abbrev pub Safe : Screen → Screen → Type 0
Safe s s' = (s'.offset ≤ 2000) × ((j : ℕ) → 4000 ≤ j → s'.video j ≡ s.video j)

-- The screen that gfx_putchar writes to.
abbrev pub make_room : Screen → Screen
make_room s = if leb (screen_rows * screen_cols) s.offset then scroll s else s

offset-scroll : (s : Screen) → (scroll s).offset ≡ s.offset - screen_cols
unfolding scroll
offset-scroll s = refl

make_room-Safe :
    (s : Screen)
    → s.offset ≤ 2000
    → ((make_room s).offset < 2000) × ((j : ℕ) → 4000 ≤ j → (make_room s).video j ≡ s.video j)
make_room-Safe s h = elim (Bool-cases (leb (screen_rows * screen_cols) s.offset)) [
  | inl t ↦ rw t (omega (arith, offset-scroll s), λ j l. scroll-scrolled s j ∙ ground arith)
  | inr t ↦ rw t (ground arith, λ j l. refl)
]

put-Safe :
    (c : ℕ) (s r : Screen)
    → r.offset < 2000
    → ((j : ℕ) → 4000 ≤ j → r.video j ≡ s.video j)
    → Safe s (
        if leb 32 c && leb c 126
        then record { video = put_cell r.offset c default_text_attr r.video; offset = r.offset + 1 }
        else if c == 10
        then record r { offset = screen_cols * (1 + r.offset / screen_cols) }
        else r)
put-Safe c s r h same = elim (Bool-cases (leb 32 c && leb c 126)) [
  | inl t ↦ rw t (omega arith, λ j l. ground (arith, same j l))
  | inr t ↦ rw t (elim (Bool-cases (c == 10)) [
    | inl u ↦ rw u (omega arith, same)
    | inr u ↦ rw u (omega arith, same)
  ])
]

-- From a cursor that is on the screen or just behind it, gfx_putchar leaves one that is, and
-- writes no byte behind the 4000 bytes of the screen, whatever character it prints.
pub gfx_putchar-Safe : (c : ℕ) (s : Screen) → s.offset ≤ 2000 → Safe s (gfx_putchar c s)
unfolding gfx_putchar
gfx_putchar-Safe c s h =
    let (inside, same) = make_room-Safe s h in put-Safe c s (make_room s) inside same
