-- ===== src/Screen/Text.antt =====
-- The strings that drivers/gfx.c prints.
use simplix.Base.{
  ℕ, zero, suc, ◌+◌, ◌-◌, ◌*◌, ◌/◌, ◌%◌, ◌≤◌, ◌<◌, ◌≡◌, refl, inl, inr, true, false, some, arith,
  ltb, leb, ◌==◌, if◌then◌else◌, ◌&&◌, ◌∙◌, Bool-cases, ap,
}
use simplix.Str.{Memory}
use simplix.Str.Copy.{IsString, IsString-tail, IsString-head, IsString-nil}
use simplix.Screen.{
  Screen, gfx_putchar, gfx_putstring, put_cell, videomem_loop, videomem_putstring, screen_rows,
  screen_cols, default_text_attr,
}
use simplix.Screen.Cursor.{Safe, gfx_putchar-Safe}

-- The video memory with the `n` characters at `p` in the cells from cell `i` on.
abbrev pub with_text : Memory → ℕ → ℕ → ℕ → ℕ → (ℕ → ℕ) → ℕ → ℕ
with_text mem p n i attr video j =
    if leb (2 * i) j && ltb j (2 * (i + n))
    then if j % 2 == 0 then mem (p + (j / 2 - i)) else attr
    else video j

with_text-nil :
    (mem : Memory) (p i attr j : ℕ) (video : ℕ → ℕ) → with_text mem p zero i attr video j ≡ video j
with_text-nil mem p i attr j video = ground arith

with_text-put_cell :
    (mem : Memory) (p n i attr j : ℕ) (video : ℕ → ℕ)
    → with_text mem (p + 1) n (i + 1) attr (put_cell i (mem p) attr video) j
      ≡ with_text mem p (suc n) i attr video j
with_text-put_cell mem p n i attr j video =
    let later : 2 * (i + 1) ≤ j → mem (p + 1 + (j / 2 - (i + 1))) ≡ mem (p + (j / 2 - i)) =
      λ l. ap mem (omega arith) in
    let first : j ≡ 2 * i → mem (p + (j / 2 - i)) ≡ mem p = λ e. ap mem (omega arith) in
    ground (arith, later, first)

-- Each of the characters can be printed.
abbrev pub Printable : Memory → ℕ → ℕ → Type 0
Printable mem p n = (k : ℕ) → k < n → (leb 32 (mem (p + k)) && leb (mem (p + k)) 126) ≡ true

Printable-head :
    (mem : Memory) (p n : ℕ) → Printable mem p (suc n) → (leb 32 (mem p) && leb (mem p) 126) ≡ true
Printable-head mem p n h = let e : p + 0 ≡ p = omega arith in rw e at (h 0 (omega arith))

Printable-tail : (mem : Memory) (p n : ℕ) → Printable mem p (suc n) → Printable mem (p + 1) n
Printable-tail mem p n h k l =
    let e : p + 1 + k ≡ p + suc k = omega arith in rw e (h (suc k) (omega arith))

gfx_putchar-printable :
    (c : ℕ) (s : Screen)
    → s.offset < 2000
    → (leb 32 c && leb c 126) ≡ true
    → gfx_putchar c s
      ≡ record { video = put_cell s.offset c default_text_attr s.video; offset = s.offset + 1 }
unfolding gfx_putchar
gfx_putchar-printable c s h p =
    let room : leb (screen_rows * screen_cols) s.offset ≡ false = ground arith in
    rw room (rw p refl)

-- What a screen that shows the text is.
abbrev pub Shows : Memory → ℕ → ℕ → Screen → Screen → Type 0
Shows mem p n s s' =
    (s'.offset ≡ s.offset + n)
    × ((j : ℕ) → s'.video j ≡ with_text mem p n s.offset default_text_attr s.video j)

-- With more fuel than characters, gfx_putstring of a string of printable characters that ends
-- before the end of the screen returns, writes the characters in the cells from the cursor on,
-- changes no other byte of the video memory, and moves the cursor behind the text.
pub gfx_putstring-Shows :
    (fuel p n : ℕ) (mem : Memory) (s : Screen)
    → IsString mem p n
    → n < fuel
    → Printable mem p n
    → s.offset + n ≤ 2000
    → (s' : Screen) × (gfx_putstring fuel mem p s ≡ some s') × Shows mem p n s s'
unfolding gfx_putstring
gfx_putstring-Shows zero p n mem s t f h b = absurd (omega arith)
gfx_putstring-Shows (suc fuel) p zero mem s t f h b =
    (s, ground (arith, IsString-nil mem p t), (omega arith, λ j. ground arith))
gfx_putstring-Shows (suc fuel) p (suc n) mem s t f h b =
    let put = gfx_putchar-printable (mem p) s (omega arith) (Printable-head mem p n h) in
    let (s', runs, (at, shown)) =
      gfx_putstring-Shows fuel (p + 1) n mem
        (record {
          video = put_cell s.offset (mem p) default_text_attr s.video;
          offset = s.offset + 1;
        })
        (IsString-tail mem p n t) (omega arith) (Printable-tail mem p n h) (omega arith) in
    (
      s',
      rw (IsString-head mem p n t) (rw put runs),
      (
        omega (arith, at),
        λ j. shown j ∙ with_text-put_cell mem p n s.offset default_text_attr j s.video,
      ),
    )

-- From a cursor that is on the screen or just behind it and with more fuel than characters,
-- gfx_putstring of any string returns, leaves such a cursor, and writes no byte behind the screen.
pub gfx_putstring-Safe :
    (fuel p n : ℕ) (mem : Memory) (s : Screen)
    → IsString mem p n
    → n < fuel
    → s.offset ≤ 2000
    → (s' : Screen) × (gfx_putstring fuel mem p s ≡ some s') × Safe s s'
unfolding gfx_putstring
gfx_putstring-Safe zero p n mem s t f b = absurd (omega arith)
gfx_putstring-Safe (suc fuel) p zero mem s t f b =
    (s, ground (arith, IsString-nil mem p t), (b, λ j l. refl))
gfx_putstring-Safe (suc fuel) p (suc n) mem s t f b =
    let (inside, same) = gfx_putchar-Safe (mem p) s b in
    let (s', runs, (inside', same')) =
      gfx_putstring-Safe fuel (p + 1) n mem (gfx_putchar (mem p) s) (IsString-tail mem p n t)
        (omega arith) inside in
    (s', rw (IsString-head mem p n t) runs, (inside', λ j l. same' j l ∙ same j l))

-- The characters of a text of `n` that go into the cells from cell `i` on.
abbrev pub room_for : ℕ → ℕ → ℕ
room_for i n = if ltb (2000 - i) n then 2000 - i else n

videomem_loop-with_text :
    (fuel p n i attr : ℕ) (mem : Memory) (video : ℕ → ℕ)
    → IsString mem p n
    → n < fuel
    → (v : ℕ → ℕ) × (videomem_loop fuel mem p i attr video ≡ some v)
      × ((j : ℕ) → v j ≡ with_text mem p (room_for i n) i attr video j)
unfolding videomem_loop
videomem_loop-with_text zero p n i attr mem video t f = absurd (omega arith)
videomem_loop-with_text (suc fuel) p zero i attr mem video t f =
    (video, ground (arith, IsString-nil mem p t), λ j. ground arith)
videomem_loop-with_text (suc fuel) p (suc n) i attr mem video t f =
    elim (Bool-cases (leb (screen_rows * screen_cols) i)) [
      | inl full ↦ (video, rw (IsString-head mem p n t) (rw full refl), λ j. ground arith)
      | inr more ↦
          (let (v, runs, shown) =
              videomem_loop-with_text fuel (p + 1) n (i + 1) attr mem
                (put_cell i (mem p) attr video) (IsString-tail mem p n t) (omega arith) in
            let size : room_for i (suc n) ≡ suc (room_for (i + 1) n) = ground arith in
            (
              v,
              rw (IsString-head mem p n t) (rw more runs),
              λ j. rw size (shown j ∙ with_text-put_cell mem p (room_for (i + 1) n) i attr j video),
            ))
    ]

-- With more fuel than characters, videomem_putstring returns, writes as many characters of the
-- string as fit between the given cell and the end of the screen in the cells from the given one
-- on, with the given attribute, changes no other byte, and leaves the cursor where it is.
pub videomem_putstring-with_text :
    (fuel p n row col attr : ℕ) (mem : Memory) (s : Screen)
    → IsString mem p n
    → n < fuel
    → (s' : Screen) × (videomem_putstring fuel mem p row col attr s ≡ some s')
      × (s'.offset ≡ s.offset)
      × ((j : ℕ)
          → s'.video j
            ≡ with_text mem p
                (room_for (row * screen_cols + col) n)
                (row * screen_cols + col)
                attr
                s.video
                j)
unfolding videomem_putstring
videomem_putstring-with_text fuel p n row col attr mem s t f =
    let (v, runs, shown) =
      videomem_loop-with_text fuel p n (row * screen_cols + col) attr mem s.video t f in
    (record s { video = v }, rw (videomem_putstring, runs) refl, refl, shown)
