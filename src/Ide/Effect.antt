-- ===== src/Ide/Effect.antt =====
-- What ide_read_blocks and ide_write_blocks of drivers/ide.c leave in memory, and what they return.
use simplix.Base.{
  ℕ, zero, suc, ◌+◌, ◌*◌, ◌/◌, ◌%◌, ◌^◌, ◌<◌, ◌≤◌, ◌≡◌, refl, ap, ◌∙◌, arith, ◌⊎◌, inl, inr, ltb,
  ◌==◌, if◌then◌else◌, Bool-cases, update,
}
use simplix.Str.{Memory}
use simplix.PhysMem.{done}
use simplix.Ide.{
  Machine, IdeDevice, iobase, ata_data, ata_status, ata_status_bsy, ata_timeout,
  wait_for_controller, select_device, get_ide_device,
}
use simplix.Ide.Cases.{ide_read_write_blocks-cases}
use simplix.Ide.Transfer.{
  is_error, io_read, read_words, put_data, get_data, send_command, run_command, with_controller,
  transfer, ide_read_blocks,
}

-- The machine after a number of reads of words from a port, and what the next one returns.
unfoldable pub after_words : {W : Type 0} → Machine W → ℕ → ℕ → W → W
after_words m port zero w = w
after_words m port (suc n) w = after_words m port n (m.inw port w).1

abbrev pub nth_word : {W : Type 0} → Machine W → ℕ → ℕ → W → ℕ
nth_word m port i w = (m.inw port (after_words m port i w)).0

-- Two bytes of a buffer for each word, the low one first.
pub record IsFilled {W : Type 0} (m : Machine W) (port n buf : ℕ) (mem : Memory) (w : W)
    (mem' : Memory) : Type 0 where
  pub low : (i : ℕ) → i < n → mem' (buf + 2 * i) ≡ nth_word m port i w % 2 ^ 8
  pub high : (i : ℕ) → i < n → mem' (buf + 2 * i + 1) ≡ nth_word m port i w / 2 ^ 8 % 2 ^ 8
  pub below : (a : ℕ) → a < buf → mem' a ≡ mem a
  pub above : (a : ℕ) → buf + 2 * n ≤ a → mem' a ≡ mem a

module _ {W : Type 0} (m : Machine W) (port : ℕ) where
  read_words-after :
      (n buf : ℕ) (mem : Memory) (w : W)
      → (read_words m n port buf mem w).1 ≡ after_words m port n w
  unfolding read_words after_words
  read_words-after zero buf mem w = refl
  read_words-after (suc n) buf mem w = read_words-after n _ _ _

  read_words-IsFilled :
      (n buf : ℕ) (mem : Memory) (w : W)
      → IsFilled m port n buf mem w (read_words m n port buf mem w).0
  unfolding read_words after_words
  read_words-IsFilled zero buf mem w = record {
    low = λ i l. omega arith;
    high = λ i l. omega arith;
    below = λ a l. refl;
    above = λ a l. refl;
  }
  read_words-IsFilled (suc n) buf mem w =
      let x = (m.inw port w).0 in
      let mem1 = update (update mem buf (x % 2 ^ 8)) (buf + 1) (x / 2 ^ 8 % 2 ^ 8) in
      let mem' = (read_words m n port (buf + 2) mem1 (m.inw port w).1).0 in
      let rest = read_words-IsFilled n (buf + 2) mem1 (m.inw port w).1 in
      record {
        low = λ i. elim i as (λ k. k < suc n → mem' (buf + 2 * k) ≡ nth_word m port k w % 2 ^ 8) [
          | zero ↦ λ l.
              let at : buf + 2 * 0 ≡ buf = omega arith in
              ap mem' at ∙ rest.below buf (omega arith) ∙ ground arith
          | suc i' ↦ λ l.
              let at : buf + 2 * suc i' ≡ buf + 2 + 2 * i' = omega arith in
              ap mem' at ∙ rest.low i' (omega arith)
        ];
        high = λ i.
            elim i
              as (λ k. k < suc n → mem' (buf + 2 * k + 1) ≡ nth_word m port k w / 2 ^ 8 % 2 ^ 8) [
                | zero ↦ λ l.
                    let at : buf + 2 * 0 + 1 ≡ buf + 1 = omega arith in
                    ap mem' at ∙ rest.below (buf + 1) (omega arith) ∙ ground arith
                | suc i' ↦ λ l.
                    let at : buf + 2 * suc i' + 1 ≡ buf + 2 + 2 * i' + 1 = omega arith in
                    ap mem' at ∙ rest.high i' (omega arith)
              ];
        below = λ a l. rest.below a (omega arith) ∙ ground arith;
        above = λ a l. rest.above a (omega arith) ∙ ground arith;
      }

-- The two ways in which a transfer of `n` blocks ends.
abbrev Failed : {W : Type 0} → Memory → ℕ × Memory × W → Type 0
Failed mem r = (r.0 ≡ 0) × (r.1 ≡ mem)

module _ {W : Type 0} (m : Machine W) (device : IdeDevice) (block n buf : ℕ) (mem : Memory) where
  abbrev Filled : ℕ × Memory × W → Type 0
  Filled r =
      let port = iobase device.controller + ata_data in
      (r.0 ≡ n)
      × (v : W) × (r.2 ≡ m.kmutex_unlock device.controller (after_words m port (n * 256) v))
      × IsFilled m port (n * 256) buf mem v r.1

  run_command-Filled :
      (w : W) → let r = run_command m device n buf io_read mem w in Failed mem r ⊎ Filled r
  unfolding run_command get_data put_data
  run_command-Filled w =
      let data_port = iobase device.controller + ata_data in
      let port = iobase device.controller + ata_status in
      let x1 = wait_for_controller m device.controller ata_status_bsy 0 ata_timeout w in
      let x2 = m.inb port x1.1 in
      let x4 = m.inb port (m.ksema_down device.controller x2.1) in
      elim (Bool-cases (x1.0 == 0)) [
        | inl e1 ↦ inl (rw e1 (refl, refl))
        | inr e1 ↦ elim (Bool-cases (is_error x2.0)) [
          | inl e2 ↦ inl (rw (e1, e2) (refl, refl))
          | inr e2 ↦ elim (Bool-cases (is_error x4.0)) [
            | inl e3 ↦ inl (rw (e1, e2, e3) (refl, refl))
            | inr e3 ↦ inr (
                rw (e1, e2, e3)
                  (
                    refl,
                    x4.1,
                    ap (m.kmutex_unlock device.controller)
                        (read_words-after m data_port (n * 256) buf mem x4.1),
                    read_words-IsFilled m data_port (n * 256) buf mem x4.1,
                  ))
          ]
        ]
      ]

  with_controller-Filled :
      (w : W)
      → let r = with_controller m device block n buf io_read mem w in Failed mem r ⊎ Filled r
  unfolding with_controller
  with_controller-Filled w = elim (Bool-cases (select_device m device w).0) [
    | inr e ↦ inl (rw e (refl, refl))
    | inl e ↦
        rw e
          (run_command-Filled (send_command m device block n io_read (select_device m device w).1))
  ]

  transfer-Filled :
      (w : W) → let r = transfer m device block n buf io_read mem w in Failed mem r ⊎ Filled r
  unfolding transfer
  transfer-Filled w = with_controller-Filled (m.kmutex_lock device.controller w)

-- For a minor number below 4, a read comes to an end. Either it returns 0 and memory is as before,
-- or it returns the number of blocks that was asked for, cut to 256: then it is more than 0, the
-- buffer has the bytes of the words that the controller gave in one run of its data register, 256
-- for each block, memory outside of the buffer is as before, and the mutex was released last.
pub ide_read_blocks-IsFilled :
    {W : Type 0} (m : Machine W) (devices : ℕ → ℕ → IdeDevice) (minor block nblocks buf : ℕ)
    (mem : Memory) (w : W)
    → minor < 4
    → let controller = (get_ide_device devices minor).controller in
      let port = iobase controller + ata_data in
      (n : ℕ) × (mem' : Memory) × (w' : W) × (ide_read_blocks m devices minor block nblocks buf mem
          w
        ≡ done (n, mem', w'))
      × (((n ≡ 0) × (mem' ≡ mem))
          ⊎ ((0 < n)
              × (n ≡ (if ltb 256 nblocks then 256 else nblocks))
              × (v : W) × (w' ≡ m.kmutex_unlock controller (after_words m port (n * 256) v))
              × IsFilled m port (n * 256) buf mem v mem'))
unfolding ide_read_blocks
ide_read_blocks-IsFilled m devices minor block nblocks buf mem w l =
    let device = get_ide_device devices minor in
    let n = if ltb 256 nblocks then 256 else nblocks in
    elim (ide_read_write_blocks-cases m devices minor block nblocks buf io_read mem w l) [
      | inl e ↦ (0, mem, w, e, inl (refl, refl))
      | inr (e, _, some_, _) ↦
          let r = transfer m device block n buf io_read mem w in
          (
            r.0,
            r.1,
            r.2,
            e,
            elim (transfer-Filled m device block n buf mem w) [
              | inl failed ↦ inl failed
              | inr (all, v, at, filled) ↦
                  let pos : 0 < n = ground arith in inr (rw all (pos, refl, v, at, filled))
            ],
          )
    ]
