-- ===== src/Ide/Geometry.antt =====
-- identify_ide_device of drivers/ide.c: the geometry that it notes serves ide_read_write_blocks.
use native.Mathlib.Nat.{mul-le-mul_right, mul_comm}
use simplix.Base.{
  ℕ, zero, suc, ◌+◌, ◌*◌, ◌^◌, ◌<◌, ◌≤◌, ◌≡◌, refl, ap, ◌∙◌, arith, inl, inr, true, false, not,
  ◌&&◌, ◌==◌, if◌then◌else◌, Bool-cases,
}
use simplix.PhysMem.{wrap}
use simplix.Ide.{
  Machine, IdeDevice, iobase, ata_data, ata_nsector, ata_sector, ata_command, ata_timeout,
  wait_for_controller, reset_controller, select_device,
}
use simplix.Ide.Address.{IsGeometry, block_address, addressed, addressed-block_address}
use simplix.Ide.Effect.{after_words, nth_word}
use simplix.Ide.Identify.{
  fill_device, judge_signature, read_info, read_signature, send_identify, identify_ide_device,
  ata_identify, atapi_identify,
}

module _ {W : Type 0} (m : Machine W) (port : ℕ) where
  read_info-below :
      (n i j : ℕ) (info : ℕ → ℕ) (w : W) → j < i → (read_info m n i port info w).0 j ≡ info j
  unfolding read_info
  read_info-below zero i j info w l = refl
  read_info-below (suc n) i j info w l =
      read_info-below n (i + 1) j _ _ (omega arith) ∙ ground arith

  read_info-nth_word :
      (n i j : ℕ) (info : ℕ → ℕ) (w : W)
      → j < n
      → (read_info m n i port info w).0 (i + j) ≡ nth_word m port j w
  unfolding read_info after_words
  read_info-nth_word zero i j info w l = omega arith
  read_info-nth_word (suc n) i zero info w l =
      let at : i + 0 ≡ i = omega arith in
      rw at (read_info-below n (i + 1) i _ _ (omega arith) ∙ ground arith)
  read_info-nth_word (suc n) i (suc j) info w l =
      let at : i + suc j ≡ i + 1 + j = omega arith in
      rw at (read_info-nth_word n (i + 1) j _ _ (omega arith))

  read_info_lem :
      (j : ℕ) (info : ℕ → ℕ) (w : W)
      → j < 256
      → (read_info m 256 0 port info w).0 j ≡ nth_word m port j w
  read_info_lem j info w l =
      let here : 0 + j ≡ j = omega arith in rw here at (read_info-nth_word 256 0 j info w l)

-- A device that was found, with the data that it sent.
record IsIdentified {W : Type 0} (m : Machine W) (controller : ℕ) (device' : IdeDevice)
    : Type 0 where
  found : IdeDevice
  info : ℕ → ℕ
  when : W
  fields : device' ≡ fill_device info found
  words : (j : ℕ) → j < 256 → info j ≡ nth_word m (iobase controller + ata_data) j when

judge_signature-controller :
    (cl ch status : ℕ) (device : IdeDevice)
    → (judge_signature cl ch status device).controller ≡ device.controller
unfolding judge_signature
judge_signature-controller cl ch status device = elim (Bool-cases ((cl == 0x14) && (ch == 0xeb))) [
  | inl e ↦ rw e refl
  | inr e ↦ elim (Bool-cases ((cl == 0) && (ch == 0) && not (status == 0))) [
    | inl f ↦ rw (e, f) refl
    | inr f ↦ rw (e, f) refl
  ]
]

module _ {W : Type 0} (m : Machine W) where
  send_identify-IsIdentified :
      (device : IdeDevice) (info : ℕ → ℕ) (w : W)
      → (send_identify m device info w).0.present ≡ true
      → IsIdentified m device.controller (send_identify m device info w).0
  unfolding send_identify
  send_identify-IsIdentified device info w present =
      let port = iobase device.controller + ata_data in
      let w1 =
        m.outb (iobase device.controller + ata_command)
          (if device.atapi then atapi_identify else ata_identify) w in
      let x2 = wait_for_controller m device.controller 137 8 ata_timeout w1 in
      elim (Bool-cases (x2.0 == 0)) [
        | inl e ↦ let no : false ≡ true = rw e at present in cc
        | inr e ↦ rw e (record {
          found = device;
          info = (read_info m 256 0 port info x2.1).0;
          when = x2.1;
          fields = refl;
          words = λ j l. read_info_lem m port j info x2.1 l;
        })
      ]

  read_signature-controller :
      (device : IdeDevice) (w : W) → (read_signature m device w).0.controller ≡ device.controller
  unfolding read_signature
  read_signature-controller device w =
      let port = iobase device.controller in
      let x1 = m.inb (port + ata_nsector) w in
      let x2 = m.inb (port + ata_sector) x1.1 in
      elim (Bool-cases (x1.0 == 1)) [
        | inr e ↦ rw e refl
        | inl e ↦ elim (Bool-cases (x2.0 == 1)) [
          | inr f ↦ rw (e, f) refl
          | inl f ↦ rw (e, f) (judge_signature-controller _ _ _ device)
        ]
      ]

  identify_ide_device-IsIdentified :
      (device : IdeDevice) (info : ℕ → ℕ) (w : W)
      → (identify_ide_device m device info w).0.present ≡ true
      → IsIdentified m device.controller (identify_ide_device m device info w).0
  unfolding identify_ide_device
  identify_ide_device-IsIdentified device info w present =
      let port = iobase device.controller + ata_nsector in
      let absent = record device { present = false } in
      let echo = m.inb port (m.outb port 0xab w) in
      let x4 = select_device m device (reset_controller m device.controller echo.1).1 in
      let x5 = read_signature m absent x4.1 in
      elim (Bool-cases (echo.0 == 0xab)) [
        | inr e1 ↦ let no : false ≡ true = rw e1 at present in cc
        | inl e1 ↦ elim (Bool-cases x4.0) [
          | inr e2 ↦ let no : false ≡ true = rw (e1, e2) at present in cc
          | inl e2 ↦ elim (Bool-cases x5.0.present) [
            | inr e3 ↦ let known : x5.0.present ≡ true = rw (e1, e2, e3) at present in cc
            | inl e3 ↦
                let here = send_identify-IsIdentified x5.0 info x5.1 (rw (e1, e2, e3) at present) in
                let same : x5.0.controller ≡ device.controller =
                  read_signature-controller absent x4.1 in
                rw (e1, e2, e3) (rw same at here)
          ]
        ]
      ]

wrap_le : (n : ℕ) → wrap n ≤ n
wrap_le n = omega arith

fill_device-IsGeometry :
    (info : ℕ → ℕ) (device : IdeDevice)
    → ((j : ℕ) → j < 256 → info j < 2 ^ 16)
    → 0 < info 3
    → info 3 ≤ 16
    → 0 < info 6
    → info 6 < 2 ^ 8
    → IsGeometry (fill_device info device)
unfolding fill_device
fill_device-IsGeometry info device small hp hl sp sl = record {
  heads_pos = hp;
  heads_le = hl;
  sectors_pos = sp;
  sectors_le = sl;
  lba_le = λ e. let l = small 60 (omega arith) in rw e (omega arith);
  chs_le = λ e.
      let few : info 3 * info 6 ≤ 16 * info 6 = mul-le-mul_right (info 6) hl in
      let whole : wrap (info 3 * info 6) ≡ info 3 * info 6 = omega (arith, few) in
      let c_lt : info 1 ≤ 2 ^ 16 = omega (arith, small 1 (omega arith)) in
      let many : info 1 * (info 3 * info 6) ≤ 2 ^ 16 * (info 3 * info 6) =
        mul-le-mul_right (info 3 * info 6) c_lt in
      let turned : info 3 * info 6 * info 1 ≡ info 1 * (info 3 * info 6) =
        mul_comm (info 3 * info 6) (info 1) in
      rw (e, whole) (omega (arith, wrap_le (info 3 * info 6 * info 1), many, turned));
}

-- A device that is present behind identify_ide_device, with a number of heads and sectors per
-- cylinder that the standard admits, has each block below its capacity at the address that
-- ide_read_write_blocks sends for it. A word of the data register has 16 bits.
pub identify_ide_device-addressed :
    {W : Type 0} (m : Machine W) (device : IdeDevice) (info : ℕ → ℕ) (w : W) (block : ℕ)
    → ((port : ℕ) (w : W) → (m.inw port w).0 < 2 ^ 16)
    → let device' = (identify_ide_device m device info w).0 in
      device'.present ≡ true
      → 0 < device'.heads
      → device'.heads ≤ 16
      → 0 < device'.sectors
      → device'.sectors < 2 ^ 8
      → block < device'.capacity
      → addressed device' (block_address device' block) ≡ block
unfolding fill_device
identify_ide_device-addressed m device info w block small present hp hl sp sl l =
    let i = identify_ide_device-IsIdentified m device info w present in
    let heads : (identify_ide_device m device info w).0.heads ≡ i.info 3 =
      ap (λ d. d.heads) i.fields in
    let sectors : (identify_ide_device m device info w).0.sectors ≡ i.info 6 =
      ap (λ d. d.sectors) i.fields in
    let words : (j : ℕ) → j < 256 → i.info j < 2 ^ 16 = λ j l. rw (i.words j l) (small _ _) in
    let geometry =
      fill_device-IsGeometry i.info i.found words (rw heads at hp) (rw heads at hl)
        (rw sectors at sp) (rw sectors at sl) in
    (addressed-block_address (identify_ide_device m device info w).0 block (rw i.fields geometry)
      l).0
