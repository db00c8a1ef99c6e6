-- ===== src/Ide/Identify.antt =====
-- identify_ide_device of drivers/ide.c.
-- `info` is the data that a device sends about itself: 256 words of 16 bits.
use simplix.Base.{
  ℕ, zero, suc, ◌+◌, ◌*◌, ◌/◌, ◌%◌, ◌^◌, true, false, not, ◌&&◌, ltb, ◌==◌, if◌then◌else◌, update,
}
use simplix.Str.{Memory}
use simplix.PhysMem.{wrap}
use simplix.Ide.{
  Machine, IdeDevice, iobase, ata_data, ata_nsector, ata_sector, ata_lcyl, ata_hcyl, ata_status,
  ata_command, ata_status_bsy, ata_status_drq, ata_status_err, ata_timeout, wait_for_controller,
  reset_controller, select_device, fix_ide_string,
}

abbrev pub ata_identify : ℕ
ata_identify = 0xec

abbrev pub atapi_identify : ℕ
atapi_identify = 0xa1

-- A copy of bytes of `info`, from a word on, over a string.
abbrev pub copy_info : (ℕ → ℕ) → ℕ → ℕ → Memory → Memory
copy_info info word len s j =
    if ltb j len
    then (if j % 2 == 0 then info (word + j / 2) % 2 ^ 8 else info (word + j / 2) / 2 ^ 8 % 2 ^ 8)
    else s j

-- The fields of a device, from the data that it sends.
unfoldable pub fill_device : (ℕ → ℕ) → IdeDevice → IdeDevice
fill_device info device =
    let lba = info 49 / 2 ^ 9 % 2 == 1 in
    record device {
      lba = lba;
      dma = info 49 / 2 ^ 8 % 2 == 1;
      cylinders = info 1;
      heads = info 3;
      sectors = info 6;
      capacity = if lba then info 60 else wrap (wrap (info 3 * info 6) * info 1);
      model = fix_ide_string 40 (copy_info info 27 40 device.model);
      serial = fix_ide_string 20 (copy_info info 10 20 device.serial);
      firmware = fix_ide_string 8 (copy_info info 23 8 device.firmware);
    }

unfoldable pub judge_signature : ℕ → ℕ → ℕ → IdeDevice → IdeDevice
judge_signature cl ch status device =
    if (cl == 0x14) && (ch == 0xeb)
    then record device { present = true; atapi = true }
    else if (cl == 0) && (ch == 0) && not (status == 0)
    then record device { present = true }
    else device

module _ {W : Type 0} (m : Machine W) where
  -- The loop that collects the data: the words that are left, and the index of the next one.
  unfoldable pub read_info : ℕ → ℕ → ℕ → (ℕ → ℕ) → W → (ℕ → ℕ) × W
  read_info zero i port info w = (info, w)
  read_info (suc n) i port info w =
      let (x, w1) = m.inw port w in read_info n (i + 1) port (update info i x) w1

  -- What the registers say after a device was selected: `present` and `atapi`.
  unfoldable pub read_signature : IdeDevice → W → IdeDevice × W
  read_signature device w =
      let port = iobase device.controller in
      let (nsector, w1) = m.inb (port + ata_nsector) w in
      let (sector, w2) = m.inb (port + ata_sector) w1 in
      let (cl, w3) = m.inb (port + ata_lcyl) w2 in
      let (ch, w4) = m.inb (port + ata_hcyl) w3 in
      let (status, w5) = m.inb (port + ata_status) w4 in
      if not (nsector == 1)
      then (device, w1)
      else if not (sector == 1)
      then (device, w2)
      else (judge_signature cl ch status device, w5)

  -- The command, and its data. `info` is what is in the array before.
  unfoldable pub send_identify : IdeDevice → (ℕ → ℕ) → W → IdeDevice × W
  send_identify device info w =
      let port = iobase device.controller in
      let w1 =
        m.outb (port + ata_command) (if device.atapi then atapi_identify else ata_identify) w in
      let (ready, w2) =
        wait_for_controller m device.controller (ata_status_bsy + ata_status_drq + ata_status_err)
          ata_status_drq ata_timeout w1 in
      let (info', w3) = read_info 256 0 (port + ata_data) info w2 in
      if ready == 0 then (record device { present = false }, w2) else (fill_device info' device, w3)

  -- The result of `reset_controller` is not used.
  unfoldable pub identify_ide_device : IdeDevice → (ℕ → ℕ) → W → IdeDevice × W
  identify_ide_device device info w =
      let port = iobase device.controller in
      let absent = record device { present = false } in
      let w1 = m.outb (port + ata_nsector) 0xab w in
      let (echo, w2) = m.inb (port + ata_nsector) w1 in
      let (_, w3) = reset_controller m device.controller w2 in
      let (selected, w4) = select_device m device w3 in
      let (found, w5) = read_signature absent w4 in
      if not (echo == 0xab)
      then (absent, w2)
      else if not selected
      then (absent, w4)
      else if not found.present
      then (found, w5)
      else send_identify found info w5
