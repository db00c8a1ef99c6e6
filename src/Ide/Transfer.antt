-- ===== src/Ide/Transfer.antt =====
-- ide_read_write_blocks of drivers/ide.c.
use simplix.Base.{
  ℕ, zero, suc, ◌+◌, ◌*◌, ◌/◌, ◌%◌, ◌^◌, Bool, not, ltb, leb, ◌==◌, if◌then◌else◌, update, bit_and,
  bit_or,
}
use simplix.Str.{Memory}
use simplix.PhysMem.{Run, done, panic, wrap}
use simplix.Ide.{
  Machine, IdeDevice, nr_ide_controllers, nr_devices_per_controller, iobase, ata_data, ata_nsector,
  ata_sector, ata_lcyl, ata_hcyl, ata_drv_head, ata_status, ata_command, ata_status_bsy,
  ata_status_err, ata_timeout, bit, wait_for_controller, select_device, get_ide_device,
}
use simplix.Ide.Address.{block_address}

pub data Direction : Type 0 where
  io_read io_write : Direction

abbrev pub max_nblocks : ℕ
max_nblocks = 256

abbrev pub is_error : ℕ → Bool
is_error status = not (bit_and status ata_status_err == 0)

module _ {W : Type 0} (m : Machine W) where
  -- The loops that copy words between the data register and the buffer, by the words that are
  -- left. A word is stored with its low byte first.
  unfoldable pub read_words : ℕ → ℕ → ℕ → Memory → W → Memory × W
  read_words zero port buf mem w = (mem, w)
  read_words (suc n) port buf mem w =
      let (x, w1) = m.inw port w in
      read_words n port (buf + 2)
        (update (update mem buf (x % 2 ^ 8)) (buf + 1) (x / 2 ^ 8 % 2 ^ 8)) w1

  unfoldable pub write_words : ℕ → ℕ → ℕ → Memory → W → W
  write_words zero port buf mem w = w
  write_words (suc n) port buf mem w =
      write_words n port (buf + 2) mem (m.outw port (mem buf + mem (buf + 1) * 2 ^ 8) w)

  unfoldable pub put_data : Direction → ℕ → ℕ → ℕ → Memory → W → W
  put_data io_read n port buf mem w = w
  put_data io_write n port buf mem w = write_words n port buf mem w

  unfoldable pub get_data : Direction → ℕ → ℕ → ℕ → Memory → W → Memory × W
  get_data io_read n port buf mem w = read_words n port buf mem w
  get_data io_write n port buf mem w = (mem, w)

  -- The six writes that start an operation.
  unfoldable pub send_command : IdeDevice → ℕ → ℕ → Direction → W → W
  send_command device block nblocks type w =
      let port = iobase device.controller in
      let a = block_address device block in
      let w1 = m.outb (port + ata_nsector) (nblocks % 2 ^ 8) w in
      let w2 = m.outb (port + ata_sector) a.sc w1 in
      let w3 = m.outb (port + ata_lcyl) a.cl w2 in
      let w4 = m.outb (port + ata_hcyl) a.ch w3 in
      let w5 =
        m.outb (port + ata_drv_head)
          (bit_or (bit_or (bit device.lba * 2 ^ 6) (device.position * 2 ^ 4)) a.hd) w4 in
      m.outb (port + ata_command) (elim type [ io_read ↦ 0x20 | io_write ↦ 0x30 ]) w5

  -- What follows the write of the command, with the release of the mutex on each path: the number of
  -- blocks.
  unfoldable pub run_command : IdeDevice → ℕ → ℕ → Direction → Memory → W → ℕ × Memory × W
  run_command device nblocks buf type mem w =
      let port = iobase device.controller in
      let (free, w1) = wait_for_controller m device.controller ata_status_bsy 0 ata_timeout w in
      let (status, w2) = m.inb (port + ata_status) w1 in
      let w3 = put_data type (nblocks * 256) (port + ata_data) buf mem w2 in
      let w4 = m.ksema_down device.controller w3 in
      let (status', w5) = m.inb (port + ata_status) w4 in
      let r = get_data type (nblocks * 256) (port + ata_data) buf mem w5 in
      if free == 0
      then (0, mem, m.kmutex_unlock device.controller w1)
      else if is_error status
      then (0, mem, m.kmutex_unlock device.controller w2)
      else if is_error status'
      then (0, mem, m.kmutex_unlock device.controller w5)
      else (nblocks, r.0, m.kmutex_unlock device.controller r.1)

  -- What follows the call of kmutex_lock.
  unfoldable pub with_controller : IdeDevice → ℕ → ℕ → ℕ → Direction → Memory → W → ℕ × Memory × W
  with_controller device block nblocks buf type mem w =
      let (selected, w1) = select_device m device w in
      if not selected
      then (0, mem, m.kmutex_unlock device.controller w1)
      else run_command device nblocks buf type mem (send_command device block nblocks type w1)

  unfoldable pub transfer : IdeDevice → ℕ → ℕ → ℕ → Direction → Memory → W → ℕ × Memory × W
  transfer device block nblocks buf type mem w =
      with_controller device block nblocks buf type mem (m.kmutex_lock device.controller w)

  unfoldable pub ide_read_write_blocks :
      (ℕ → ℕ → IdeDevice) → ℕ → ℕ → ℕ → ℕ → Direction → Memory → W → Run (ℕ × Memory × W)
  ide_read_write_blocks devices minor block nblocks buf type mem w =
      let device = get_ide_device devices minor in
      let n = if ltb max_nblocks nblocks then max_nblocks else nblocks in
      if leb (nr_ide_controllers * nr_devices_per_controller) minor
      then panic
      else if not device.present
      then done (0, mem, w)
      else if nblocks == 0
      then done (0, mem, w)
      else if ltb device.capacity (wrap (block + n))
      then done (0, mem, w)
      else done (transfer device block n buf type mem w)

  unfoldable pub ide_read_blocks :
      (ℕ → ℕ → IdeDevice) → ℕ → ℕ → ℕ → ℕ → Memory → W → Run (ℕ × Memory × W)
  ide_read_blocks devices minor block nblocks buffer mem w =
      ide_read_write_blocks devices minor block nblocks buffer io_read mem w

  unfoldable pub ide_write_blocks :
      (ℕ → ℕ → IdeDevice) → ℕ → ℕ → ℕ → ℕ → Memory → W → Run (ℕ × Memory × W)
  ide_write_blocks devices minor block nblocks buffer mem w =
      ide_read_write_blocks devices minor block nblocks buffer io_write mem w
