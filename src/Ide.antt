-- ===== src/Ide.antt =====
-- The IDE driver, drivers/ide.c.
-- The machine is a parameter: what a read of a port returns and what a write does, and the calls of
-- kernel/ksync.c. Ide/Sync has the machine of the kernel, with the mutexes and semaphores of Ksync and
-- the tasks and interrupts that run while a task sleeps. A delay changes nothing that the code reads. A
-- Boolean stands for a field of one bit, and a string of a device is a function from positions.
pub mod Address
pub mod Text
pub mod Transfer
pub mod Cases
pub mod Poll
pub mod Sync
pub mod Guard
pub mod Mutex
pub mod Effect
pub mod Identify
pub mod Geometry
mod Tests
use simplix.Base.{
  ℕ, zero, suc, ◌+◌, ◌-◌, ◌*◌, ◌/◌, ◌%◌, ◌^◌, Bool, true, false, not, ◌&&◌, ◌||◌, ltb, ◌==◌,
  if◌then◌else◌, bit_and, bit_or,
}
use simplix.Str.{Memory}

-- The ports, and the calls of kernel/ksync.c for the mutex and the semaphore of a controller.
pub record Machine (W : Type 0) : Type 0 where
  pub inb : ℕ → W → ℕ × W
  pub inw : ℕ → W → ℕ × W
  pub outb : ℕ → ℕ → W → W
  pub outw : ℕ → ℕ → W → W
  pub kmutex_lock : ℕ → W → W
  pub kmutex_unlock : ℕ → W → W
  pub ksema_down : ℕ → W → W

pub record IdeDevice : Type 0 where
  pub controller : ℕ
  pub position : ℕ
  pub present : Bool
  pub atapi : Bool
  pub lba : Bool
  pub dma : Bool
  pub model : Memory
  pub serial : Memory
  pub firmware : Memory
  pub cylinders : ℕ
  pub heads : ℕ
  pub sectors : ℕ
  pub capacity : ℕ

abbrev pub nr_ide_controllers : ℕ
nr_ide_controllers = 2

abbrev pub nr_devices_per_controller : ℕ
nr_devices_per_controller = 2

-- The first port of a controller.
abbrev pub iobase : ℕ → ℕ
iobase controller = if controller == 0 then 0x1f0 else 0x170

-- The registers, from there.
abbrev pub ata_data : ℕ
ata_data = 0

abbrev pub ata_nsector : ℕ
ata_nsector = 2

abbrev pub ata_sector : ℕ
ata_sector = 3

abbrev pub ata_lcyl : ℕ
ata_lcyl = 4

abbrev pub ata_hcyl : ℕ
ata_hcyl = 5

abbrev pub ata_drv_head : ℕ
ata_drv_head = 6

abbrev pub ata_status : ℕ
ata_status = 7

abbrev pub ata_command : ℕ
ata_command = 7

abbrev pub ata_dev_ctl : ℕ
ata_dev_ctl = 0x206

abbrev pub ata_status_bsy : ℕ
ata_status_bsy = 0x80

abbrev pub ata_status_drq : ℕ
ata_status_drq = 8

abbrev pub ata_status_err : ℕ
ata_status_err = 1

abbrev pub ata_timeout : ℕ
ata_timeout = 30000000

abbrev pub bit : Bool → ℕ
bit b = if b then 1 else 0

-- Neither busy nor with data to transfer.
abbrev pub is_idle : ℕ → Bool
is_idle status = bit_and status (ata_status_bsy + ata_status_drq) == 0

-- The do-while loop of `wait_for_controller` polls once before it counts down, and a timeout of 0
-- wraps there: how many polls a timeout allows.
abbrev pub polls : ℕ → ℕ
polls timeout = if timeout == 0 then 2 ^ 32 else timeout

module _ {W : Type 0} (m : Machine W) where
  -- The loop of `wait_for_controller` by the polls that are left: what `timeout` is at its end, up to
  -- multiples of 2 ^ 32.
  unfoldable pub poll : ℕ → ℕ → ℕ → ℕ → W → ℕ × W
  poll zero port mask value w = (0, w)
  poll (suc timeout) port mask value w =
      let (status, w1) = m.inb port w in
      let rest = poll timeout port mask value w1 in
      if bit_and status mask == value then (suc timeout, w1) else rest

  -- The result has type byte_t, which cuts it to 8 bits.
  unfoldable pub wait_for_controller : ℕ → ℕ → ℕ → ℕ → W → ℕ × W
  wait_for_controller controller mask value timeout w =
      let (left, w1) = poll (polls timeout) (iobase controller + ata_status) mask value w in
      (left % 2 ^ 8, w1)

  unfoldable pub reset_controller : ℕ → W → Bool × W
  reset_controller controller w =
      let w1 = m.outb (iobase controller + ata_dev_ctl) 4 w in
      let (busy, w2) = wait_for_controller controller ata_status_bsy ata_status_bsy 1 w1 in
      let w3 = m.outb (iobase controller + ata_dev_ctl) 0 w2 in
      let (free, w4) = wait_for_controller controller ata_status_bsy 0 ata_timeout w3 in
      if busy == 0 then (false, w2) else if free == 0 then (false, w4) else (true, w4)

  unfoldable pub select_device : IdeDevice → W → Bool × W
  select_device device w =
      let port = iobase device.controller in
      let (before, w1) = m.inb (port + ata_status) w in
      let w2 = m.outb (port + ata_drv_head) (bit_or 0xa0 (device.position * 2 ^ 4)) w1 in
      let (after, w3) = m.inb (port + ata_status) w2 in
      if not (is_idle before)
      then (false, w1)
      else if not (is_idle after)
      then (false, w3)
      else (true, w3)

-- The device of a minor number, by its controller and its position.
abbrev pub get_ide_device : (ℕ → ℕ → IdeDevice) → ℕ → IdeDevice
get_ide_device devices minor =
    devices (minor / nr_devices_per_controller) (minor % nr_devices_per_controller)

-- What `fix_ide_string` does: the loop that swaps the characters of each pair, by the pairs that
-- are left, and the loop back from the end. `p` is the position behind the one that is read next.
unfoldable pub swap_pairs : ℕ → ℕ → Memory → Memory
swap_pairs zero p s = s
swap_pairs (suc pairs) p s =
    swap_pairs pairs (p + 2) (λ i. if i == p then s (p + 1) else if i == p + 1 then s p else s i)

abbrev pub is_shown : ℕ → Bool
is_shown c = ltb 32 c && ltb c 127

unfoldable pub wipe_back : ℕ → Memory → Memory
wipe_back zero s = s
wipe_back (suc p) s =
    let rest = wipe_back p (λ i. if i == p then 0 else s i) in if is_shown (s p) then s else rest

-- For a length of 2 at least; `len & ~1` is the length without its lowest bit.
unfoldable pub fix_ide_string : ℕ → Memory → Memory
fix_ide_string len s =
    let end = len / 2 * 2 in
    wipe_back (end - 2) (λ i. if i == end - 1 then 0 else swap_pairs (len / 2) 0 s i)
