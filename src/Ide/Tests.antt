-- ===== src/Ide/Tests.antt =====
-- The theorems about drivers/ide.c at a drive with ten cylinders, four heads and 17 sectors.
use simplix.Base.{
  ℕ, suc, ◌+◌, ◌-◌, ◌*◌, ◌%◌, ◌<◌, ◌≤◌, ◌≡◌, ◌≢◌, ◌⊎◌, refl, arith, true, false, ◌==◌,
  if◌then◌else◌,
}
use simplix.Str.{Memory}
use simplix.PhysMem.{done}
use simplix.Ide.{
  Machine, IdeDevice, poll, wait_for_controller, reset_controller, select_device, fix_ide_string,
}
use simplix.Ide.Address.{IsGeometry, addressed, block_address, addressed-block_address}
use simplix.Ide.Text.{IsFixed, fix_ide_string-IsFixed}
use simplix.Ide.Transfer.{ide_read_blocks}
use simplix.Ide.Poll.{polled, wait_for_controller-left}
use simplix.Base.{none, List, [], ◌∷◌}
use simplix.Sched.{runnable}
use simplix.Ide.Sync.{Hardware, World, Event, Call, switch, lock, interrupt}
use simplix.Ide.Effect.{IsFilled, after_words, ide_read_blocks-IsFilled}
use simplix.Ide.Identify.{
  identify_ide_device, fill_device, read_info, read_signature, judge_signature, send_identify,
}
use simplix.Ide.Geometry.{identify_ide_device-addressed}

-- `unguarded` counts the uses of a port while the mutex is free; `next` is the word that is read
-- next from the data register.
record Drive : Type 0 where
  held : ℕ
  unguarded : ℕ
  nsector : ℕ
  status : ℕ
  next : ℕ

abbrev used : Drive → Drive
used w = record w { unguarded = if w.held == 0 then suc w.unguarded else w.unguarded }

abbrev in_register : ℕ → Drive → ℕ
in_register p w =
    if p == 0x1f7 then w.status else if p == 0x1f2 then w.nsector else if p == 0x1f3 then 1 else 0

abbrev geometry_word : ℕ → ℕ
geometry_word i = if i == 1 then 10 else if i == 3 then 4 else if i == 6 then 17 else 0x4142

abbrev drive : Machine Drive
drive = record {
  inb = λ p w. (in_register p w, used w);
  inw = λ p w. (geometry_word w.next, record (used w) { next = suc w.next });
  outb = λ p v w.
      (if p == 0x1f2
        then record (used w) { nsector = v }
        else if p == 0x3f6
        then record (used w) { nsector = 1 }
        else if p == 0x1f7
        then record (used w) { status = 0x48 }
        else used w);
  outw = λ p v w. used w;
  kmutex_lock = λ c w. record w { held = suc w.held };
  kmutex_unlock = λ c w. record w { held = w.held - 1 };
  ksema_down = λ c w. w;
}

abbrev idle : Drive
idle = record { held = 0; unguarded = 0; nsector = 0; status = 0x40; next = 0 }

abbrev blank : IdeDevice
blank = record {
  controller = 0;
  position = 0;
  present = false;
  atapi = false;
  lba = false;
  dma = false;
  model = λ i. 0;
  serial = λ i. 0;
  firmware = λ i. 0;
  cylinders = 0;
  heads = 0;
  sectors = 0;
  capacity = 0;
}

abbrev disk : IdeDevice
disk = record blank { present = true; cylinders = 10; heads = 4; sectors = 17; capacity = 680 }

disk-IsGeometry : IsGeometry disk
disk-IsGeometry = record {
  heads_pos = omega arith;
  heads_le = omega arith;
  sectors_pos = omega arith;
  sectors_le = omega arith;
  lba_le = λ e. cc;
  chs_le = λ e. omega arith;
}

addressed-block_address_example :
    (addressed disk (block_address disk 679) ≡ 679)
    × (false ≡ false
        → (0 < (block_address disk 679).sc)
          × ((block_address disk 679).sc ≤ 17)
          × ((block_address disk 679).hd < 4))
addressed-block_address_example = addressed-block_address disk 679 disk-IsGeometry (omega arith)

-- A string with a blank behind each character.
fix_ide_string-IsFixed_example :
    IsFixed 8
      (λ i. if i % 2 == 0 then 32 else 65)
      (fix_ide_string 9 (λ i. if i % 2 == 0 then 32 else 65))
fix_ide_string-IsFixed_example =
    fix_ide_string-IsFixed 9 (λ i. if i % 2 == 0 then 32 else 65) (omega arith)

wait_for_controller-left_example :
    ((k : ℕ)
      → k < 5
      → ((i : ℕ) → i < k → polled drive 0 0x80 idle i ≢ 0)
      → polled drive 0 0x80 idle k ≡ 0
      → (wait_for_controller drive 0 0x80 0 5 idle).0 ≡ (5 - k) % 256)
    × (((i : ℕ) → i < 5 → polled drive 0 0x80 idle i ≢ 0)
        → (wait_for_controller drive 0 0x80 0 5 idle).0 ≡ 0)
wait_for_controller-left_example = wait_for_controller-left drive 0 0x80 0 5 idle

abbrev ports : Hardware Drive
ports = record { inb = drive.inb; inw = drive.inw; outb = drive.outb; outw = drive.outw }

-- Both mutexes are free, and task 5 is current.
abbrev kernel : World Drive
kernel = record {
  hw = idle;
  mutex = λ c. record { value = 1; waiting = none };
  io_sema = λ c. record { value = 0; waiting = none };
  tasks = record {
    prev = λ t. t;
    next = λ t. t;
    task_list = none;
    state = λ t. runnable;
    current = 5;
  };
  strays = 0;
}

-- Task 6 asks for the mutex, and then the controller interrupts.
abbrev others : Call → World Drive → List (Event Drive)
others call w = switch 6 ∷ lock 0 ∷ interrupt 0 ∷ []

ide_read_blocks-IsFilled_example :
    (n : ℕ) × (mem' : Memory) × (w' : Drive) × (ide_read_blocks drive
        (λ i j. disk)
        0
        3
        2
        1000
        (λ i. 0)
        idle
      ≡ done (n, mem', w'))
    × (((n ≡ 0) × (mem' ≡ λ i. 0))
        ⊎ ((0 < n)
            × (n ≡ 2)
            × (v : Drive) × (w' ≡ drive.kmutex_unlock 0 (after_words drive (0x1f0 + 0) (n * 256) v))
            × IsFilled drive (0x1f0 + 0) (n * 256) 1000 (λ i. 0) v mem'))
ide_read_blocks-IsFilled_example =
    ide_read_blocks-IsFilled drive (λ i j. disk) 0 3 2 1000 (λ i. 0) idle (omega arith)

abbrev identified : IdeDevice
identified = (identify_ide_device drive blank (λ i. 0) idle).0

identified_geometry :
    (identified.present ≡ true)
    × (identified.heads ≡ 4)
    × (identified.sectors ≡ 17)
    × (identified.capacity ≡ 680)
unfolding identify_ide_device reset_controller wait_for_controller poll select_device read_signature
    judge_signature send_identify read_info fill_device
identified_geometry = (refl, refl, refl, refl)

-- The routine reports an expired timeout where the status has the value in the second poll.
abbrev slow : Machine ℕ
slow = record {
  inb = λ p w. (if w == 0 then 0x80 else 0, suc w);
  inw = λ p w. (0, w);
  outb = λ p v w. w;
  outw = λ p v w. w;
  kmutex_lock = λ c w. w;
  kmutex_unlock = λ c w. w;
  ksema_down = λ c w. w;
}

slow_expired : (wait_for_controller slow 0 0x80 0 257 0).0 ≡ 0
unfolding wait_for_controller poll
slow_expired = refl

identify_ide_device-addressed_example : addressed identified (block_address identified 679) ≡ 679
identify_ide_device-addressed_example =
    identify_ide_device-addressed drive blank (λ i. 0) idle 679 (λ port w. ground arith)
      identified_geometry.0 (omega (arith, identified_geometry))
      (omega (arith, identified_geometry)) (omega (arith, identified_geometry))
      (omega (arith, identified_geometry)) (omega (arith, identified_geometry))
