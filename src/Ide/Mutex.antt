-- ===== src/Ide/Mutex.antt =====
-- The mutex of a controller in drivers/ide.c: the ports are used only by a task that holds it, and
-- each path gives back what it takes.
use simplix.Base.{ℕ, ◌≡◌, List}
use simplix.Str.{Memory}
use simplix.Ide.{Machine, IdeDevice}
use simplix.Ide.Sync.{Hardware, World, Event, Call, kernel_machine}

-- A part of the code that keeps a property of the machine.
abbrev Kept : {W : Type 0} → (W → Type 0) → W → W → Type 0
Kept Inv w w' = Inv w → Inv w'

-- What keeps a property: the uses of the ports, and the wait for the interrupt.
record IsGuard {W : Type 0} (m : Machine W) (c : ℕ) (Inv : W → Type 0) : Type 0 where
  read_byte : (p : ℕ) (w : W) → Kept Inv w (m.inb p w).1
  read_word : (p : ℕ) (w : W) → Kept Inv w (m.inw p w).1
  write_byte : (p v : ℕ) (w : W) → Kept Inv w (m.outb p v w)
  write_word : (p v : ℕ) (w : W) → Kept Inv w (m.outw p v w)
  down : (w : W) → Kept Inv w (m.ksema_down c w)

module _ {W : Type 0} (m : Machine W) (device : IdeDevice) (Inv : W → Type 0)
    (g : IsGuard m device.controller Inv) where
  -- The mutex is released at the end, in a state with the property.
  abbrev Freed : W → ℕ × Memory × W → Type 0
  Freed w r = Inv w → (v : W) × (r.2 ≡ m.kmutex_unlock device.controller v) × Inv v

module _ {H : Type 0} (h : Hardware H) (meanwhile : Call → World H → List (Event H))
    (device : IdeDevice) (n : ℕ) where
  abbrev machine : Machine (World H)
  machine = kernel_machine meanwhile h device.controller
