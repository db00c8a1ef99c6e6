-- ===== src/Ide/Sync.antt =====
-- The machine of drivers/ide.c in the kernel: the mutex and the semaphore of each controller are
-- those of kernel/ksync.c, and the tasks and interrupts that run while a task sleeps are a sequence
-- of events. The ports are a parameter.
use simplix.Base.{ℕ, suc, ◌≡◌, Bool, true, not, ◌&&◌, List, [], ◌∷◌, ◌==◌, if◌then◌else◌, update}
use simplix.Ksync.{Ksema, Tasks, ksema_down, ksema_resume, ksema_up, kmutex_lock, kmutex_unlock}
use simplix.Ide.{Machine}

-- The ports of the controllers.
pub record Hardware (H : Type 0) : Type 0 where
  pub inb : ℕ → H → ℕ × H
  pub inw : ℕ → H → ℕ × H
  pub outb : ℕ → ℕ → H → H
  pub outw : ℕ → ℕ → H → H

-- `strays` is not a part of the code: it counts the uses of a port while a mutex is free.
pub record World (H : Type 0) : Type 0 where
  pub hw : H
  pub mutex : ℕ → Ksema
  pub io_sema : ℕ → Ksema
  pub tasks : Tasks
  pub strays : ℕ

-- What happens while a task sleeps. A call of another task that sleeps is two events.
pub data Event (H : Type 0) : Type 0 where
  -- The scheduler makes a task current.
  switch : ℕ → Event H
  -- The calls of kmutex_lock and kmutex_unlock for a controller, and the rest of the first after a
  -- sleep.
  lock : ℕ → Event H
  unlock : ℕ → Event H
  resume : ℕ → Event H
  -- The interrupt of a controller.
  interrupt : ℕ → Event H
  -- Something else changes the controllers.
  change : (H → H) → Event H

-- The calls in which a task sleeps.
pub data Call : Type 0 where
  in_kmutex_lock : Call
  in_ksema_down : Call

module _ {H : Type 0} where
  abbrev pub set_mutex : ℕ → Ksema → Tasks → World H → World H
  set_mutex c s t w = record w { mutex = update w.mutex c s; tasks = t }

  abbrev pub set_sema : ℕ → Ksema → Tasks → World H → World H
  set_sema c s t w = record w { io_sema = update w.io_sema c s; tasks = t }

  abbrev pub handle_ide_controller_interrupt : ℕ → World H → World H
  handle_ide_controller_interrupt c w =
      let r = ksema_up (w.io_sema c) w.tasks in set_sema c r.0 r.1 w

  abbrev pub unlock_mutex : ℕ → World H → World H
  unlock_mutex c w = let r = kmutex_unlock (w.mutex c) w.tasks in set_mutex c r.0 r.1 w

  unfoldable pub happen : Event H → World H → World H
  happen (switch t) w = record w { tasks = record (w.tasks) { current = t } }
  happen (lock c) w = let r = kmutex_lock (w.mutex c) w.tasks in set_mutex c r.1 r.2 w
  happen (unlock c) w = unlock_mutex c w
  happen (resume c) w = set_mutex c (ksema_resume (w.mutex c)) w.tasks w
  happen (interrupt c) w = handle_ide_controller_interrupt c w
  happen (change f) w = record w { hw = f w.hw }

  unfoldable pub happen_all : List (Event H) → World H → World H
  happen_all [] w = w
  happen_all (e ∷ es) w = happen_all es (happen e w)

  module _ (meanwhile : Call → World H → List (Event H)) where
    -- The call of schedule in ksema_down: it returns when the task is current again.
    abbrev pub sleep : Call → World H → World H
    sleep call w =
        let w1 : World H = happen_all (meanwhile call w) w in
        record w1 { tasks = record (w1.tasks) { current = w.tasks.current } }

    unfoldable pub lock_mutex : ℕ → World H → World H
    lock_mutex c w =
        let r = kmutex_lock (w.mutex c) w.tasks in
        let w1 : World H = set_mutex c r.1 r.2 w in
        let w2 : World H = sleep in_kmutex_lock w1 in
        if r.0 then set_mutex c (ksema_resume (w2.mutex c)) w2.tasks w2 else w1

    unfoldable pub down_sema : ℕ → World H → World H
    down_sema c w =
        let r = ksema_down (w.io_sema c) w.tasks in
        let w1 : World H = set_sema c r.1 r.2 w in
        let w2 : World H = sleep in_ksema_down w1 in
        if r.0 then set_sema c (ksema_resume (w2.io_sema c)) w2.tasks w2 else w1

    -- A use of a port while the mutex of controller `c` is free is noted.
    abbrev pub noted : ℕ → World H → World H
    noted c w = record w { strays = if (w.mutex c).value == 0 then w.strays else suc w.strays }

    abbrev pub kernel_machine : Hardware H → ℕ → Machine (World H)
    kernel_machine h c = record {
      inb = λ p w. ((h.inb p w.hw).0, record (noted c w) { hw = (h.inb p w.hw).1 });
      inw = λ p w. ((h.inw p w.hw).0, record (noted c w) { hw = (h.inw p w.hw).1 });
      outb = λ p v w. record (noted c w) { hw = h.outb p v w.hw };
      outw = λ p v w. record (noted c w) { hw = h.outw p v w.hw };
      kmutex_lock = lock_mutex;
      kmutex_unlock = unlock_mutex;
      ksema_down = down_sema;
    }

-- The event neither gives back the mutex of controller `c` nor takes it behind a sleep.
abbrev pub spares : {H : Type 0} → ℕ → Event H → Bool
spares c e = elim e [
  | switch t ↦ true
  | lock d ↦ true
  | unlock d ↦ not (d == c)
  | resume d ↦ not (d == c)
  | interrupt d ↦ true
  | change f ↦ true
]

unfoldable pub all_spare : {H : Type 0} → ℕ → List (Event H) → Bool
all_spare c [] = true
all_spare c (e ∷ es) = spares c e && all_spare c es

-- The mutex of controller `c` is taken, and `n` uses of a port were without it.
abbrev pub IsTaken : {H : Type 0} → ℕ → ℕ → World H → Type 0
IsTaken c n w = ((w.mutex c).value ≡ 0) × (w.strays ≡ n)
