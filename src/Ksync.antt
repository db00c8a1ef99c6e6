-- ===== src/Ksync.antt =====
-- The semaphores of kernel/ksync.c.
-- A wait queue links tasks by the same `prev` and `next` fields as the global task list, so both
-- lists are rings over one pair of arrays, with a head of their own. Hardware interrupts are
-- disabled in all the functions, so each runs as one step; ksema_down is two steps where it sleeps,
-- the part before its call of schedule and the part after it.
pub mod Queue
pub mod Overtake
mod Tests
use simplix.Base.{
  ℕ, ◌+◌, ◌-◌, ◌%◌, ◌^◌, Bool, true, false, Option, none, some, ◌==◌, if◌then◌else◌, update,
}
use simplix.Ring.{Ring, list_empty, list_append, list_pop_head}
use simplix.PhysMem.{Ret, s_ok, e_busy}
use simplix.Sched.{TaskState, runnable, uninterruptible}

-- A semaphore: its value and the head of its wait queue.
pub record Ksema : Type 0 where
  pub value : ℕ
  pub waiting : Option ℕ

-- What a semaphore shares with the scheduler.
pub record Tasks : Type 0 where
  pub prev : ℕ → ℕ
  pub next : ℕ → ℕ
  pub task_list : Option ℕ
  pub state : ℕ → TaskState
  pub current : ℕ

-- The list with a given head.
abbrev pub ring : Option ℕ → Tasks → Ring
ring h t = record { prev = t.prev; next = t.next; head = h }

-- The tasks after a macro has written the links of a list.
abbrev pub with_links : Ring → Tasks → Tasks
with_links r t = record t { prev = r.prev; next = r.next }

-- ksema_init does not write the head of the wait queue: it is what the heap has there.
unfoldable pub ksema_init : ℕ → Ksema → Ksema
ksema_init initval garbage = record garbage { value = initval }

-- `true` where the semaphore is given back to the heap.
unfoldable pub ksema_free : Ksema → Tasks → Ret × Bool
ksema_free s t = if list_empty (ring s.waiting t) then (s_ok, true) else (e_busy, false)

-- The end of ksema_down: it decrements the value, which is unsigned.
unfoldable pub ksema_take : Ksema → Ksema
ksema_take s = record s { value = (s.value + 2 ^ 32 - 1) % 2 ^ 32 }

-- The task before its call of schedule.
unfoldable pub ksema_wait : Ksema → Tasks → Ksema × Tasks
ksema_wait s t =
    let r = list_append t.current (ring s.waiting t) in
    (
      record s { waiting = r.head },
      record (with_links r t) { state = update t.state t.current uninterruptible },
    )

-- ksema_down up to its end or its call of schedule; `true` where it calls schedule.
unfoldable pub ksema_down : Ksema → Tasks → Bool × Ksema × Tasks
unfolding ksema_wait ksema_take
ksema_down s t =
    if s.value == 0
    then (true, (ksema_wait s t).0, (ksema_wait s t).1)
    else (false, ksema_take s, t)

-- The rest of ksema_down, when the task runs again.
abbrev pub ksema_resume : Ksema → Ksema
ksema_resume = ksema_take

unfoldable pub ksema_up : Ksema → Tasks → Ksema × Tasks
ksema_up s0 t =
    let s : Ksema = record s0 { value = (s0.value + 1) % 2 ^ 32 } in
    let (popped, r) = list_pop_head (ring s.waiting t) in
    elim popped [
      | none ↦ (s, t)
      | some w ↦ (
        record s { waiting = r.head },
        record (with_links r t) { state = update t.state w runnable },
      )
    ]

unfoldable pub kmutex_init : Ksema → Ksema
unfolding ksema_init
kmutex_init garbage = ksema_init 1 garbage

unfoldable pub kmutex_free : Ksema → Tasks → Ret × Bool
unfolding ksema_free
kmutex_free mut t = ksema_free mut t

unfoldable pub kmutex_lock : Ksema → Tasks → Bool × Ksema × Tasks
unfolding ksema_down
kmutex_lock mut t = ksema_down mut t

unfoldable pub kmutex_unlock : Ksema → Tasks → Ksema × Tasks
unfolding ksema_up
kmutex_unlock mut t = ksema_up mut t
