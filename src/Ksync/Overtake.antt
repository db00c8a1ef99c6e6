-- ===== src/Ksync/Overtake.antt =====
-- ksema_up, and what may happen between it and the task that it awakes.
use simplix.Base.{
  Option-cases, inl, inr, ℕ, ◌+◌, ◌-◌, ◌%◌, ◌^◌, ◌<◌, ◌≡◌, refl, false, none, some, List, ◌∷◌,
  arith, ◌==◌, update, ◌∙◌,
}
use simplix.Ring.{list_pop_head}
use simplix.Ring.Chain.{IsRing}
use simplix.Ring.Remove.{list_pop_head-IsRing}
use simplix.Sched.{runnable}
use simplix.Ksync.{Ksema, Tasks, ring, ksema_take, ksema_down, ksema_resume, ksema_up, with_links}

-- What ksema_up does where tasks wait, and where none does.
up-some :
    (s : Ksema) (t : Tasks) (w : ℕ)
    → (list_pop_head (ring s.waiting t)).0 ≡ some w
    → ksema_up s t ≡ (
      record {
        value = (s.value + 1) % 2 ^ 32;
        waiting = (list_pop_head (ring s.waiting t)).1.head;
      },
      record (with_links (list_pop_head (ring s.waiting t)).1 t) {
        state = update t.state w runnable;
      },
    )
unfolding ksema_up list_pop_head
up-some s t w e = rw e refl

up-none :
    (s : Ksema) (t : Tasks)
    → (list_pop_head (ring s.waiting t)).0 ≡ none
    → ksema_up s t ≡ (record s { value = (s.value + 1) % 2 ^ 32 }, t)
unfolding ksema_up list_pop_head
up-none s t e = rw e refl

pop_head : (s : Ksema) (t : Tasks) → (list_pop_head (ring s.waiting t)).0 ≡ s.waiting
unfolding list_pop_head
pop_head s t = elim (Option-cases s.waiting) [ inl e ↦ rw e refl | inr (w, e) ↦ rw e refl ]

takes : (s : Ksema) (t : Tasks) → (s.value == 0) ≡ false → ksema_down s t ≡ (false, ksema_take s, t)
unfolding ksema_down
takes s t e = rw e refl

-- If a task waits for a semaphore of value 0, ksema_up awakes it; if another task takes the unit
-- by ksema_down before that task runs, it does not sleep, and then the task that was awoken
-- decrements the value below 0: it wraps around to 2 ^ 32 - 1.
pub ksema_up-overtaken :
    (s : Ksema) (t : Tasks) (w other : ℕ)
    → s.value ≡ 0
    → s.waiting ≡ some w
    → let (s1, t1) = ksema_up s t in
      let (sleeps, s2, t2) = ksema_down s1 (record t1 { current = other }) in
      (t1.state w ≡ runnable) × (sleeps ≡ false) × ((ksema_resume s2).value ≡ 2 ^ 32 - 1)
unfolding ksema_take
ksema_up-overtaken s t w other z e =
    let one : (s.value + 1) % 2 ^ 32 ≡ 1 = omega arith in
    let up = up-some s t w (pop_head s t ∙ e) in
    let down =
      takes (ksema_up s t).0 (record (ksema_up s t).1 { current = other }) (rw up (rw one refl)) in
    rw down (rw up (ground arith, refl, omega arith))

-- Where tasks wait, in the order of the list, ksema_up makes the first one runnable and leaves the
-- others in the queue, in order, and adds one to the value.
pub ksema_up-fifo :
    (s : Ksema) (t : Tasks) (w : ℕ) (ws : List ℕ)
    → IsRing (ring s.waiting t) (w ∷ ws)
    → let (s1, t1) = ksema_up s t in
      IsRing (ring s1.waiting t1) ws
      × (s1.value ≡ (s.value + 1) % 2 ^ 32)
      × (t1.state w ≡ runnable)
      × ((i : ℕ) → (w == i) ≡ false → t1.state i ≡ t.state i)
ksema_up-fifo s t w ws r =
    let (first, rest) = list_pop_head-IsRing (ring s.waiting t) w ws r in
    rw (up-some s t w first) (rest, refl, ground arith, λ i n. ground arith)

-- A task that takes a unit that is free, and gives it back while no task waits, leaves the
-- semaphore and the tasks as they were.
pub ksema_down-up :
    (s : Ksema) (t : Tasks)
    → 0 < s.value
    → s.value < 2 ^ 32
    → s.waiting ≡ none
    → let (sleeps, s1, t1) = ksema_down s t in (sleeps ≡ false) × (ksema_up s1 t1 ≡ (s, t))
unfolding ksema_take
ksema_down-up s t p l e =
    let back : ((s.value + 2 ^ 32 - 1) % 2 ^ 32 + 1) % 2 ^ 32 ≡ s.value = omega arith in
    rw (takes s t (ground arith))
      (refl, up-none (ksema_take s) t (pop_head (ksema_take s) t ∙ e) ∙ rw back refl)
