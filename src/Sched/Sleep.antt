-- ===== src/Sched/Sleep.antt =====
-- How a task puts itself to sleep: `do_sleep` of kernel/task.c.
use simplix.Base.{
  ℕ, ◌*◌, ◌/◌, ◌%◌, ◌^◌, ◌<◌, ◌≡◌, refl, ◌∙◌, inl, inr, true, false, arith, ◌==◌, update,
  Bool-cases,
}
use simplix.PhysMem.{done}
use simplix.Ring.Chain.{Distinct}
use simplix.Sched.{Kernel, schedule, uninterruptible, set_state, sleep_on, hz, idle_task_pid}
use simplix.Sched.Life.{do_sleep}
use simplix.Sched.Tick.{IsTimed, SameTimer, schedule-SameTimer, schedule-task_list}

-- The kernel that `do_sleep` gives to `schedule`.
abbrev pub put_to_sleep : ℕ → Kernel → Kernel
put_to_sleep timeout k =
    set_state k.current uninterruptible (record k {
      task = update k.task k.current (record (k.task k.current) { timeout = timeout });
    })

do_sleep_run :
    (k : Kernel) (msec timeout : ℕ)
    → 0 < msec
    → msec * hz % 2 ^ 32 / 1000 ≡ timeout
    → ((k.task k.current).pid == idle_task_pid) ≡ false
    → do_sleep msec k ≡ done (schedule (put_to_sleep timeout k))
unfolding do_sleep sleep_on
do_sleep_run k msec timeout p e i = let z : (msec == 0) ≡ false = ground arith in rw (z, i, e) refl

put_to_sleep_self :
    (timeout : ℕ) (k : Kernel)
    → (((put_to_sleep timeout k).task k.current).timeout ≡ timeout)
      × (((put_to_sleep timeout k).task k.current).state ≡ uninterruptible)
put_to_sleep_self timeout k =
    let e : (k.current == k.current) ≡ true = ground arith in rw e (refl, refl)

put_to_sleep_ne :
    (timeout : ℕ) (k : Kernel) (t : ℕ)
    → (k.current == t) ≡ false
    → (put_to_sleep timeout k).task t ≡ k.task t
put_to_sleep_ne timeout k t e = rw e refl

-- A task other than the idle task that sleeps for so many milliseconds that their product with HZ
-- fits 32 bits has exactly that many ticks left and is in an uninterruptible sleep when `schedule`
-- gives the CPU away; if only tasks in such a sleep had a timeout, this is so again.
pub do_sleep-sleeps :
    (k : Kernel) (msec : ℕ)
    → Distinct k.task_list
    → IsTimed k.task k.task_list
    → 0 < msec
    → msec * hz < 2 ^ 32
    → ((k.task k.current).pid == idle_task_pid) ≡ false
    → (k' : Kernel) × (do_sleep msec k ≡ done k')
      × ((k'.task k.current).timeout ≡ msec)
      × ((k'.task k.current).state ≡ uninterruptible)
      × IsTimed k'.task k'.task_list
do_sleep-sleeps k msec d timed p small i =
    let same : (t : ℕ)
        → SameTimer ((schedule (put_to_sleep msec k)).task t) ((put_to_sleep msec k).task t) =
      λ t. schedule-SameTimer (put_to_sleep msec k) t d in
    let (left, state) = put_to_sleep_self msec k in
    (
      schedule (put_to_sleep msec k),
      do_sleep_run k msec msec p (omega (arith, small)) i,
      (same k.current).0 ∙ left,
      (same k.current).1 ∙ state,
      λ t h q. rw (same t).1 (elim (Bool-cases (k.current == t)) [
        | inl e ↦ let u : k.current ≡ t = ground arith in rw (← u) (rw state refl)
        | inr e ↦
            let ne = put_to_sleep_ne msec k t e in
            rw ne (
              timed t (rw (schedule-task_list (put_to_sleep msec k)) at h)
                (rw ne at (rw (same t).0 at q)))
      ]),
    )
