-- ===== src/Sched/Tick.antt =====
-- The interrupt handler of kernel/timer.c and the sleeping tasks that it wakes.
use simplix.Base.{
  ℕ, ◌-◌, ◌<◌, ◌≡◌, refl, ap, ◌∙◌, inl, inr, ◌⊎◌, true, false, ◌&&◌, Option, none, some, List, [],
  ◌∷◌, arith, ◌==◌, if◌then◌else◌, update, Bool-cases,
}
use simplix.PhysMem.{done}
use simplix.Ring.Chain.{has, Distinct}
use simplix.Sched.{
  Task, Kernel, TaskState, runnable, is_uninterruptible, find_longest, refill, schedule, switch_to,
  expire_timeouts, count_tick, handle_timer_interrupt, ticks_per_schedule,
}
use simplix.Sched.Refill.{refill_lem, is_other, refilled, switch_to-task}

-- The descriptor of a task after one tick of its timeout.
abbrev pub ticked : Task → Task
ticked r = if r.timeout == 0 then r else record r {
  timeout = r.timeout - 1;
  state = if r.timeout - 1 == 0 then runnable else r.state;
}

-- Only tasks in an uninterruptible sleep have a timeout.
abbrev pub IsTimed : (ℕ → Task) → List ℕ → Type 0
IsTimed task ts =
    (t : ℕ) → has t ts ≡ true → 0 < (task t).timeout → is_uninterruptible (task t).state ≡ true

module _ (x : ℕ) (ts : List ℕ) (task : ℕ → Task) where
  expire_skip :
      ((task x).timeout == 0) ≡ true → expire_timeouts (x ∷ ts) task ≡ expire_timeouts ts task
  unfolding expire_timeouts
  expire_skip e = rw e

  abbrev tick_one : ℕ → Task
  tick_one = update task x (ticked (task x))

  expire_step :
      ((task x).timeout == 0) ≡ false
      → is_uninterruptible (task x).state ≡ true
      → expire_timeouts (x ∷ ts) task ≡ expire_timeouts ts tick_one
  unfolding expire_timeouts
  expire_step e u = rw (e, u) refl

  tick_one_self : tick_one x ≡ ticked (task x)
  tick_one_self = ground arith

  tick_one_ne : (t : ℕ) → (t == x) ≡ false → tick_one t ≡ task t
  tick_one_ne t e = ground arith

expire_nil : (task : ℕ → Task) → expire_timeouts [] task ≡ done task
unfolding expire_timeouts
expire_nil task = refl

ne_of : (x t : ℕ) (ts : List ℕ) → has x ts ≡ false → has t ts ≡ true → (t == x) ≡ false
ne_of x t ts a b = elim (Bool-cases (t == x)) [
  | inl e ↦ let q : t ≡ x = ground arith in let b' : has x ts ≡ true = rw q at b in cc
  | inr e ↦ e
]

expire_timeouts_lem :
    (ts : List ℕ) (task : ℕ → Task)
    → Distinct ts
    → IsTimed task ts
    → (task' : ℕ → Task) × (expire_timeouts ts task ≡ done task')
      × ((t : ℕ) → task' t ≡ (if has t ts then ticked (task t) else task t))
expire_timeouts_lem [] task d timed = (task, expire_nil task, λ t. refl)
expire_timeouts_lem (x ∷ ts) task d timed = elim (Bool-cases ((task x).timeout == 0)) [
  | inl e ↦
      let (task', ran, is) = expire_timeouts_lem ts task d.1 (λ t h p. timed t (ground arith) p) in
      (
        task',
        rw (expire_skip x ts task e) ran,
        λ t. is t ∙ elim (Bool-cases (t == x)) [
          | inl k ↦ let q : t ≡ x = ground arith in rw q (ground arith)
          | inr k ↦ rw k refl
        ],
      )
  | inr e ↦
      let (task', ran, is) = expire_timeouts_lem ts (tick_one x ts task) d.1 (λ t h p.
        let k = tick_one_ne x ts task t (ne_of x t ts d.0 h) in
        rw k (timed t (ground arith) (rw k at p))) in
      (
        task',
        rw (expire_step x ts task e (timed x (ground arith) (ground arith))) ran,
        λ t. is t ∙ elim (Bool-cases (t == x)) [
          | inl k ↦ let q : t ≡ x = ground arith in rw q (ground (arith, tick_one_self x ts task))
          | inr k ↦ rw (tick_one_ne x ts task t k, k) refl
        ],
      )
]

abbrev elected : Kernel → Option ℕ
elected k = (find_longest k.task k.task_list 0 none).1

-- `schedule` writes nothing in a descriptor but the time slice.
pub schedule-task :
    (k : Kernel) (t : ℕ)
    → Distinct k.task_list
    → ((schedule k).task t ≡ k.task t) ⊎ ((schedule k).task t ≡ refilled (k.task t))
unfolding schedule
schedule-task k t d = elim (Bool-cases ((find_longest k.task k.task_list 0 none).0 == 0)) [
  | inl e ↦
      let is =
        ap (λ (f : ℕ → Task). f t) (switch_to-task (refill k.task_list k.task (elected k)).1 _)
        ∙ refill_lem k.task_list k.task (elected k) t d in
      rw e (elim (Bool-cases (has t k.task_list && is_other (k.task t))) [
        | inl o ↦ inr (is ∙ rw o refl)
        | inr o ↦ inl (is ∙ rw o refl)
      ])
  | inr e ↦ rw e (inl (ap (λ (f : ℕ → Task). f t) (switch_to-task (elected k) k)))
]

switch_to-task_list : (o : Option ℕ) (k : Kernel) → (switch_to o k).task_list ≡ k.task_list
switch_to-task_list none k = refl
switch_to-task_list (some t) k = refl

pub schedule-task_list : (k : Kernel) → (schedule k).task_list ≡ k.task_list
unfolding schedule
schedule-task_list k = elim (Bool-cases ((find_longest k.task k.task_list 0 none).0 == 0)) [
  | inl e ↦ rw e (switch_to-task_list (refill k.task_list k.task (elected k)).1 _)
  | inr e ↦ rw e (switch_to-task_list (elected k) k)
]

-- What a descriptor keeps of another one: the timeout and the state.
abbrev pub SameTimer : Task → Task → Type 0
SameTimer a b = (a.timeout ≡ b.timeout) × (a.state ≡ b.state)

pub schedule-SameTimer :
    (k : Kernel) (t : ℕ) → Distinct k.task_list → SameTimer ((schedule k).task t) (k.task t)
schedule-SameTimer k t d = elim (schedule-task k t d) [
  | inl e ↦ (ap (λ (r : Task). r.timeout) e, ap (λ (r : Task). r.state) e)
  | inr e ↦ (ap (λ (r : Task). r.timeout) e, ap (λ (r : Task). r.state) e)
]

count_tick-SameTimer : (k : Kernel) (t : ℕ) → SameTimer ((count_tick k).task t) (k.task t)
unfolding count_tick
count_tick-SameTimer k t = elim (Bool-cases (k.current == t)) [
  | inl e ↦ let q : k.current ≡ t = ground arith in rw e (rw q (refl, refl))
  | inr e ↦ rw e (refl, refl)
]

count_tick-task_list : (k : Kernel) → (count_tick k).task_list ≡ k.task_list
unfolding count_tick
count_tick-task_list k = refl

ticked_timeout : (r : Task) → (ticked r).timeout ≡ r.timeout - 1
ticked_timeout r = elim (Bool-cases (r.timeout == 0)) [
  | inl z ↦ rw z (ground arith)
  | inr z ↦ rw z refl
]

abbrev pub awoken : Task → TaskState
awoken r = if r.timeout == 1 then runnable else r.state

ticked_state : (r : Task) → (ticked r).state ≡ awoken r
ticked_state r = elim (Bool-cases (r.timeout == 0)) [
  | inl z ↦ rw z (ground arith)
  | inr z ↦ rw z (ground arith)
]

count_tick-sched_ticks : (k : Kernel) → (count_tick k).sched_ticks ≡ k.sched_ticks
unfolding count_tick
count_tick-sched_ticks k = refl

-- What is left of the handler after the scan.
abbrev after_scan : Kernel → (ℕ → Task) → Kernel
after_scan k task =
    if k.sched_ticks == 1
    then schedule (record k { task = task; sched_ticks = ticks_per_schedule })
    else record k { task = task; sched_ticks = k.sched_ticks - 1 }

after_scan-SameTimer :
    (k : Kernel) (task : ℕ → Task) (t : ℕ)
    → Distinct k.task_list
    → SameTimer ((after_scan k task).task t) (task t)
after_scan-SameTimer k task t d = elim (Bool-cases (k.sched_ticks == 1)) [
  | inl e ↦ rw e (schedule-SameTimer _ t d)
  | inr e ↦ rw e (refl, refl)
]

after_scan-task_list : (k : Kernel) (task : ℕ → Task) → (after_scan k task).task_list ≡ k.task_list
after_scan-task_list k task = elim (Bool-cases (k.sched_ticks == 1)) [
  | inl e ↦ rw e (schedule-task_list _)
  | inr e ↦ rw e refl
]

handle_done :
    (k : Kernel) (task : ℕ → Task)
    → expire_timeouts (count_tick k).task_list (count_tick k).task ≡ done task
    → handle_timer_interrupt k ≡ done (after_scan (count_tick k) task)
unfolding handle_timer_interrupt
handle_done k task e = rw (handle_timer_interrupt, e) refl

awoken_same : (a b : Task) → SameTimer a b → awoken a ≡ awoken b
awoken_same a b (e, f) = rw (e, f) refl

awoken_kept : (r : Task) → 0 < r.timeout - 1 → awoken r ≡ r.state
awoken_kept r p = ground arith

-- If only tasks in an uninterruptible sleep have a timeout, the assertion of the handler holds and
-- the handler returns. It takes one tick off the timeout of each task on the list, makes those
-- runnable whose timeout ends, leaves the state of the others and the list itself, and after it
-- again only tasks in an uninterruptible sleep have a timeout.
pub handle_timer_interrupt-wakes :
    (k : Kernel)
    → Distinct k.task_list
    → IsTimed k.task k.task_list
    → (k' : Kernel) × (handle_timer_interrupt k ≡ done k')
      × (k'.task_list ≡ k.task_list)
      × ((t : ℕ)
          → has t k.task_list ≡ true
          → ((k'.task t).timeout ≡ (k.task t).timeout - 1)
            × ((k'.task t).state ≡ awoken (k.task t)))
      × IsTimed k'.task k'.task_list
handle_timer_interrupt-wakes k d timed =
    let same = count_tick-SameTimer k in
    let list = count_tick-task_list k in
    let d1 : Distinct (count_tick k).task_list = rw list d in
    let timed1 : IsTimed (count_tick k).task (count_tick k).task_list =
      rw list (λ t h p. rw (same t).1 (timed t h (rw (same t).0 at p))) in
    let (task, ran, is) =
      expire_timeouts_lem (count_tick k).task_list (count_tick k).task d1 timed1 in
    let scan : (t : ℕ) → SameTimer ((after_scan (count_tick k) task).task t) (task t) =
      λ t. after_scan-SameTimer (count_tick k) task t d1 in
    let tick : (t : ℕ) → has t k.task_list ≡ true → task t ≡ ticked ((count_tick k).task t) =
      λ t h. is t ∙ rw (list, h) refl in
    let timer : (t : ℕ)
        → has t k.task_list ≡ true
        → (((after_scan (count_tick k) task).task t).timeout ≡ (k.task t).timeout - 1)
          × (((after_scan (count_tick k) task).task t).state ≡ awoken (k.task t)) =
      λ t h. (
        (scan t).0
            ∙ ap (λ (r : Task). r.timeout) (tick t h)
            ∙ ticked_timeout ((count_tick k).task t)
            ∙ ap (λ n. n - 1) (same t).0,
        (scan t).1
            ∙ ap (λ (r : Task). r.state) (tick t h)
            ∙ ticked_state ((count_tick k).task t)
            ∙ awoken_same ((count_tick k).task t) (k.task t) (same t),
      ) in
    let kept = after_scan-task_list (count_tick k) task ∙ list in
    (
      after_scan (count_tick k) task,
      handle_done k task ran,
      kept,
      timer,
      λ t h p.
          let h' : has t k.task_list ≡ true = rw kept at h in
          let p' : 0 < (k.task t).timeout - 1 = rw (timer t h').0 at p in
          rw (timer t h').1 (rw (awoken_kept (k.task t) p') (timed t h' (omega (arith, p')))),
    )
