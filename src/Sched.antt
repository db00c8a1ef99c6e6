-- ===== src/Sched.antt =====
-- Tasks and the scheduler: include/simplix/task.h, kernel/sched.c and the interrupt handler of
-- kernel/timer.c. The life cycle of kernel/task.c is in Sched/Life.
-- A task descriptor is named by its address; `task` is the memory that holds the descriptors. The
-- global task list is the list of the addresses, in the order of the ring that Ring models.
-- A pid is its 32-bit pattern, so -1 is 2 ^ 32 - 1. Hardware interrupts are disabled in all the
-- functions here, so each runs as one step; a call of task_switch makes another task current, and
-- returns to its caller when the caller is made current again.
pub mod Elect
pub mod Refill
pub mod Pid
pub mod Tick
pub mod Sleep
pub mod Life
pub mod Exit
pub mod Wait
pub mod Thread
mod Tests
use simplix.Base.{
  ℕ, zero, suc, ◌+◌, ◌-◌, ◌*◌, ◌/◌, ◌%◌, ◌^◌, Bool, true, false, not, ◌&&◌, ◌||◌, Option, none,
  some, List, [], ◌∷◌, leb, ltb, ◌==◌, if◌then◌else◌, update,
}
use simplix.PhysMem.{PhysMem, Ret, Run, done, panic, out_of_fuel, free_physmem_block}
use simplix.Segment.{SegmentDescriptor, seg_addr}

pub data TaskState : Type 0 where
  runnable interruptible uninterruptible dead : TaskState

abbrev pub is_runnable : TaskState → Bool
is_runnable runnable = true
is_runnable _ = false

abbrev pub is_interruptible : TaskState → Bool
is_interruptible interruptible = true
is_interruptible _ = false

abbrev pub is_uninterruptible : TaskState → Bool
is_uninterruptible uninterruptible = true
is_uninterruptible _ = false

abbrev pub is_dead : TaskState → Bool
is_dead dead = true
is_dead _ = false

pub record Task : Type 0 where
  pub pid : ℕ
  pub ppid : ℕ
  pub cputime : ℕ
  pub timeout : ℕ
  pub timeslice : ℕ
  pub state : TaskState
  pub exit_status : ℕ
  pub kstack : ℕ
  pub ldt_cs : SegmentDescriptor
  pub ldt_ds : SegmentDescriptor

pub record Kernel : Type 0 where
  pub task : ℕ → Task
  pub task_list : List ℕ
  pub current : ℕ
  pub idle_task : ℕ
  pub next_pid : ℕ
  pub ticks : ℕ
  pub realtime : ℕ
  pub realtime_ticks : ℕ
  pub sched_ticks : ℕ
  pub physmem : PhysMem

abbrev pub idle_task_pid : ℕ
idle_task_pid = 0

abbrev pub init_task_pid : ℕ
init_task_pid = 1

abbrev pub max_pid : ℕ
max_pid = 65535

abbrev pub no_pid : ℕ
no_pid = 4294967295

abbrev pub hz : ℕ
hz = 1000

abbrev pub ticks_per_schedule : ℕ
ticks_per_schedule = 10

abbrev pub initial_timeslice : ℕ
initial_timeslice = 100

abbrev pub timeslice_increment : ℕ
timeslice_increment = 30

abbrev pub max_timeslice : ℕ
max_timeslice = 150

-- The first loop of `schedule`, over the tasks that are left.
unfoldable pub find_longest : (ℕ → Task) → List ℕ → ℕ → Option ℕ → ℕ × Option ℕ
find_longest task [] n next = (n, next)
find_longest task (t ∷ ts) n next =
    let better = is_runnable (task t).state && ltb n (task t).timeslice in
    find_longest task ts (if better then (task t).timeslice else n)
      (if better then some t else next)

abbrev pub longer_timeslice : ℕ → ℕ
longer_timeslice n =
    let n' : ℕ = (n + timeslice_increment) % 2 ^ 32 in
    if ltb max_timeslice n' then max_timeslice else n'

-- The second loop of `schedule`.
unfoldable pub refill : List ℕ → (ℕ → Task) → Option ℕ → (ℕ → Task) × Option ℕ
refill [] task next = (task, next)
refill (t ∷ ts) task next =
    let other = not ((task t).pid == idle_task_pid) in
    refill ts
      (if other
        then update task t (record (task t) { timeslice = longer_timeslice (task t).timeslice })
        else task)
      (if other && is_runnable (task t).state then some t else next)

-- `if (!next) next = idle_task; if (next != current) task_switch(next);`
abbrev pub switch_to : Option ℕ → Kernel → Kernel
switch_to none k = record k { current = k.idle_task }
switch_to (some t) k = record k { current = t }

unfoldable pub schedule : Kernel → Kernel
unfolding find_longest refill
schedule k =
    let (n, next) = find_longest k.task k.task_list 0 none in
    if n == 0
    then (let (task, next') = refill k.task_list k.task next in
        switch_to next' (record k { task = task }))
    else switch_to next k

abbrev pub set_state : ℕ → TaskState → Kernel → Kernel
set_state t s k = record k { task = update k.task t (record (k.task t) { state = s }) }

unfoldable pub wake_up : ℕ → Kernel → Run Kernel
wake_up t k =
    if is_interruptible (k.task t).state || is_uninterruptible (k.task t).state
    then done (set_state t runnable k)
    else panic

unfoldable pub sleep_on : Kernel → Kernel
unfolding schedule
sleep_on k = schedule (set_state k.current uninterruptible k)

unfoldable pub interruptible_sleep_on : Kernel → Kernel
unfolding schedule
interruptible_sleep_on k = schedule (set_state k.current interruptible k)

-- The search of `get_task` and of `alloc_pid`.
unfoldable pub get_task : (ℕ → Task) → List ℕ → ℕ → Option ℕ
get_task task [] pid = none
get_task task (t ∷ ts) pid = if (task t).pid == pid then some t else get_task task ts pid

abbrev pub pid_taken : (ℕ → Task) → List ℕ → ℕ → Bool
pid_taken task ts pid = elim (get_task task ts pid) [ none ↦ false | some _ ↦ true ]

abbrev pub pid_after : ℕ → ℕ
pid_after p = if ltb p max_pid then p + 1 else init_task_pid

-- The loop of `alloc_pid` on fuel; `none` means that the fuel ran out.
unfoldable pub alloc_pid_loop : ℕ → (ℕ → Task) → List ℕ → ℕ → Option ℕ
alloc_pid_loop zero task ts next_pid = none
alloc_pid_loop (suc fuel) task ts next_pid =
    let p = pid_after next_pid in
    let rest = alloc_pid_loop fuel task ts p in if pid_taken task ts p then rest else some p

-- Enough rounds to try every pid.
unfoldable pub alloc_pid : Kernel → Option (ℕ × Kernel)
unfolding alloc_pid_loop get_task
alloc_pid k = elim (alloc_pid_loop max_pid k.task k.task_list k.next_pid) [
  | none ↦ none
  | some p ↦ some (p, record k { next_pid = p })
]

-- The scan of `handle_timer_interrupt` for expired timeouts.
unfoldable pub expire_timeouts : List ℕ → (ℕ → Task) → Run (ℕ → Task)
expire_timeouts [] task = done task
expire_timeouts (t ∷ ts) task =
    let r = task t in
    let left : ℕ = r.timeout - 1 in
    let rest = expire_timeouts ts (
      update task t
        (record r { timeout = left; state = if left == 0 then runnable else r.state })) in
    let skip = expire_timeouts ts task in
    if r.timeout == 0 then skip else if is_uninterruptible r.state then rest else panic

-- The handler before its scan: ticks, CPU time, time slice and real time.
unfoldable pub count_tick : Kernel → Kernel
count_tick k =
    let c = k.task k.current in
    let running = not (c.pid == idle_task_pid) && not (c.timeslice == 0) in
    let full = k.realtime_ticks == 1 in
    record k {
      ticks = (k.ticks + 1) % 2 ^ 32;
      task = update k.task k.current (record c {
        cputime = (c.cputime + 1) % 2 ^ 32;
        timeslice = if running then c.timeslice - 1 else c.timeslice;
      });
      realtime_ticks = if full then hz else k.realtime_ticks - 1;
      realtime = if full then (k.realtime + 1) % 2 ^ 32 else k.realtime;
    }

unfoldable pub handle_timer_interrupt : Kernel → Run Kernel
unfolding count_tick expire_timeouts schedule
handle_timer_interrupt k =
    let k1 = count_tick k in
    elim (expire_timeouts k1.task_list k1.task) [
      | panic ↦ panic
      | out_of_fuel ↦ out_of_fuel
      | done task ↦ done (
          if k1.sched_ticks == 1
          then schedule (record k1 { task = task; sched_ticks = ticks_per_schedule })
          else record k1 { task = task; sched_ticks = k1.sched_ticks - 1 })
    ]
