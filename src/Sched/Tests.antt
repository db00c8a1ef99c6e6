-- ===== src/Sched/Tests.antt =====
-- The theorems about tasks and the scheduler at a kernel with four tasks: the idle task, the init
-- task, which waits, its child, which runs, and a task that sleeps.
use simplix.Base.{
  ℕ, ◌-◌, ◌*◌, ◌≤◌, ◌≡◌, refl, inl, ◌⊎◌, true, false, ◌&&◌, some, [], ◌∷◌, arith, ◌==◌,
  if◌then◌else◌,
}
use simplix.PhysMem.{PhysMem, done, s_ok, page_size, free_physmem_block}
use simplix.PhysMem.Tests.{memory_of_8, blocks, blocks-IsLayout}
use simplix.PhysMem.Release.{free_physmem_block-release}
use simplix.Segment.{SegmentDescriptor}
use simplix.Ring.Chain.{has, Distinct}
use simplix.Sched.{
  Task, TaskState, Kernel, runnable, interruptible, uninterruptible, dead, is_runnable, schedule,
  alloc_pid, handle_timer_interrupt, no_pid, get_task,
}
use simplix.Sched.Life.{do_sleep, do_exit, do_waitpid_round, child}
use simplix.Sched.Elect.{schedule-longest}
use simplix.Sched.Refill.{schedule-refill, is_other, topped_up}
use simplix.Sched.Pid.{IsNext, alloc_pid-IsNext}
use simplix.Sched.Tick.{IsTimed, awoken, handle_timer_interrupt-wakes}
use simplix.Sched.Sleep.{do_sleep-sleeps}
use simplix.Sched.Exit.{IsReleased, do_exit-closes}
use simplix.Sched.Wait.{do_waitpid_round-do_exit}

abbrev no_segment : SegmentDescriptor
no_segment = record {
  limit_15_0 = 0;
  base_addr_15_0 = 0;
  base_addr_23_16 = 0;
  type_bits = 0;
  limit_19_16 = 0;
  u = 0;
  x = 0;
  d = 0;
  g = 0;
  base_addr_31_24 = 0;
}

abbrev a_task : ℕ → ℕ → ℕ → ℕ → TaskState → Task
a_task pid ppid timeslice timeout state = record {
  pid = pid;
  ppid = ppid;
  cputime = 0;
  timeout = timeout;
  timeslice = timeslice;
  state = state;
  exit_status = 0;
  kstack = 4 * page_size;
  ldt_cs = no_segment;
  ldt_ds = no_segment;
}

abbrev tasks : ℕ → Task
tasks i =
    if i == 10
    then a_task 0 no_pid 0 0 runnable
    else if i == 20
    then a_task 1 0 40 0 interruptible
    else if i == 30
    then a_task 2 1 70 0 runnable
    else a_task 3 2 90 1 uninterruptible

abbrev four : Kernel
four = record {
  task = tasks;
  task_list = 10 ∷ 20 ∷ 30 ∷ 40 ∷ [];
  current = 30;
  idle_task = 10;
  next_pid = 65535;
  ticks = 0;
  realtime = 0;
  realtime_ticks = 1000;
  sched_ticks = 1;
  physmem = memory_of_8;
}

-- The same tasks, whose time slices are used up.
abbrev spent : Kernel
spent = record four { task = λ i. record (tasks i) { timeslice = 0 } }

four-Distinct : Distinct four.task_list
four-Distinct = ground arith

schedule-longest_example :
    (s : ℕ) × (schedule four ≡ record four { current = s })
    × (has s four.task_list ≡ true)
    × (is_runnable (four.task s).state ≡ true)
    × ((u : ℕ)
        → has u four.task_list ≡ true
        → is_runnable (four.task u).state ≡ true
        → (four.task u).timeslice ≤ (four.task s).timeslice)
schedule-longest_example = schedule-longest four 30 refl refl (omega arith)

schedule-refill_example :
    ((t : ℕ)
      → (schedule spent).task t ≡ (
          if has t spent.task_list && is_other (spent.task t)
          then topped_up (spent.task t)
          else spent.task t))
    × (((schedule spent).current ≡ spent.idle_task)
          × ((t : ℕ)
              → has t spent.task_list ≡ true
              → is_runnable (spent.task t).state ≡ true
              → is_other (spent.task t) ≡ false)
        ⊎ (has (schedule spent).current spent.task_list ≡ true)
          × (is_runnable (spent.task (schedule spent).current).state ≡ true)
          × (is_other (spent.task (schedule spent).current) ≡ true))
schedule-refill_example = schedule-refill spent four-Distinct (λ t h r. refl) (λ t h. ground arith)

alloc_pid-IsNext_example :
    (p : ℕ) × (alloc_pid four ≡ some (p, record four { next_pid = p }))
    × IsNext four.task four.task_list 65535 p
unfolding get_task
alloc_pid-IsNext_example =
    alloc_pid-IsNext four 9 (omega arith) (omega arith, omega arith, λ t h. ground arith)

four-IsTimed : IsTimed four.task four.task_list
four-IsTimed t h p = ground arith

handle_timer_interrupt-wakes_example :
    (k' : Kernel) × (handle_timer_interrupt four ≡ done k')
    × (k'.task_list ≡ four.task_list)
    × ((t : ℕ)
        → has t four.task_list ≡ true
        → ((k'.task t).timeout ≡ (four.task t).timeout - 1)
          × ((k'.task t).state ≡ awoken (four.task t)))
    × IsTimed k'.task k'.task_list
handle_timer_interrupt-wakes_example = handle_timer_interrupt-wakes four four-Distinct four-IsTimed

do_sleep-sleeps_example :
    (k' : Kernel) × (do_sleep 250 four ≡ done k')
    × ((k'.task 30).timeout ≡ 250)
    × ((k'.task 30).state ≡ uninterruptible)
    × IsTimed k'.task k'.task_list
do_sleep-sleeps_example =
    do_sleep-sleeps four 250 four-Distinct four-IsTimed (omega arith) (omega arith) refl

-- The release of the stack of the running task.
released : (s : PhysMem) × (free_physmem_block (4 * page_size) memory_of_8 ≡ done (s_ok, s))
released =
    let (s, freed, linked, merged, kept) =
      free_physmem_block-release memory_of_8 4 blocks blocks-IsLayout (ground arith) refl refl
        (omega arith) in
    (s, freed)

four-IsReleased : IsReleased four released.0
four-IsReleased = (released.0, s_ok, released.1, inl (refl, refl))

do_exit-closes_example :
    (k' : Kernel) × (do_exit 7 four ≡ done k')
    × (k'.task_list ≡ four.task_list)
    × ((k'.task 30).state ≡ dead)
    × ((k'.task 30).exit_status ≡ 7)
    × ((k'.task 30).pid ≡ 2)
    × ((k'.task 30).ppid ≡ 1)
    × ((t : ℕ)
        → has t four.task_list ≡ true
        → (30 == t) ≡ false
        → ((k'.task t).pid ≡ (four.task t).pid)
          × ((k'.task t).ppid ≡ (if (four.task t).ppid == 2 then 1 else (four.task t).ppid)))
do_exit-closes_example =
    do_exit-closes 7 four released.0 four-Distinct refl refl refl four-IsReleased

only_child : (t : ℕ) → has t four.task_list ≡ true → (four.task t).pid ≡ 2 → t ≡ 30
only_child t h e = ground arith

do_waitpid_round-do_exit_example :
    (k' k'' : Kernel) × (do_exit 7 four ≡ done k')
    × (do_waitpid_round 2 (record k' { current = 20 }) ≡ child 2 7 k'')
do_waitpid_round-do_exit_example =
    do_waitpid_round-do_exit 7 four released.0 20 four-Distinct refl refl refl four-IsReleased refl
      refl refl refl only_child
