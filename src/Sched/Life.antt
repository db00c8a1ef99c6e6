-- ===== src/Sched/Life.antt =====
-- The life cycle of tasks, kernel/task.c: sleeping, exit, and waiting for a child.
use simplix.Base.{
  ℕ, ◌*◌, ◌/◌, ◌%◌, ◌^◌, Bool, false, ◌&&◌, ◌||◌, none, some, List, [], ◌∷◌, ◌==◌, if◌then◌else◌,
  update,
}
use simplix.PhysMem.{Run, done, panic, out_of_fuel, free_physmem_block}
use simplix.Segment.{seg_addr}
use simplix.Sched.{
  Task, Kernel, runnable, dead, is_interruptible, is_dead, idle_task_pid, init_task_pid, no_pid, hz,
  schedule, set_state, sleep_on, interruptible_sleep_on, get_task,
}

-- `do_sleep`: the product is computed in 32 bits before it is stored in 64.
unfoldable pub do_sleep : ℕ → Kernel → Run Kernel
unfolding sleep_on
do_sleep msec k =
    if msec == 0
    then done k
    else if (k.task k.current).pid == idle_task_pid
    then panic
    else done (
        sleep_on (record k {
          task =
              update k.task k.current
                (record (k.task k.current) { timeout = msec * hz % 2 ^ 32 / 1000 });
        }))

-- The loop of `do_exit` that gives the children of the task to its parent.
unfoldable pub reparent : ℕ → ℕ → List ℕ → (ℕ → Task) → ℕ → Task
reparent pid ppid [] task = task
reparent pid ppid (t ∷ ts) task =
    reparent pid ppid ts
      (if (task t).ppid == pid then update task t (record (task t) { ppid = ppid }) else task)

-- `free_physmem_block`, whose return value the callers ignore.
abbrev pub release_block : ℕ → Kernel → Run Kernel
release_block addr k = elim (free_physmem_block addr k.physmem) [
  | done r ↦ done (record k { physmem = r.1 })
  | panic ↦ panic
  | out_of_fuel ↦ out_of_fuel
]

infixl 5 ◌>>=◌
abbrev pub ◌>>=◌ : {A B : Type 0} → Run A → (A → Run B) → Run B
done a >>= f = f a
panic >>= f = panic
out_of_fuel >>= f = out_of_fuel

-- `do_exit` up to the release of the memory: the task is dead, its children have its parent.
unfoldable pub bury : ℕ → Kernel → Kernel
unfolding reparent
bury status k =
    let c = k.task k.current in
    let ppid : ℕ = if c.ppid == no_pid then init_task_pid else c.ppid in
    let task =
      update k.task k.current (record c { state = dead; exit_status = status; ppid = ppid }) in
    record k { task = reparent c.pid ppid k.task_list task }

-- The parent is awoken if it waits, and the CPU is given to another task.
unfoldable pub notify_parent : Kernel → Kernel
unfolding get_task
notify_parent k = elim (get_task k.task k.task_list (k.task k.current).ppid) [
  | none ↦ k
  | some p ↦ if is_interruptible (k.task p).state then set_state p runnable k else k
]

unfoldable pub do_exit : ℕ → Kernel → Run Kernel
unfolding bury notify_parent schedule
do_exit status k = if (k.task k.current).pid == idle_task_pid then panic else (do
  let k1 = bury status k
  k2 ← release_block (k1.task k1.current).kstack k1
  let cs = (k2.task k2.current).ldt_cs
  k3 ← if cs.type_bits == 0 then done k2 else release_block (seg_addr cs) k2
  done (schedule (notify_parent k3)))

-- What one round of `do_waitpid` over the children comes to.
pub data Scan : Type 0 where
  reap : ℕ → Scan
  wait no_child : Scan

-- The loop over the tasks: the first dead child that is waited for ends it.
unfoldable pub scan_children : (ℕ → Task) → List ℕ → ℕ → ℕ → Bool → Scan
scan_children task [] parent pid found = if found then wait else no_child
scan_children task (t ∷ ts) parent pid found =
    let r = task t in
    let mine = r.ppid == parent && (pid == no_pid || r.pid == pid) in
    let rest = scan_children task ts parent pid (found || mine) in
    if mine && is_dead r.state then reap t else rest

-- How one round of `do_waitpid` ends: with the pid and the exit status of a child, with -1, or
-- asleep, after which the caller repeats the round.
pub data Waited : Type 0 where
  child : ℕ → ℕ → Kernel → Waited
  nobody : Waited
  asleep : Kernel → Waited

abbrev pub without : ℕ → List ℕ → List ℕ
without t [] = []
without t (x ∷ xs) = if t == x then xs else x ∷ without t xs

-- The descriptor goes back to the allocator; its memory is not read again.
unfoldable pub do_waitpid_round : ℕ → Kernel → Waited
unfolding scan_children interruptible_sleep_on
do_waitpid_round pid k = elim (scan_children k.task k.task_list (k.task k.current).pid pid false) [
  | reap t ↦
      child (k.task t).pid (k.task t).exit_status (record k { task_list = without t k.task_list })
  | no_child ↦ nobody
  | wait ↦ asleep (interruptible_sleep_on k)
]
