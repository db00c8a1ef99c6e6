-- ===== src/Sched/Exit.antt =====
-- How a task ends: `do_exit` of kernel/task.c.
use simplix.Base.{
  ℕ, ◌≡◌, ◌≢◌, refl, ap, ◌∙◌, inl, inr, ◌⊎◌, true, false, List, [], ◌∷◌, arith, ◌==◌, if◌then◌else◌,
  update, Bool-cases, Option-cases,
}
use simplix.PhysMem.{PhysMem, Ret, Run, done, panic, out_of_fuel, free_physmem_block}
use simplix.Ring.Chain.{has, Distinct}
use simplix.Sched.{
  Task, Kernel, TaskState, runnable, interruptible, uninterruptible, dead, is_interruptible,
  idle_task_pid, init_task_pid, no_pid, get_task, schedule, set_state,
}
use simplix.Sched.Life.{release_block, ◌>>=◌, reparent, bury, notify_parent, do_exit}
use simplix.Segment.{seg_addr}
use simplix.Sched.Tick.{schedule-task, schedule-task_list}

-- The descriptor of a task after the children of `pid` are given to `ppid`.
abbrev pub adopted : ℕ → ℕ → Task → Task
adopted pid ppid r = if r.ppid == pid then record r { ppid = ppid } else r

module _ (pid ppid x : ℕ) (ts : List ℕ) (task : ℕ → Task) where
  abbrev adopt_one : ℕ → Task
  adopt_one = if (task x).ppid == pid then update task x (record (task x) { ppid = ppid }) else task

  adopt_one_self : adopt_one x ≡ adopted pid ppid (task x)
  adopt_one_self = elim (Bool-cases ((task x).ppid == pid)) [
    | inl e ↦ rw e (ground arith)
    | inr e ↦ rw e refl
  ]

  adopt_one_ne : (t : ℕ) → (t == x) ≡ false → adopt_one t ≡ task t
  adopt_one_ne t e = elim (Bool-cases ((task x).ppid == pid)) [
    | inl k ↦ rw k (ground arith)
    | inr k ↦ rw k refl
  ]

reparent_lem :
    (pid ppid : ℕ) (ts : List ℕ) (task : ℕ → Task) (t : ℕ)
    → Distinct ts
    → reparent pid ppid ts task t ≡ (if has t ts then adopted pid ppid (task t) else task t)
unfolding reparent
reparent_lem pid ppid [] task t d = refl
reparent_lem pid ppid (x ∷ ts) task t d = elim (Bool-cases (t == x)) [
  | inl e ↦
      let q : t ≡ x = ground arith in
      rw q (
        reparent_lem pid ppid ts (adopt_one pid ppid x ts task) x d.1
        ∙ ground (arith, adopt_one_self pid ppid x ts task))
  | inr e ↦
      reparent_lem pid ppid ts (adopt_one pid ppid x ts task) t d.1
      ∙ rw (adopt_one_ne pid ppid x ts task t e, e) refl
]

-- The parent that the children of the current task get.
abbrev pub heir : Kernel → ℕ
heir k = if (k.task k.current).ppid == no_pid then init_task_pid else (k.task k.current).ppid

abbrev dead_task : ℕ → Kernel → Task
dead_task status k = record (k.task k.current) { state = dead; exit_status = status; ppid = heir k }

bury_lem :
    (status : ℕ) (k : Kernel) (t : ℕ)
    → Distinct k.task_list
    → (bury status k).task t ≡ (
        let r : Task = update k.task k.current (dead_task status k) t in
        if has t k.task_list then adopted (k.task k.current).pid (heir k) r else r)
unfolding bury
bury_lem status k t d = reparent_lem (k.task k.current).pid (heir k) k.task_list _ t d

-- The parent is awoken, or nothing happens.
pub notify_parent_cases :
    (k : Kernel)
    → (notify_parent k ≡ k)
      ⊎ ((p : ℕ) × (is_interruptible (k.task p).state ≡ true)
          × (notify_parent k ≡ set_state p runnable k))
unfolding notify_parent
notify_parent_cases k = elim (Option-cases (get_task k.task k.task_list (k.task k.current).ppid)) [
  | inl e ↦ inl (rw (notify_parent, e) refl)
  | inr (p, e) ↦ elim (Bool-cases (is_interruptible (k.task p).state)) [
    | inl i ↦ inr (p, i, rw (notify_parent, e, i) refl)
    | inr i ↦ inl (rw (notify_parent, e, i) refl)
  ]
]

dead_only : (s : TaskState) → is_interruptible s ≡ true → s ≢ dead
dead_only runnable i = cc
dead_only interruptible i = λ e. cc
dead_only uninterruptible i = cc
dead_only dead i = cc

-- What a task descriptor keeps of another one, also if that one is of a dead task.
abbrev pub SameTask : Task → Task → Type 0
SameTask a b =
    (a.pid ≡ b.pid)
    × (a.ppid ≡ b.ppid)
    × (a.exit_status ≡ b.exit_status)
    × (b.state ≡ dead → a.state ≡ dead)

SameTask-trans : (a b c : Task) → SameTask a b → SameTask b c → SameTask a c
SameTask-trans a b c (e, f, g, h) (e', f', g', h') = (e ∙ e', f ∙ f', g ∙ g', λ is. h (h' is))

set_state_keeps :
    (p : ℕ) (k : Kernel) (t : ℕ)
    → is_interruptible (k.task p).state ≡ true
    → SameTask ((set_state p runnable k).task t) (k.task t)
set_state_keeps p k t i = elim (Bool-cases (p == t)) [
  | inl e ↦
      let q : p ≡ t = ground arith in
      rw e (rw q (refl, refl, refl, λ is. absurd (dead_only (k.task t).state (rw q at i) is)))
  | inr e ↦ rw e (refl, refl, refl, λ is. is)
]

notify_parent_keeps :
    (k : Kernel) (t : ℕ)
    → SameTask ((notify_parent k).task t) (k.task t) × ((notify_parent k).task_list ≡ k.task_list)
notify_parent_keeps k t = elim (notify_parent_cases k) [
  | inl e ↦ rw e ((refl, refl, refl, λ is. is), refl)
  | inr (p, i, e) ↦ rw e (set_state_keeps p k t i, refl)
]

schedule_keeps :
    (k : Kernel) (t : ℕ) → Distinct k.task_list → SameTask ((schedule k).task t) (k.task t)
schedule_keeps k t d = elim (schedule-task k t d) [
  | inl e ↦ rw e (refl, refl, refl, λ is. is)
  | inr e ↦ rw e (refl, refl, refl, λ is. is)
]

-- The segment of a user task goes back to the allocator; a kernel thread has none.
abbrev pub IsSegmentReleased : Task → PhysMem → PhysMem → Type 0
IsSegmentReleased r m s =
    ((r.ldt_cs.type_bits == 0) ≡ true) × (s ≡ m)
    ⊎ ((r.ldt_cs.type_bits == 0) ≡ false)
      × (e : Ret) × (free_physmem_block (seg_addr r.ldt_cs) m ≡ done (e, s))

-- The memory of the current task goes back to the allocator, which is then in the state `s`.
abbrev pub IsReleased : Kernel → PhysMem → Type 0
IsReleased k s =
    (m : PhysMem) × (e : Ret) × (free_physmem_block (k.task k.current).kstack k.physmem
      ≡ done (e, m))
    × IsSegmentReleased (k.task k.current) m s

release_block_done :
    (addr : ℕ) (k : Kernel) (m : PhysMem) (e : Ret)
    → free_physmem_block addr k.physmem ≡ done (e, m)
    → release_block addr k ≡ done (record k { physmem = m })
release_block_done addr k m e freed =
    ap
      (λ (r : Run (Ret × PhysMem)). elim r [
        | done (e', m') ↦ done (record k { physmem = m' })
        | panic ↦ panic
        | out_of_fuel ↦ out_of_fuel
      ])
      freed

abbrev close_segment : Kernel → Run Kernel
close_segment k =
    if (k.task k.current).ldt_cs.type_bits == 0
    then done k
    else release_block (seg_addr (k.task k.current).ldt_cs) k

close_segment_run :
    (k : Kernel) (s : PhysMem)
    → IsSegmentReleased (k.task k.current) k.physmem s
    → close_segment k ≡ done (record k { physmem = s })
close_segment_run k s (inl (z, same)) = rw (z, same) refl
close_segment_run k s (inr (z, e, freed)) =
    rw z (release_block_done (seg_addr (k.task k.current).ldt_cs) k s e freed)

-- The rest of `do_exit` once the task is buried.
abbrev close_task : Kernel → Run Kernel
close_task k = release_block (k.task k.current).kstack k >>= λ k2.
    close_segment k2 >>= λ k3. done (schedule (notify_parent k3))

close_task_run :
    (k : Kernel) (s : PhysMem)
    → IsReleased k s
    → close_task k ≡ done (schedule (notify_parent (record k { physmem = s })))
close_task_run k s (m, e, freed, segment) =
    ap
      (λ (r : Run Kernel).
        r >>= λ k2. close_segment k2 >>= λ k3. done (schedule (notify_parent k3)))
      (release_block_done (k.task k.current).kstack k m e freed)
    ∙ ap (λ (r : Run Kernel). r >>= λ k3. done (schedule (notify_parent k3)))
        (close_segment_run (record k { physmem = m }) s segment)

do_exit_run :
    (status : ℕ) (k : Kernel)
    → ((k.task k.current).pid == idle_task_pid) ≡ false
    → do_exit status k ≡ close_task (bury status k)
unfolding do_exit
do_exit_run status k i = rw i refl

bury_frame :
    (status : ℕ) (k : Kernel)
    → ((bury status k).current ≡ k.current)
      × ((bury status k).physmem ≡ k.physmem)
      × ((bury status k).task_list ≡ k.task_list)
unfolding bury
bury_frame status k = (refl, refl, refl)

adopted_lem :
    (pid ppid : ℕ) (r : Task)
    → ((adopted pid ppid r).pid ≡ r.pid)
      × ((adopted pid ppid r).ppid ≡ (if r.ppid == pid then ppid else r.ppid))
adopted_lem pid ppid r = elim (Bool-cases (r.ppid == pid)) [
  | inl e ↦ rw e (refl, refl)
  | inr e ↦ rw e (refl, refl)
]

bury_at :
    (status : ℕ) (k : Kernel) (t : ℕ)
    → Distinct k.task_list
    → has t k.task_list ≡ true
    → (bury status k).task t
      ≡ adopted (k.task k.current).pid (heir k) (update k.task k.current (dead_task status k) t)
bury_at status k t d h = bury_lem status k t d ∙ rw h refl

update_self : (f : ℕ → Task) (i : ℕ) (v : Task) → update f i v i ≡ v
update_self f i v = ground arith

update_ne : (f : ℕ → Task) (i j : ℕ) (v : Task) → (i == j) ≡ false → update f i v j ≡ f j
update_ne f i j v e = rw e refl

-- The descriptor of the task that ends.
bury_current :
    (status : ℕ) (k : Kernel)
    → Distinct k.task_list
    → has k.current k.task_list ≡ true
    → (heir k == (k.task k.current).pid) ≡ false
    → (bury status k).task k.current ≡ dead_task status k
bury_current status k d h new =
    bury_at status k k.current d h
    ∙ rw (update_self k.task k.current (dead_task status k), new) refl

bury_other :
    (status : ℕ) (k : Kernel) (t : ℕ)
    → Distinct k.task_list
    → has t k.task_list ≡ true
    → (k.current == t) ≡ false
    → (bury status k).task t ≡ adopted (k.task k.current).pid (heir k) (k.task t)
bury_other status k t d h e =
    bury_at status k t d h ∙ rw (update_ne k.task k.current t (dead_task status k) e) refl

IsReleased-bury :
    (status : ℕ) (k : Kernel) (s : PhysMem)
    → (bury status k).task k.current ≡ dead_task status k
    → IsReleased k s
    → IsReleased (bury status k) s
unfolding bury
IsReleased-bury status k s e r = rw e r

-- A task that is not the idle task, whose memory the allocator takes back and whose children get
-- another parent than itself, ends: `do_exit` returns, the task is dead with the given status and
-- is still on the list, which is unchanged, its children are children of its parent (of the init
-- task if it has none), and the other tasks keep their parents.
pub do_exit-closes :
    (status : ℕ) (k : Kernel) (s : PhysMem)
    → Distinct k.task_list
    → has k.current k.task_list ≡ true
    → ((k.task k.current).pid == idle_task_pid) ≡ false
    → (heir k == (k.task k.current).pid) ≡ false
    → IsReleased k s
    → (k' : Kernel) × (do_exit status k ≡ done k')
      × (k'.task_list ≡ k.task_list)
      × ((k'.task k.current).state ≡ dead)
      × ((k'.task k.current).exit_status ≡ status)
      × ((k'.task k.current).pid ≡ (k.task k.current).pid)
      × ((k'.task k.current).ppid ≡ heir k)
      × ((t : ℕ)
          → has t k.task_list ≡ true
          → (k.current == t) ≡ false
          → ((k'.task t).pid ≡ (k.task t).pid)
            × ((k'.task t).ppid
                ≡ (if (k.task t).ppid == (k.task k.current).pid then heir k else (k.task t).ppid)))
do_exit-closes status k s d h i new freed =
    let frame = bury_frame status k in
    let self = bury_current status k d h new in
    let k3 : Kernel = record (bury status k) { physmem = s } in
    let k4 = notify_parent k3 in
    let list : k4.task_list ≡ k.task_list = (notify_parent_keeps k3 0).1 ∙ frame.2 in
    let keeps : (t : ℕ) → SameTask ((schedule k4).task t) ((bury status k).task t) = λ t.
      SameTask-trans ((schedule k4).task t) (k4.task t) ((bury status k).task t)
        (schedule_keeps k4 t (rw list d)) (notify_parent_keeps k3 t).0 in
    let (pid, ppid, exited, kept_dead) = keeps k.current in
    (
      schedule k4,
      do_exit_run status k i
          ∙ close_task_run (bury status k) s (IsReleased-bury status k s self freed),
      schedule-task_list k4 ∙ list,
      kept_dead (ap (λ (r : Task). r.state) self),
      exited ∙ ap (λ (r : Task). r.exit_status) self,
      pid ∙ ap (λ (r : Task). r.pid) self,
      ppid ∙ ap (λ (r : Task). r.ppid) self,
      λ t on ne.
          let other = bury_other status k t d on ne in
          let is = adopted_lem (k.task k.current).pid (heir k) (k.task t) in
          (
            (keeps t).0 ∙ ap (λ (r : Task). r.pid) other ∙ is.0,
            (keeps t).1 ∙ ap (λ (r : Task). r.ppid) other ∙ is.1,
          ),
    )
