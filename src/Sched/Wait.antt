-- ===== src/Sched/Wait.antt =====
-- How a task waits for its children: `do_waitpid` of kernel/task.c.
use simplix.Base.{
  ℕ, ◌≡◌, refl, sym, ap, ◌∙◌, inl, inr, ◌⊎◌, Bool, true, false, ◌&&◌, ◌||◌, List, [], ◌∷◌, arith,
  ◌==◌, Bool-cases,
}
use simplix.PhysMem.{PhysMem, done}
use simplix.Ring.Chain.{has, Distinct}
use simplix.Sched.{
  Task, Kernel, TaskState, dead, runnable, interruptible, uninterruptible, is_dead, no_pid,
  interruptible_sleep_on, idle_task_pid,
}
use simplix.Sched.Life.{
  Scan, reap, wait, no_child, scan_children, Waited, child, nobody, asleep, without,
  do_waitpid_round, do_exit,
}
use simplix.Sched.Exit.{heir, IsReleased, do_exit-closes}

-- The children of the task `parent` that `pid` stands for: all of them if it is -1.
abbrev pub is_awaited : ℕ → ℕ → Task → Bool
is_awaited parent pid r = r.ppid == parent && (pid == no_pid || r.pid == pid)

module _ (task : ℕ → Task) (parent pid : ℕ) where
  abbrev pub IsAwaited : List ℕ → ℕ → Type 0
  IsAwaited ts t = (has t ts ≡ true) × (is_awaited parent pid (task t) ≡ true)

  -- What each end of the loop says of the tasks on the list.
  abbrev pub Scanned : List ℕ → Bool → Scan → Type 0
  Scanned ts found (reap t) = IsAwaited ts t × (is_dead (task t).state ≡ true)
  Scanned ts found no_child =
      (found ≡ false) × ((t : ℕ) → has t ts ≡ true → is_awaited parent pid (task t) ≡ false)
  Scanned ts found wait =
      ((found ≡ true) ⊎ ((t : ℕ) × IsAwaited ts t))
      × ((t : ℕ) → IsAwaited ts t → is_dead (task t).state ≡ false)

  scan_nil : (found : Bool) → Scanned [] found (scan_children task [] parent pid found)
  unfolding scan_children
  scan_nil true = (inl refl, λ t (h, m). cc)
  scan_nil false = (refl, λ t h. cc)

  scan_reap :
      (x : ℕ) (ts : List ℕ) (found : Bool)
      → (is_awaited parent pid (task x) && is_dead (task x).state) ≡ true
      → scan_children task (x ∷ ts) parent pid found ≡ reap x
  unfolding scan_children
  scan_reap x ts found e = rw e refl

  scan_next :
      (x : ℕ) (ts : List ℕ) (found : Bool)
      → (is_awaited parent pid (task x) && is_dead (task x).state) ≡ false
      → scan_children task (x ∷ ts) parent pid found
        ≡ scan_children task ts parent pid (found || is_awaited parent pid (task x))
  unfolding scan_children
  scan_next x ts found e = rw e refl

  at_head :
      (x t : ℕ) (p : Task → Bool) (b : Bool) → (t == x) ≡ true → p (task x) ≡ b → p (task t) ≡ b
  at_head x t p b e h = let q : t ≡ x = ground arith in rw q h

  found_cons :
      (x : ℕ) (ts : List ℕ) (found : Bool)
      → ((found || is_awaited parent pid (task x)) ≡ true) ⊎ ((t : ℕ) × IsAwaited ts t)
      → (found ≡ true) ⊎ ((t : ℕ) × IsAwaited (x ∷ ts) t)
  found_cons x ts found (inr (t, (h, m))) = inr (t, (ground arith, m))
  found_cons x ts true (inl e) = inl refl
  found_cons x ts false (inl e) = inr (x, (ground arith, e))

  scan_cons :
      (x : ℕ) (ts : List ℕ) (found : Bool) (s : Scan)
      → (is_awaited parent pid (task x) && is_dead (task x).state) ≡ false
      → Scanned ts (found || is_awaited parent pid (task x)) s
      → Scanned (x ∷ ts) found s
  scan_cons x ts found (reap t) e ((h, m), d) = ((ground arith, m), d)
  scan_cons x ts found no_child e (f, absent) = (
    ground arith,
    λ t h. elim (Bool-cases (t == x)) [
      | inl k ↦ at_head x t (is_awaited parent pid) false k (ground arith)
      | inr k ↦ absent t (ground arith)
    ],
  )
  scan_cons x ts found wait e (found', alive) = (
    found_cons x ts found found',
    λ t (h, m). elim (Bool-cases (t == x)) [
      | inl k ↦
          let m' : is_awaited parent pid (task x) ≡ true =
            at_head t x (is_awaited parent pid) true (ground arith) m in
          at_head x t (λ (r : Task). is_dead r.state) false k (ground arith)
      | inr k ↦ alive t (ground arith, m)
    ],
  )

  scan_lem :
      (ts : List ℕ) (found : Bool) → Scanned ts found (scan_children task ts parent pid found)
  scan_lem [] found = scan_nil found
  scan_lem (x ∷ ts) found =
      elim (Bool-cases (is_awaited parent pid (task x) && is_dead (task x).state)) [
        | inl e ↦ rw (scan_reap x ts found e) ((ground arith, ground arith), ground arith)
        | inr e ↦ rw (scan_next x ts found e) (
            scan_cons x ts found
              (scan_children task ts parent pid (found || is_awaited parent pid (task x))) e
              (scan_lem ts (found || is_awaited parent pid (task x))))
      ]

-- What a round of `do_waitpid` promises, for each of its ends.
abbrev pub Explained : Kernel → ℕ → Waited → Type 0
Explained k pid (child p status k') =
    (t : ℕ) × IsAwaited k.task (k.task k.current).pid pid k.task_list t
    × ((k.task t).state ≡ dead)
    × (p ≡ (k.task t).pid)
    × (status ≡ (k.task t).exit_status)
    × (k' ≡ record k { task_list = without t k.task_list })
Explained k pid nobody =
    (t : ℕ) → has t k.task_list ≡ true → is_awaited (k.task k.current).pid pid (k.task t) ≡ false
Explained k pid (asleep k') =
    ((t : ℕ) × IsAwaited k.task (k.task k.current).pid pid k.task_list t)
    × ((t : ℕ)
        → IsAwaited k.task (k.task k.current).pid pid k.task_list t
        → is_dead (k.task t).state ≡ false)
    × (k' ≡ interruptible_sleep_on k)

dead_of : (s : TaskState) → is_dead s ≡ true → s ≡ dead
dead_of dead e = refl
dead_of runnable e = cc
dead_of interruptible e = cc
dead_of uninterruptible e = cc

-- A round of `do_waitpid` comes to the pid and the exit status of a dead child that is waited for,
-- which leaves the list, to -1 if no task on the list is waited for, and to sleep if some is and none
-- of them is dead.
pub do_waitpid_round-Explained : (k : Kernel) (pid : ℕ) → Explained k pid (do_waitpid_round pid k)
unfolding do_waitpid_round
do_waitpid_round-Explained k pid =
    go (scan_children k.task k.task_list (k.task k.current).pid pid false)
      (scan_lem k.task (k.task k.current).pid pid k.task_list false)
  where
    go :
        (s : Scan)
        → Scanned k.task (k.task k.current).pid pid k.task_list false s
        → Explained k pid (elim s [
          | reap t ↦
              child
                (k.task t).pid
                (k.task t).exit_status
                (record k { task_list = without t k.task_list })
          | no_child ↦ nobody
          | wait ↦ asleep (interruptible_sleep_on k)
        ])
    go (reap t) (h, d) = (t, h, dead_of (k.task t).state d, refl, refl, refl)
    go no_child (f, absent) = absent
    go wait (inl f, alive) = absurd cc
    go wait (inr some_child, alive) = (some_child, alive, refl)

-- The task `c` is dead, is on the list, and is the only one that `pid` stands for.
abbrev IsZombie : Kernel → ℕ → ℕ → ℕ → Type 0
IsZombie k pid status c =
    (has c k.task_list ≡ true)
    × ((k.task c).state ≡ dead)
    × ((k.task c).ppid ≡ (k.task k.current).pid)
    × ((k.task c).pid ≡ pid)
    × ((k.task c).exit_status ≡ status)
    × ((pid == no_pid) ≡ false)
    × ((t : ℕ) → has t k.task_list ≡ true → (k.task t).pid ≡ pid → t ≡ c)

awaited_zombie :
    (k : Kernel) (pid status c : ℕ)
    → IsZombie k pid status c
    → is_awaited (k.task k.current).pid pid (k.task c) ≡ true
awaited_zombie k pid status c (h, d, pp, p, s, real, only) = ground arith

Explained-zombie :
    (k : Kernel) (pid status c : ℕ) (w : Waited)
    → IsZombie k pid status c
    → Explained k pid w
    → (k' : Kernel) × (w ≡ child pid status k')
Explained-zombie k pid status c (child p s k') z (t, (h, m), d, e, f, g) =
    let (on, gone, parent, same, exited, real, only) = z in
    let q : t ≡ c = only t h (ground arith) in
    let e' : p ≡ pid = e ∙ ap (λ i. (k.task i).pid) q ∙ same in
    let f' : s ≡ status = f ∙ ap (λ i. (k.task i).exit_status) q ∙ exited in (k', rw (e', f') refl)
Explained-zombie k pid status c nobody z absent =
    absurd (ground (arith, absent c z.0, awaited_zombie k pid status c z))
Explained-zombie k pid status c (asleep k') z (some_child, alive, g) =
    let alive' : is_dead dead ≡ false =
      rw z.1 at (alive c (z.0, awaited_zombie k pid status c z)) in
    absurd cc

-- If the current task ends as in `do_exit-closes` and its parent (or the init task, if it has none)
-- is another task on the list, a round of `do_waitpid` for its pid in the parent, whenever the
-- parent is made current by the next task switch, returns this pid and the exit status.
pub do_waitpid_round-do_exit :
    (status : ℕ) (k : Kernel) (s : PhysMem) (p : ℕ)
    → Distinct k.task_list
    → has k.current k.task_list ≡ true
    → ((k.task k.current).pid == idle_task_pid) ≡ false
    → (heir k == (k.task k.current).pid) ≡ false
    → IsReleased k s
    → has p k.task_list ≡ true
    → (k.current == p) ≡ false
    → (k.task p).pid ≡ heir k
    → ((k.task k.current).pid == no_pid) ≡ false
    → ((t : ℕ) → has t k.task_list ≡ true → (k.task t).pid ≡ (k.task k.current).pid → t ≡ k.current)
    → (k' k'' : Kernel) × (do_exit status k ≡ done k')
      × (do_waitpid_round (k.task k.current).pid (record k' { current = p })
          ≡ child (k.task k.current).pid status k'')
do_waitpid_round-do_exit status k s p d h i new freed on ne parent real only =
    let (k', ran, list, gone, exited, pid, ppid, others) =
      do_exit-closes status k s d h i new freed in
    let zombie : IsZombie (record k' { current = p }) (k.task k.current).pid status k.current = (
      rw list h,
      gone,
      ppid ∙ sym ((others p on ne).0 ∙ parent),
      pid,
      exited,
      real,
      λ t on' same. elim (Bool-cases (k.current == t)) [
        | inl e ↦ ground arith
        | inr e ↦
            let on : has t k.task_list ≡ true = rw list at on' in
            only t on (sym (others t on e).0 ∙ same)
      ],
    ) in
    let (k'', waited) =
      Explained-zombie (record k' { current = p }) (k.task k.current).pid status k.current
        (do_waitpid_round (k.task k.current).pid (record k' { current = p })) zombie
        (do_waitpid_round-Explained (record k' { current = p }) (k.task k.current).pid) in
    (k', k'', ran, waited)
