-- ===== src/Sched/Refill.antt =====
-- The second loop of `schedule`: the time slices are refilled when no runnable task has time left.
use simplix.Base.{
  ℕ, ◌+◌, ◌≤◌, ◌≡◌, refl, inl, inr, ◌⊎◌, Bool, true, false, not, ◌&&◌, Option, none, some, List, [],
  ◌∷◌, arith, ltb, ◌==◌, if◌then◌else◌, update, Bool-cases, ap, ◌∙◌,
}
use simplix.Ring.Chain.{has, Distinct}
use simplix.Sched.{
  Task, Kernel, is_runnable, idle_task_pid, find_longest, refill, schedule, longer_timeslice,
  switch_to,
}

abbrev pub is_other : Task → Bool
is_other t = not (t.pid == idle_task_pid)

-- The descriptor of a task after the time slices are refilled.
abbrev pub refilled : Task → Task
refilled t = record t { timeslice = longer_timeslice t.timeslice }

module _ (x : ℕ) (ts : List ℕ) (task : ℕ → Task) (next : Option ℕ) where
  abbrev refill_one : ℕ → Task
  refill_one = if is_other (task x) then update task x (refilled (task x)) else task

  abbrev note_one : Option ℕ
  note_one = if is_other (task x) && is_runnable (task x).state then some x else next

  one_ne : (t : ℕ) → (t == x) ≡ false → refill_one t ≡ task t
  one_ne t e = elim (Bool-cases (is_other (task x))) [ inl k ↦ rw k (ground arith) | inr k ↦ rw k ]

  one_self : refill_one x ≡ (if is_other (task x) then refilled (task x) else task x)
  one_self = elim (Bool-cases (is_other (task x))) [ inl k ↦ rw k (ground arith) | inr k ↦ rw k ]

  one_kept : (t : ℕ) → ((refill_one t).state ≡ (task t).state) × ((refill_one t).pid ≡ (task t).pid)
  one_kept t = elim (Bool-cases (t == x)) [
    | inl e ↦
        let q : t ≡ x = ground arith in
        rw (q, one_self)
          (elim (Bool-cases (is_other (task x))) [
            | inl k ↦ rw k (refl, refl)
            | inr k ↦ rw k (refl, refl)
          ])
    | inr e ↦ rw (one_ne t e) (refl, refl)
  ]

  note_true : (is_other (task x) && is_runnable (task x).state) ≡ true → note_one ≡ some x
  note_true e = rw e

  note_false : (is_other (task x) && is_runnable (task x).state) ≡ false → note_one ≡ next
  note_false e = rw e

  refill_cons : refill (x ∷ ts) task next ≡ refill ts refill_one note_one
  unfolding refill
  refill_cons = refl

refill_nil : (task : ℕ → Task) (next : Option ℕ) → refill [] task next ≡ (task, next)
unfolding refill
refill_nil task next = refl

-- Each task on the list but the idle task is refilled once, and no other descriptor is written.
pub refill_lem :
    (ts : List ℕ) (task : ℕ → Task) (next : Option ℕ) (t : ℕ)
    → Distinct ts
    → (refill ts task next).0 t
      ≡ (if has t ts && is_other (task t) then refilled (task t) else task t)
unfolding refill
refill_lem [] task next t d = refl
refill_lem (x ∷ ts) task next t d = elim (Bool-cases (t == x)) [
  | inl e ↦
      let q : t ≡ x = ground arith in
      rw q (
        refill_lem ts (refill_one x ts task next) (note_one x ts task next) x d.1
        ∙ ground (arith, one_self x ts task next))
  | inr e ↦
      refill_lem ts (refill_one x ts task next) (note_one x ts task next) t d.1
      ∙ rw (one_ne x ts task next t e) (ground arith)
]

-- What the loop ends with: the last runnable task that is not idle, if there is one.
abbrev pub Noted : (ℕ → Task) → List ℕ → Option ℕ → Option ℕ → Type 0
Noted task ts next r =
    ((r ≡ next)
      × ((t : ℕ) → has t ts ≡ true → is_runnable (task t).state ≡ true → is_other (task t) ≡ false))
    ⊎ ((t : ℕ) × (r ≡ some t)
        × (has t ts ≡ true)
        × (is_runnable (task t).state ≡ true)
        × (is_other (task t) ≡ true))

refill-Noted :
    (ts : List ℕ) (task : ℕ → Task) (next : Option ℕ) → Noted task ts next (refill ts task next).1
refill-Noted [] task next =
    inl (ap (λ (p : (ℕ → Task) × Option ℕ). p.1) (refill_nil task next), λ t h. cc)
refill-Noted (x ∷ ts) task next =
    rw (refill_cons x ts task next)
      (elim (refill-Noted ts (refill_one x ts task next) (note_one x ts task next)) [
        | inl (same, none_left) ↦
            elim (Bool-cases (is_other (task x) && is_runnable (task x).state)) [
              | inl e ↦
                  inr
                    (x, same ∙ note_true x ts task next e, ground arith, ground arith, ground arith)
              | inr e ↦ inl (
                same ∙ note_false x ts task next e,
                λ t h r. elim (Bool-cases (t == x)) [
                  | inl k ↦
                      let q : t ≡ x = ground arith in
                      let r' : is_runnable (task x).state ≡ true = rw q at r in rw q (ground arith)
                  | inr k ↦ ground (arith, one_kept x ts task next t, none_left t)
                ],
              )
            ]
        | inr (t, named, on, run, other) ↦
            let kept = one_kept x ts task next t in
            inr (t, named, ground arith, rw (← kept.0) run, rw (← kept.1) other)
      ])

find_longest_spent :
    (task : ℕ → Task) (ts : List ℕ) (next : Option ℕ)
    → ((t : ℕ) → has t ts ≡ true → is_runnable (task t).state ≡ true → (task t).timeslice ≡ 0)
    → find_longest task ts 0 next ≡ (0, next)
unfolding find_longest
find_longest_spent task [] next spent = refl
find_longest_spent task (x ∷ ts) next spent =
    let skip : (is_runnable (task x).state && ltb 0 (task x).timeslice) ≡ false =
      ground (arith, spent x) in
    rw skip (find_longest_spent task ts next (λ t h r. spent t (ground arith) r))

abbrev after_refill : Kernel → Kernel
after_refill k =
    switch_to (refill k.task_list k.task none).1
      (record k { task = (refill k.task_list k.task none).0 })

schedule_spent :
    (k : Kernel)
    → ((t : ℕ)
        → has t k.task_list ≡ true
        → is_runnable (k.task t).state ≡ true
        → (k.task t).timeslice ≡ 0)
    → schedule k ≡ after_refill k
unfolding schedule
schedule_spent k spent = rw (find_longest_spent k.task k.task_list none spent)

pub switch_to-task : (o : Option ℕ) (k : Kernel) → (switch_to o k).task ≡ k.task
switch_to-task none k = refl
switch_to-task (some t) k = refl

refill_task :
    (k : Kernel) (t : ℕ)
    → Distinct k.task_list
    → (after_refill k).task t
      ≡ (if has t k.task_list && is_other (k.task t) then refilled (k.task t) else k.task t)
refill_task k t d =
    ap (λ (f : ℕ → Task). f t) (switch_to-task (refill k.task_list k.task none).1 _)
    ∙ refill_lem k.task_list k.task none t d

refill_current_none :
    (k : Kernel)
    → (refill k.task_list k.task none).1 ≡ none
    → (after_refill k).current ≡ k.idle_task
refill_current_none k e = rw e

refill_current_some :
    (k : Kernel) (t : ℕ)
    → (refill k.task_list k.task none).1 ≡ some t
    → (after_refill k).current ≡ t
refill_current_some k t e = rw e

-- A task with 30 more in its time slice, of which there are 150 at most.
abbrev pub topped_up : Task → Task
topped_up t = record t { timeslice = if ltb 120 t.timeslice then 150 else t.timeslice + 30 }

refilled-topped_up : (t : Task) → t.timeslice ≤ 150 → refilled t ≡ topped_up t
refilled-topped_up t small =
    let same : longer_timeslice t.timeslice
        ≡ (if ltb 120 t.timeslice then 150 else t.timeslice + 30) =
      ground arith in
    ap (λ (n : ℕ). record t { timeslice = n }) same

refilled_listed :
    (k : Kernel) (t : ℕ)
    → ((t : ℕ) → has t k.task_list ≡ true → (k.task t).timeslice ≤ 150)
    → (if has t k.task_list && is_other (k.task t) then refilled (k.task t) else k.task t)
      ≡ (if has t k.task_list && is_other (k.task t) then topped_up (k.task t) else k.task t)
refilled_listed k t small = elim (Bool-cases (has t k.task_list)) [
  | inl on ↦ rw on (elim (Bool-cases (is_other (k.task t))) [
    | inl o ↦ rw o (refilled-topped_up (k.task t) (small t on))
    | inr o ↦ rw o refl
  ])
  | inr off ↦ rw off refl
]

-- If no runnable task has time left, and no task has more than the longest time slice of 150,
-- `schedule` adds 30 to the time slice of each task on the list but the idle task, and stops at 150,
-- leaves all else of the descriptors as it is, and makes a runnable task
-- current that is not the idle task, or the idle task if there is no other runnable one.
pub schedule-refill :
    (k : Kernel)
    → Distinct k.task_list
    → ((t : ℕ)
        → has t k.task_list ≡ true
        → is_runnable (k.task t).state ≡ true
        → (k.task t).timeslice ≡ 0)
    → ((t : ℕ) → has t k.task_list ≡ true → (k.task t).timeslice ≤ 150)
    → ((t : ℕ)
        → (schedule k).task t
          ≡ (if has t k.task_list && is_other (k.task t) then topped_up (k.task t) else k.task t))
      × (((schedule k).current ≡ k.idle_task)
            × ((t : ℕ)
                → has t k.task_list ≡ true
                → is_runnable (k.task t).state ≡ true
                → is_other (k.task t) ≡ false)
          ⊎ (has (schedule k).current k.task_list ≡ true)
            × (is_runnable (k.task (schedule k).current).state ≡ true)
            × (is_other (k.task (schedule k).current) ≡ true))
schedule-refill k d spent small =
    let step = schedule_spent k spent in
    (
      λ t. rw step (refill_task k t d ∙ refilled_listed k t small),
      elim (refill-Noted k.task_list k.task none) [
        | inl (kept, none_left) ↦
            inl (ap (λ (j : Kernel). j.current) step ∙ refill_current_none k kept, none_left)
        | inr (t, named, on, run, other) ↦
            let at = ap (λ (j : Kernel). j.current) step ∙ refill_current_some k t named in
            inr (rw at on, rw at run, rw at other)
      ],
    )
