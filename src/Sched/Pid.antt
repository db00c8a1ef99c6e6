-- ===== src/Sched/Pid.antt =====
-- The allocation of process ids: `alloc_pid` and `get_task` of kernel/sched.c.
use simplix.Base.{
  ℕ, zero, suc, ◌+◌, ◌-◌, ◌≤◌, ◌≡◌, ◌≢◌, refl, inl, inr, true, false, some, List, [], ◌∷◌, arith,
  ltb, ◌==◌, if◌then◌else◌, Bool-cases,
}
use simplix.Ring.Chain.{has}
use simplix.Sched.{Task, Kernel, max_pid, pid_taken, pid_after, alloc_pid_loop, alloc_pid, get_task}

-- How many rounds of `alloc_pid` lead from the last pid `n` to the pid `q`.
abbrev pub rounds : ℕ → ℕ → ℕ
rounds n q = if ltb n q then q - n else q + max_pid - n

module _ (task : ℕ → Task) (ts : List ℕ) where
  -- A pid in range that the search does not find.
  abbrev IsUntaken : ℕ → Type 0
  IsUntaken p = (1 ≤ p) × (p ≤ max_pid) × (pid_taken task ts p ≡ false)

  abbrev IsFirst : ℕ → ℕ → Type 0
  IsFirst n p = IsUntaken p × ((u : ℕ) → IsUntaken u → rounds n p ≤ rounds n u)

  -- A pid in range that no task on the list has.
  abbrev pub IsFree : ℕ → Type 0
  IsFree p = (1 ≤ p) × (p ≤ 65535) × ((t : ℕ) → has t ts ≡ true → (task t).pid ≢ p)

  -- The free pid that comes first after `n`.
  abbrev pub IsNext : ℕ → ℕ → Type 0
  IsNext n p = IsFree p × ((u : ℕ) → IsFree u → rounds n p ≤ rounds n u)

  loop_step :
      (fuel n : ℕ)
      → pid_taken task ts (pid_after n) ≡ true
      → alloc_pid_loop (suc fuel) task ts n ≡ alloc_pid_loop fuel task ts (pid_after n)
  unfolding alloc_pid_loop
  loop_step fuel n e = rw e

  loop_stop :
      (fuel n : ℕ)
      → pid_taken task ts (pid_after n) ≡ false
      → alloc_pid_loop (suc fuel) task ts n ≡ some (pid_after n)
  unfolding alloc_pid_loop
  loop_stop fuel n e = rw e

  rounds_step :
      (n q : ℕ)
      → n ≤ max_pid
      → 1 ≤ q
      → q ≤ max_pid
      → (q == pid_after n) ≡ false
      → rounds n q ≡ suc (rounds (pid_after n) q)
  rounds_step n q a b c e = ground arith

  rounds_first : (n : ℕ) → n ≤ max_pid → rounds n (pid_after n) ≡ 1
  rounds_first n a = ground arith

  free_ne : (u p : ℕ) → pid_taken task ts p ≡ true → pid_taken task ts u ≡ false → (u == p) ≡ false
  free_ne u p e g = elim (Bool-cases (u == p)) [
    | inl same ↦
        let q : u ≡ p = ground arith in let g' : pid_taken task ts p ≡ false = rw q at g in cc
    | inr differ ↦ differ
  ]

  rounds_pos : (n q : ℕ) → n ≤ max_pid → 1 ≤ q → 1 ≤ rounds n q
  rounds_pos n q a b = ground arith

  after_range : (n : ℕ) → (1 ≤ pid_after n) × (pid_after n ≤ max_pid)
  after_range n = ground arith

  loop-IsFirst :
      (fuel n q : ℕ)
      → n ≤ max_pid
      → IsUntaken q
      → rounds n q ≤ fuel
      → (p : ℕ) × (alloc_pid_loop fuel task ts n ≡ some p) × IsFirst n p
  loop-IsFirst zero n q a (b, c, f) d = absurd (omega (arith, rounds_pos n q a b))
  loop-IsFirst (suc fuel) n q a (b, c, f) d =
      let (lo, hi) = after_range n in
      elim (Bool-cases (pid_taken task ts (pid_after n))) [
        | inl e ↦
            let ne : (u : ℕ) → pid_taken task ts u ≡ false → (u == pid_after n) ≡ false =
              λ u g. free_ne u (pid_after n) e g in
            let (p, made, (free, least)) =
              loop-IsFirst fuel (pid_after n) q hi (b, c, f)
                (omega (arith, rounds_step n q a b c (ne q f))) in
            (
              p,
              rw (loop_step fuel n e) made,
              (
                free,
                λ u (b', c', f'). omega (
                  arith,
                  rounds_step n u a b' c' (ne u f'),
                  rounds_step n p a free.0 free.1 (ne p free.2),
                  least u (b', c', f'),
                ),
              ),
            )
        | inr e ↦ (
          pid_after n,
          loop_stop fuel n e,
          ((lo, hi, e), λ u (b', c', f'). omega (arith, rounds_first n a, rounds_pos n u a b')),
        )
      ]

-- The search finds no task where none has the pid, and only there.
pid_taken_no :
    (task : ℕ → Task) (ts : List ℕ) (p : ℕ)
    → ((t : ℕ) → has t ts ≡ true → (task t).pid ≢ p)
    → pid_taken task ts p ≡ false
unfolding get_task
pid_taken_no task [] p free = refl
pid_taken_no task (x ∷ ts) p free =
    let off : ((task x).pid == p) ≡ false = ground (arith, free x) in
    rw (off, pid_taken) (pid_taken_no task ts p (λ t h. free t (ground arith)))

no-pid_taken :
    (task : ℕ → Task) (ts : List ℕ) (p : ℕ)
    → pid_taken task ts p ≡ false
    → (t : ℕ) → has t ts ≡ true
    → (task t).pid ≢ p
unfolding get_task
no-pid_taken task [] p free t h = absurd (ground arith)
no-pid_taken task (x ∷ ts) p free t h = elim (Bool-cases ((task x).pid == p)) [
  | inl e ↦ absurd (let no : true ≡ false = rw (e, pid_taken) at free in ground arith)
  | inr e ↦
      let rest : pid_taken task ts p ≡ false = rw (e, pid_taken) at free in
      elim (Bool-cases (t == x)) [
        | inl k ↦ let q : t ≡ x = ground arith in rw q (ground arith)
        | inr k ↦ no-pid_taken task ts p rest t (ground arith)
      ]
]

rounds_max : (n q : ℕ) → n ≤ max_pid → q ≤ max_pid → rounds n q ≤ max_pid
rounds_max n q a b = ground arith

alloc_pid-some :
    (k : Kernel) (p : ℕ)
    → alloc_pid_loop max_pid k.task k.task_list k.next_pid ≡ some p
    → alloc_pid k ≡ some (p, record k { next_pid = p })
unfolding alloc_pid
alloc_pid-some k p e = rw (alloc_pid, e) refl

-- If the last pid that was given out is at most MAX_PID, and some pid from 1 to MAX_PID is free, that
-- is, no task on the list has it, the search of `alloc_pid` ends with the free pid that
-- comes first after the last pid it gave out, in the order in which MAX_PID is followed by 1; it
-- remembers that pid and changes nothing else.
pub alloc_pid-IsNext :
    (k : Kernel) (q : ℕ)
    → k.next_pid ≤ max_pid
    → IsFree k.task k.task_list q
    → (p : ℕ) × (alloc_pid k ≡ some (p, record k { next_pid = p }))
      × IsNext k.task k.task_list k.next_pid p
alloc_pid-IsNext k q a free =
    let to : (u : ℕ) → IsFree k.task k.task_list u → IsUntaken k.task k.task_list u =
      λ u (b, c, f). (b, c, pid_taken_no k.task k.task_list u f) in
    let (p, made, ((lo, hi, untaken), least)) =
      loop-IsFirst k.task k.task_list max_pid k.next_pid q a (to q free)
        (rounds_max k.next_pid q a free.1) in
    (
      p,
      alloc_pid-some k p made,
      ((lo, hi, no-pid_taken k.task k.task_list p untaken), λ u f. least u (to u f)),
    )
