-- ===== src/Sched/Elect.antt =====
-- Which task `schedule` makes current, and what it does to the time slices.
use simplix.Base.{
  ℕ, ◌≤◌, ◌<◌, ◌≡◌, refl, inl, inr, ◌⊎◌, true, false, ◌&&◌, Option, none, some, List, [], ◌∷◌,
  arith, ltb, ◌==◌, Bool-cases, ap, sym,
}
use simplix.Ring.Chain.{has}
use simplix.Sched.{Task, Kernel, is_runnable, find_longest, schedule}

module _ (task : ℕ → Task) where
  find_longest_grows : (ts : List ℕ) (n : ℕ) (next : Option ℕ) → n ≤ (find_longest task ts n next).0
  unfolding find_longest
  find_longest_grows [] n next = omega arith
  find_longest_grows (t ∷ ts) n next =
      ground
        (arith, find_longest_grows ts (task t).timeslice (some t), find_longest_grows ts n next)

  -- No runnable task on the list has a longer time slice than what the loop ends with.
  find_longest_bounds :
      (ts : List ℕ) (n : ℕ) (next : Option ℕ) (t : ℕ)
      → has t ts ≡ true
      → is_runnable (task t).state ≡ true
      → (task t).timeslice ≤ (find_longest task ts n next).0
  unfolding find_longest
  find_longest_bounds [] n next t h r = cc
  find_longest_bounds (x ∷ ts) n next t h r = elim (Bool-cases (t == x)) [
    | inl e ↦
        let q : t ≡ x = ground arith in
        let r' : is_runnable (task x).state ≡ true = rw q at r in
        rw q (
          ground (
            arith,
            find_longest_grows ts (task x).timeslice (some x),
            find_longest_grows ts n next,
          ))
    | inr e ↦ ground (
      arith,
      find_longest_bounds ts (task x).timeslice (some x) t,
      find_longest_bounds ts n next t,
    )
  ]

  -- A runnable task on the list that has the time slice `n`.
  abbrev pub IsElected : List ℕ → ℕ → ℕ → Type 0
  IsElected ts n t =
      (has t ts ≡ true) × (is_runnable (task t).state ≡ true) × ((task t).timeslice ≡ n)

  find_longest_better :
      (x : ℕ) (ts : List ℕ) (n : ℕ) (next : Option ℕ)
      → (is_runnable (task x).state && ltb n (task x).timeslice) ≡ true
      → find_longest task (x ∷ ts) n next ≡ find_longest task ts (task x).timeslice (some x)
  unfolding find_longest
  find_longest_better x ts n next e = rw e

  find_longest_skip :
      (x : ℕ) (ts : List ℕ) (n : ℕ) (next : Option ℕ)
      → (is_runnable (task x).state && ltb n (task x).timeslice) ≡ false
      → find_longest task (x ∷ ts) n next ≡ find_longest task ts n next
  unfolding find_longest
  find_longest_skip x ts n next e = rw e

  find_longest_nil : (n : ℕ) (next : Option ℕ) → find_longest task [] n next ≡ (n, next)
  unfolding find_longest
  find_longest_nil n next = refl

  -- The loop keeps what it began with, or it names an elected task.
  abbrev pub Chosen : List ℕ → ℕ → Option ℕ → ℕ × Option ℕ → Type 0
  Chosen ts n next r = (r ≡ (n, next)) ⊎ ((t : ℕ) × (r.1 ≡ some t) × IsElected ts r.0 t)

  pub find_longest-Chosen :
      (ts : List ℕ) (n : ℕ) (next : Option ℕ) → Chosen ts n next (find_longest task ts n next)
  find_longest-Chosen [] n next = inl (find_longest_nil n next)
  find_longest-Chosen (x ∷ ts) n next =
      elim (Bool-cases (is_runnable (task x).state && ltb n (task x).timeslice)) [
        | inl e ↦
            rw (find_longest_better x ts n next e)
              (elim (find_longest-Chosen ts (task x).timeslice (some x)) [
                | inl same ↦ inr (
                  x,
                  ap (λ (p : ℕ × Option ℕ). p.1) same,
                  (ground arith, ground arith, sym (ap (λ (p : ℕ × Option ℕ). p.0) same)),
                )
                | inr (t, named, (on, run, at)) ↦ inr (t, named, (ground arith, run, at))
              ])
        | inr e ↦ rw (find_longest_skip x ts n next e) (elim (find_longest-Chosen ts n next) [
          | inl same ↦ inl same
          | inr (t, named, (on, run, at)) ↦ inr (t, named, (ground arith, run, at))
        ])
      ]

-- If some runnable task has time left, `schedule` makes a runnable task current whose time slice
-- is the longest of all the runnable tasks, and changes nothing else.
pub schedule-longest :
    (k : Kernel) (t : ℕ)
    → has t k.task_list ≡ true
    → is_runnable (k.task t).state ≡ true
    → 0 < (k.task t).timeslice
    → (s : ℕ) × (schedule k ≡ record k { current = s })
      × (has s k.task_list ≡ true)
      × (is_runnable (k.task s).state ≡ true)
      × ((u : ℕ)
          → has u k.task_list ≡ true
          → is_runnable (k.task u).state ≡ true
          → (k.task u).timeslice ≤ (k.task s).timeslice)
unfolding schedule
schedule-longest k t on run pos =
    let least = find_longest_bounds k.task k.task_list 0 none t on run in
    elim (find_longest-Chosen k.task k.task_list 0 none) [
      | inl same ↦ absurd (omega (arith, ap (λ (p : ℕ × Option ℕ). p.0) same))
      | inr (s, named, (on', run', at)) ↦ (
        s,
        ground arith,
        on',
        run',
        λ u h r. omega (arith, find_longest_bounds k.task k.task_list 0 none u h r),
      )
    ]
