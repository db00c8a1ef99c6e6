-- ===== src/Sys/Wait.antt =====
-- sys_waitpid of kernel/sys.c: where it stores the exit status, and what it leaves alone.
use simplix.Base.{
  ℕ, ◌+◌, ◌*◌, ◌/◌, ◌%◌, ◌^◌, ◌<◌, ◌≤◌, ◌≡◌, refl, ap, ◌∙◌, arith, ◌⊎◌, inl, inr, Option, none,
  some, ◌==◌, Bool-cases,
}
use simplix.Str.{Memory}
use simplix.Segment.{build_4kb_seg_desc, get_physmem_addr, validate_vmem_area}
use simplix.Segment.Fields.{validate_vmem_area-inside}
use simplix.Sched.{
  Kernel, dead, schedule, find_longest, switch_to, interruptible_sleep_on, set_state, interruptible,
}
use simplix.Sched.Life.{do_waitpid_round, Waited, child, nobody, asleep}
use simplix.Sched.Wait.{IsAwaited, Explained, do_waitpid_round-Explained}
use simplix.Sys.{
  TaskCpuContext, current, failure, load_word, store_word, Call, returned, waiting, finish_wait,
  wait_round, sys_waitpid,
}

pub load_word-store_word : (p v : ℕ) (mem : Memory) → load_word p (store_word p v mem) ≡ v % 2 ^ 32
load_word-store_word p v mem =
    let b0 : store_word p v mem p ≡ v % 2 ^ 8 = ground arith in
    let b1 : store_word p v mem (p + 1) ≡ v / 2 ^ 8 % 2 ^ 8 = ground arith in
    let b2 : store_word p v mem (p + 2) ≡ v / 2 ^ 16 % 2 ^ 8 = ground arith in
    let b3 : store_word p v mem (p + 3) ≡ v / 2 ^ 24 % 2 ^ 8 = ground arith in
    let sum : v % 2 ^ 8
          + v / 2 ^ 8 % 2 ^ 8 * 2 ^ 8
          + v / 2 ^ 16 % 2 ^ 8 * 2 ^ 16
          + v / 2 ^ 24 % 2 ^ 8 * 2 ^ 24
        ≡ v % 2 ^ 32 =
      omega arith in
    omega (arith, b0, b1, b2, b3, sum)

pub store_word-outside :
    (p v a : ℕ) (mem : Memory) → (a < p) ⊎ (p + 4 ≤ a) → store_word p v mem a ≡ mem a
store_word-outside p v a mem h = ground arith

switch_to-physmem : (t : Option ℕ) (k : Kernel) → (switch_to t k).physmem ≡ k.physmem
switch_to-physmem none k = refl
switch_to-physmem (some t) k = refl

schedule-physmem : (k : Kernel) → (schedule k).physmem ≡ k.physmem
unfolding schedule
schedule-physmem k = elim (Bool-cases ((find_longest k.task k.task_list 0 none).0 == 0)) [
  | inl e ↦ rw e (switch_to-physmem _ _)
  | inr e ↦ rw e (switch_to-physmem _ _)
]

-- What the call of sys_waitpid comes to, for a caller whose segment has `limit` bytes from `base`.
abbrev pub Delivered : Kernel → ℕ → ℕ → ℕ → ℕ → Call → Type 0
Delivered k base limit vaddr pid (returned v k') =
    ((v ≡ failure) × (k'.physmem ≡ k.physmem))
    ⊎ ((t : ℕ) × IsAwaited k.task (current k).pid pid k.task_list t
        × ((k.task t).state ≡ dead)
        × (v ≡ (k.task t).pid)
        × (load_word (base + vaddr) k'.physmem.memory ≡ (k.task t).exit_status % 2 ^ 32)
        × ((a : ℕ) → (a < base) ⊎ (base + limit ≤ a) → k'.physmem.memory a ≡ k.physmem.memory a))
Delivered k base limit vaddr pid (waiting p k') = (p ≡ base + vaddr) × (k'.physmem ≡ k.physmem)

finish_wait-Delivered :
    (k : Kernel) (base limit vaddr pid : ℕ) (w : Waited)
    → vaddr + 4 ≤ limit
    → Explained k pid w
    → Delivered k base limit vaddr pid (finish_wait (base + vaddr) k w)
unfolding finish_wait interruptible_sleep_on
finish_wait-Delivered k base limit vaddr pid (child p status k') l (t, awaited, died, e, f, g) =
    elim (Bool-cases (p == failure)) [
      | inl at ↦ rw at (inl (ground arith, rw g refl))
      | inr off ↦ rw off (
          inr (
            t,
            awaited,
            died,
            e,
            rw f (load_word-store_word (base + vaddr) (k.task t).exit_status k'.physmem.memory),
            λ a h.
                store_word-outside (base + vaddr) status a k'.physmem.memory (ground arith)
                ∙ rw g refl,
          ))
    ]
finish_wait-Delivered k base limit vaddr pid nobody l absent = inl (refl, refl)
finish_wait-Delivered k base limit vaddr pid (asleep k') l (some_child, alive, e) = (
  refl,
  ap (λ (x : Kernel). x.physmem) e ∙ schedule-physmem (set_state k.current interruptible k),
)

-- For a caller with a data segment of whole pages inside the 32-bit address space that has room for
-- a word, sys_waitpid either refuses the address of the status and changes nothing, or goes through
-- a round of do_waitpid: it returns -1 and leaves physical memory alone, or it returns the pid of a
-- dead child that is waited for, the word at the address has this child's exit status, and no byte
-- outside of the caller's segment is written; or the task sleeps, physical memory is as before, and
-- the later rounds write to the same place.
pub sys_waitpid-Delivered :
    (ctx : TaskCpuContext) (k : Kernel) (base limit type : ℕ)
    → (current k).ldt_ds ≡ build_4kb_seg_desc base limit type
    → base + limit < 2 ^ 32
    → 4 ≤ limit / 2 ^ 12 * 2 ^ 12
    → (sys_waitpid ctx k ≡ returned failure k)
      ⊎ ((ctx.ecx + 4 ≤ limit) × Delivered k base limit ctx.ecx ctx.ebx (sys_waitpid ctx k))
unfolding sys_waitpid wait_round
sys_waitpid-Delivered ctx k base limit type e l fit =
    elim (Bool-cases (validate_vmem_area (current k).ldt_ds ctx.ecx 4)) [
      | inr refused ↦ inl (rw refused refl)
      | inl ok ↦
          let (inside, at) =
            validate_vmem_area-inside base limit type ctx.ecx 4 l fit (rw e at ok) in
          let at' : get_physmem_addr (current k).ldt_ds ctx.ecx ≡ base + ctx.ecx = rw e at in
          inr (
            inside,
            rw ok (
                rw at' (
                  finish_wait-Delivered k base limit ctx.ecx ctx.ebx (do_waitpid_round ctx.ebx k)
                    inside (do_waitpid_round-Explained k ctx.ebx))),
          )
    ]
