-- ===== src/Sys.antt =====
-- System calls, kernel/sys.c.
-- A call takes the registers of the caller and the kernel, and gives the value for EAX as a number
-- of 32 bits, so that -1 is 4294967295. The heap's answer is a parameter, as is what a local
-- variable without a value happens to hold. The text that printk shows is left out.
pub mod Fork
pub mod Brk
pub mod Wait
pub mod Copies
pub mod Forked
pub mod Failed
pub mod Tests
use simplix.Base.{
  ℕ, zero, suc, ◌+◌, ◌-◌, ◌*◌, ◌/◌, ◌%◌, ◌^◌, Bool, true, false, not, Option, none, some, ltb, ◌==◌,
  if◌then◌else◌, update,
}
use simplix.Str.{Memory}
use simplix.PhysMem.{
  Ret, s_ok, Run, done, panic, out_of_fuel, Answer, page_size, page_align_sup, wrap,
}
use simplix.PhysMem.Realloc.{realloc_physmem_block}
use simplix.Segment.{build_4kb_seg_desc, seg_addr, seg_size, get_physmem_addr, validate_vmem_area}
use simplix.Sched.{Task, Kernel}
use simplix.Sched.Life.{do_sleep, do_exit, do_waitpid_round, Waited, child, nobody, asleep, ◌>>=◌}

-- The registers of `struct task_cpu_context` that a call reads.
pub record TaskCpuContext : Type 0 where
  pub ebx : ℕ
  pub ecx : ℕ

abbrev pub failure : ℕ
failure = 2 ^ 32 - 1

abbrev pub ldt_cs_type : ℕ
ldt_cs_type = 0xfa

abbrev pub ldt_ds_type : ℕ
ldt_ds_type = 0xf2

-- A word of 32 bits in memory, its low byte first.
abbrev pub load_word : ℕ → Memory → ℕ
load_word p mem = mem p + mem (p + 1) * 2 ^ 8 + mem (p + 2) * 2 ^ 16 + mem (p + 3) * 2 ^ 24

abbrev pub store_word : ℕ → ℕ → Memory → Memory
store_word p v mem =
    update
      (update (update (update mem p (v % 2 ^ 8)) (p + 1) (v / 2 ^ 8 % 2 ^ 8)) (p + 2)
        (v / 2 ^ 16 % 2 ^ 8))
      (p + 3) (v / 2 ^ 24 % 2 ^ 8)

abbrev pub current : Kernel → Task
current k = k.task k.current

abbrev pub set_memory : Memory → Kernel → Kernel
set_memory mem k = record k { physmem = record (k.physmem) { memory = mem } }

unfoldable pub sys_exit : TaskCpuContext → Kernel → Run (ℕ × Kernel)
sys_exit ctx k = do_exit ctx.ebx k >>= λ k'. done (0, k')

-- A call of sys_waitpid ends, or the task sleeps and goes through another round when it wakes up.
pub data Call : Type 0 where
  returned waiting : ℕ → Kernel → Call

-- How a round of do_waitpid ends sys_waitpid. A pid of -1 is never that of a child.
unfoldable pub finish_wait : ℕ → Kernel → Waited → Call
finish_wait paddr k (child found status k') =
    returned found
      (if found == failure then k' else set_memory (store_word paddr status k'.physmem.memory) k')
finish_wait paddr k nobody = returned failure k
finish_wait paddr k (asleep k') = waiting paddr k'

unfoldable pub wait_round : ℕ → ℕ → Kernel → Call
wait_round paddr pid k = finish_wait paddr k (do_waitpid_round pid k)

-- Where the task has to wait, with the physical address that the later rounds write to.
unfoldable pub sys_waitpid : TaskCpuContext → Kernel → Call
sys_waitpid ctx k =
    let ds = (current k).ldt_ds in
    if validate_vmem_area ds ctx.ecx 4
    then wait_round (get_physmem_addr ds ctx.ecx) ctx.ebx k
    else returned failure k

unfoldable pub sys_getpid : TaskCpuContext → Kernel → ℕ
sys_getpid ctx k = (current k).pid

unfoldable pub sys_getppid : TaskCpuContext → Kernel → ℕ
sys_getppid ctx k = (current k).ppid

unfoldable pub sys_time : TaskCpuContext → Kernel → ℕ
sys_time ctx k = k.realtime

unfoldable pub sys_stime : TaskCpuContext → Kernel → ℕ × Kernel
sys_stime ctx k =
    let ds = (current k).ldt_ds in
    if validate_vmem_area ds ctx.ecx 4
    then (0, record k { realtime = load_word (get_physmem_addr ds ctx.ecx) k.physmem.memory })
    else (failure, k)

unfoldable pub sys_sleep : TaskCpuContext → Kernel → Run (ℕ × Kernel)
sys_sleep ctx k = do_sleep ctx.ebx k >>= λ k'. done (0, k')

-- The two segments of the current task, behind a change of its data segment.
abbrev pub set_segments : ℕ → ℕ → ℕ → Kernel → Kernel
set_segments addr cs_size ds_size k = record k {
  task = update k.task k.current (record (current k) {
    ldt_cs = build_4kb_seg_desc addr cs_size ldt_cs_type;
    ldt_ds = build_4kb_seg_desc addr ds_size ldt_ds_type;
  });
}

-- How sys_brk ends, by the answer of realloc_physmem_block. It reads `addr` for S_OK only.
unfoldable pub finish_brk : ℕ → ℕ → ℕ → ℕ → Answer → Kernel → ℕ × Kernel
finish_brk junk cs_size ds_size size a k =
    let k' : Kernel = record k { physmem = a.state } in
    elim a.ret [
      | s_ok ↦
          (let addr : ℕ = elim a.stored [ some addr ↦ addr | none ↦ junk ] in
            (size, set_segments addr cs_size size k'))
      | _ ↦ (ds_size, k')
    ]

-- The address of a local variable is not 0, so any other number stands for it.
unfoldable pub sys_brk : ℕ → TaskCpuContext → Kernel → Run (ℕ × Kernel)
sys_brk junk ctx k =
    let size = page_align_sup ctx.ebx in
    let cs = (current k).ldt_cs in
    let ds = (current k).ldt_ds in
    if not (seg_addr cs == seg_addr ds)
    then panic
    else if ltb (seg_size ds) (seg_size cs)
    then panic
    else if ltb size (seg_size cs)
    then done (seg_size ds, k)
    else (realloc_physmem_block junk (seg_addr ds) (size / page_size) 1 k.physmem >>= λ a.
        done (finish_brk junk (seg_size cs) (seg_size ds) size a k))
