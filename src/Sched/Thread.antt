-- ===== src/Sched/Thread.antt =====
-- kernel_thread of kernel/task.c, over the kernel and the kernel heap.
use simplix.Base.{
  ℕ, ◌+◌, ◌-◌, ◌*◌, ◌/◌, ◌%◌, ◌^◌, ◌<◌, ◌≤◌, ◌≡◌, ◌⊎◌, Bool, true, false, none, some, List, [], ◌∷◌,
  ◌++◌, ◌==◌, if◌then◌else◌, update,
}
use simplix.Str.{Memory}
use simplix.PhysMem.{PhysMem, Run, done, out_of_fuel, page_size, alloc_physmem_block}
use simplix.PhysMem.Layout.{Block, IsLayout}
use simplix.PhysMem.Alloc.{carve}
use simplix.Sched.{Task, Kernel, runnable, initial_timeslice, no_pid, alloc_pid}
use simplix.Sched.Life.{◌>>=◌}
use simplix.Sys.{load_word, store_word, current}
use simplix.Sys.Fork.{
  System, kstack_pages, kstack_size, context_size, set_physmem, zero_segment, new_task, fail,
}

abbrev pub gdt_cs : ℕ
gdt_cs = 8

abbrev pub gdt_ds : ℕ
gdt_ds = 16

abbrev pub store_half : ℕ → ℕ → Memory → Memory
store_half p v mem = update (update mem p (v % 2 ^ 8)) (p + 1) (v / 2 ^ 8 % 2 ^ 8)

-- The writes to the context of the new task at `ctx`, by the offsets of its fields.
abbrev pub thread_context : ℕ → ℕ → Memory → Memory
thread_context fn ctx mem = store_half ctx gdt_ds (
    store_half (ctx + 4) gdt_ds (
      store_half (ctx + 8) gdt_ds (
        store_half (ctx + 12) gdt_ds (
          store_half (ctx + 16) gdt_ds (
            store_word (ctx + 56) fn
              (store_half (ctx + 60) gdt_cs (store_word (ctx + 64) (2 ^ 9) mem)))))))

-- `started` is whether there is a current task.
abbrev pub thread_task : Bool → ℕ → Kernel → Task
thread_task started pid k = record {
  pid = pid;
  ppid = if started then (current k).pid else no_pid;
  cputime = 0;
  timeout = 0;
  timeslice = initial_timeslice;
  state = runnable;
  exit_status = 0;
  kstack = 0;
  ldt_cs = zero_segment;
  ldt_ds = zero_segment;
}

unfoldable pub start_thread : ℕ → ℕ → ℕ → Task → PhysMem → System → System
start_thread fn t kstack r m s = record s {
  kernel = record (s.kernel) {
    task = update s.kernel.task t (record r { kstack = kstack });
    task_list = s.kernel.task_list ++ t ∷ [];
    physmem = record m {
      memory = thread_context fn (kstack + kstack_size - context_size) m.memory;
    };
  };
}

-- The error path is that of sys_fork without a data segment. `t` is the new descriptor.
unfoldable pub make_thread : Bool → ℕ → ℕ → System → Run (ℕ × System)
make_thread started fn t s = elim (alloc_pid s.kernel) [
  | none ↦ out_of_fuel
  | some p ↦ alloc_physmem_block kstack_pages 1 p.1.physmem >>= λ a.
      let s1 : System = record s { kernel = p.1 } in
      elim a.stored [
        | none ↦ fail 0 (some t) 0 (record s1 { kernel = set_physmem a.state p.1 })
        | some kstack ↦
            done (p.0, start_thread fn t kstack (thread_task started p.0 p.1) a.state s1)
      ]
]

unfoldable pub kernel_thread : Bool → ℕ → System → Run (ℕ × System)
kernel_thread started fn s = new_task s >>= λ r. elim r.0 [
  | none ↦ fail 0 none 0 r.1
  | some t ↦ make_thread started fn t r.1
]

-- The context at the end of the stack that is page `b`.
abbrev pub context_at : ℕ → ℕ
context_at b = b * page_size + kstack_size - context_size

-- The kernel `k'` behind the start of thread `t` at `fn`, with page `b` as its stack.
pub record IsStarted (started : Bool) (fn t pid b : ℕ) (bs : List Block) (k k' : Kernel)
    : Type 0 where
  pub listed : k'.task_list ≡ k.task_list ++ t ∷ []
  pub others : (j : ℕ) → (t == j) ≡ false → k'.task j ≡ k.task j
  pub has_pid : (k'.task t).pid ≡ pid
  pub parent : started ≡ true → (k'.task t).ppid ≡ (current k).pid
  pub orphan : started ≡ false → (k'.task t).ppid ≡ 2 ^ 32 - 1
  pub run_state : (k'.task t).state ≡ runnable
  pub slice : (k'.task t).timeslice ≡ 100
  pub idle : ((k'.task t).cputime ≡ 0) × ((k'.task t).timeout ≡ 0) × ((k'.task t).exit_status ≡ 0)
  pub stack : (k'.task t).kstack ≡ b * page_size
  pub no_segments : ((k'.task t).ldt_cs ≡ zero_segment) × ((k'.task t).ldt_ds ≡ zero_segment)
  pub layout : IsLayout k'.physmem (carve 1 bs)
  pub eip : load_word (context_at b + 56) k'.physmem.memory ≡ fn % 2 ^ 32
  pub eflags : load_word (context_at b + 64) k'.physmem.memory ≡ 2 ^ 9
  pub cs : k'.physmem.memory (context_at b + 60) ≡ gdt_cs
  pub ds : k'.physmem.memory (context_at b) ≡ gdt_ds
  pub kept :
      (j : ℕ)
      → (j < b * page_size) ⊎ ((b + 1) * page_size ≤ j)
      → k'.physmem.memory j ≡ k.physmem.memory j

-- What is in the context, and around it.
record IsContext (fn ctx : ℕ) (mem mem' : Memory) : Type 0 where
  eip0 : mem' (ctx + 56) ≡ fn % 2 ^ 8
  eip1 : mem' (ctx + 56 + 1) ≡ fn / 2 ^ 8 % 2 ^ 8
  eip2 : mem' (ctx + 56 + 2) ≡ fn / 2 ^ 16 % 2 ^ 8
  eip3 : mem' (ctx + 56 + 3) ≡ fn / 2 ^ 24 % 2 ^ 8
  eflags0 : mem' (ctx + 64) ≡ 0
  eflags1 : mem' (ctx + 64 + 1) ≡ 2
  eflags2 : mem' (ctx + 64 + 2) ≡ 0
  eflags3 : mem' (ctx + 64 + 3) ≡ 0
  cs : mem' (ctx + 60) ≡ gdt_cs
  ds : mem' ctx ≡ gdt_ds
  outside : (j : ℕ) → (j < ctx) ⊎ (ctx + 76 ≤ j) → mem' j ≡ mem j
