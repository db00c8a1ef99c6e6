-- ===== src/Sys/Fork.antt =====
-- sys_fork of kernel/sys.c, over the kernel and the kernel heap, which share physical memory.
-- A `goto error` is the call of `fail` with what is allocated by then.
use simplix.Base.{
  ℕ, ◌+◌, ◌-◌, ◌*◌, ◌/◌, not, Option, none, some, [], ◌∷◌, ◌++◌, ltb, ◌==◌, if◌then◌else◌, update,
}
use simplix.Str.{memcpy}
use simplix.PhysMem.{
  PhysMem, Run, done, panic, out_of_fuel, page_size, page_align_sup, alloc_physmem_block_raw,
}
use simplix.Segment.{SegmentDescriptor, build_4kb_seg_desc, seg_addr, seg_size}
use simplix.Sched.{Task, Kernel, runnable, idle_task_pid, init_task_pid, alloc_pid}
use simplix.Sched.Life.{release_block, ◌>>=◌}
use simplix.Kmem.{Kmem, kmalloc, kfree}
use simplix.Sys.{failure, ldt_cs_type, ldt_ds_type, store_word, current}

pub record System : Type 0 where
  pub kernel : Kernel
  pub heap : Kmem

abbrev pub kstack_pages : ℕ
kstack_pages = 1

abbrev pub kstack_size : ℕ
kstack_size = kstack_pages * page_size

-- `sizeof(struct task_struct)`, `sizeof(struct task_cpu_context)` and `offsetof` of its `eax`.
abbrev pub task_struct_size : ℕ
task_struct_size = 60

abbrev pub context_size : ℕ
context_size = 76

abbrev pub eax_offset : ℕ
eax_offset = 48

abbrev pub set_physmem : PhysMem → Kernel → Kernel
set_physmem m k = record k { physmem = m }

-- The calls of the heap.
unfoldable pub new_task : System → Run (Option ℕ × System)
new_task s = kmalloc task_struct_size (record (s.heap) { physmem = s.kernel.physmem }) >>= λ r.
    done (r.0, record { kernel = set_physmem r.1.physmem s.kernel; heap = r.1 })

unfoldable pub free_task : ℕ → System → System
free_task t s = record s { heap = kfree t (record (s.heap) { physmem = s.kernel.physmem }) }

-- The pid of the new task.
unfoldable pub choose_pid : Kernel → Run (ℕ × Kernel)
choose_pid k =
    if (current k).pid == idle_task_pid
    then done (init_task_pid, k)
    else elim (alloc_pid k) [ some r ↦ done r | none ↦ out_of_fuel ]

-- `free_physmem_block(addr)` behind a test of the address.
unfoldable pub release_if : ℕ → System → Run System
release_if addr s =
    if addr == 0
    then done s
    else (release_block addr s.kernel >>= λ k. done (record s { kernel = k }))

-- What is behind the label `error`, by the values of `new_ds_addr`, `t` and `t->kstack`.
unfoldable pub fail : ℕ → Option ℕ → ℕ → System → Run (ℕ × System)
fail new_ds_addr none kstack s = release_if new_ds_addr s >>= λ s1. done (failure, s1)
fail new_ds_addr (some t) kstack s =
    release_if new_ds_addr s >>= λ s1. release_if kstack s1 >>= λ s2. done (failure, free_task t s2)

-- The descriptor of the new task, which kmalloc has filled with zeros.
abbrev pub zero_segment : SegmentDescriptor
zero_segment = record {
  limit_15_0 = 0;
  base_addr_15_0 = 0;
  base_addr_23_16 = 0;
  type_bits = 0;
  limit_19_16 = 0;
  u = 0;
  x = 0;
  d = 0;
  g = 0;
  base_addr_31_24 = 0;
}

abbrev pub fresh_task : ℕ → Task → Task
fresh_task pid parent = record {
  pid = pid;
  ppid = parent.pid;
  cputime = 0;
  timeout = 0;
  timeslice = parent.timeslice;
  state = runnable;
  exit_status = 0;
  kstack = 0;
  ldt_cs = zero_segment;
  ldt_ds = zero_segment;
}

-- From the allocation of the data segment on, for a new task `r` at `t`.
unfoldable pub finish_fork : ℕ → ℕ → Task → System → Run (ℕ × System)
finish_fork junk t r s =
    let k = s.kernel in
    let cs = (current k).ldt_cs in
    let ds = (current k).ldt_ds in
    let new_ds_size = page_align_sup (seg_size ds) in
    if not (seg_addr cs == seg_addr ds)
    then panic
    else if ltb (seg_size ds) (seg_size cs)
    then panic
    else (alloc_physmem_block_raw (new_ds_size / page_size) 1 k.physmem >>= λ a. elim a.stored [
      | none ↦ fail junk (some t) r.kstack (record s { kernel = set_physmem a.state k })
      | some addr ↦
          (let copied = memcpy addr (seg_addr ds) new_ds_size a.state.memory in
            let memory = store_word (r.kstack + kstack_size - context_size + eax_offset) 0 copied in
            let r' = record r {
              ldt_cs = build_4kb_seg_desc addr (seg_size cs) ldt_cs_type;
              ldt_ds = build_4kb_seg_desc addr new_ds_size ldt_ds_type;
            } in
            done (
              r.pid,
              record s {
                kernel = record k {
                  task = update k.task t r';
                  task_list = k.task_list ++ t ∷ [];
                  physmem = record (a.state) { memory = memory };
                };
              },
            ))
    ])

-- `junk` is what `new_ds_addr` holds until it is assigned. An allocation gives an address if and
-- only if it returns S_OK.
unfoldable pub sys_fork : ℕ → System → Run (ℕ × System)
sys_fork junk s = new_task s >>= λ r. elim r.0 [
  | none ↦ fail junk none 0 r.1
  | some t ↦ choose_pid r.1.kernel >>= λ p.
      let k = p.1 in
      let parent = current k in
      alloc_physmem_block_raw kstack_pages 1 k.physmem >>= λ a. elim a.stored [
        | none ↦ fail junk (some t) 0 (record (r.1) { kernel = set_physmem a.state k })
        | some kstack ↦
            (let memory = memcpy kstack parent.kstack kstack_size a.state.memory in
              finish_fork junk t (record (fresh_task p.0 parent) { kstack = kstack })
                (record (r.1) { kernel = set_physmem (record (a.state) { memory = memory }) k }))
      ]
]
