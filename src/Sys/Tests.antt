-- ===== src/Sys/Tests.antt =====
-- The theorems about kernel/sys.c at a task whose code and data are two pages.
use simplix.Base.{
  ◌+◌, ◌*◌, ◌%◌, ◌≤◌, ◌≡◌, ◌⊎◌, refl, inr, arith, true, false, some, none, List, [], ◌∷◌, ◌==◌,
  if◌then◌else◌,
}
use simplix.Ring.{list_find_first, list_pop_head, list_remove}
use simplix.PhysMem.{PhysMem, done, page_size, alloc_physmem_block, alloc_physmem_block_raw}
use simplix.PhysMem.Layout.{Block, block, IsLayout, allocated}
use simplix.PhysMem.Merge.{release, drop_block}
use simplix.PhysMem.InPlace.{Resized}
use simplix.Segment.{build_4kb_seg_desc, seg_addr, seg_size}
use simplix.Sched.{Task, Kernel, runnable, dead}
use simplix.Kmem.{Kmem, kmalloc, kmalloc_raw, grow_slab, take_object}
use simplix.Sys.{current, failure, returned, sys_brk, sys_waitpid}
use simplix.Sys.Fork.{System, new_task, choose_pid, sys_fork}
use simplix.Sys.Brk.{IsImage, sys_brk-IsImage}
use simplix.Sys.Wait.{Delivered, sys_waitpid-Delivered}
use simplix.Sys.Forked.{IsReady, IsForked, sys_fork-IsForked}
use simplix.Sys.Failed.{sys_fork-release}

-- The kernel has pages 0 and 1, the task has page 2 as its kernel stack and pages 3 and 4 for code
-- and data, the heap has page 5, and pages 6 to 11 are free.
abbrev pub memory_of_12 : PhysMem
memory_of_12 = record {
  pages = λ i.
      if i == 0 then 2 else if i == 2 then 1 else if i == 3 then 2 else if i == 5 then 1 else 6;
  available = λ i. i == 6;
  block_list = record {
    prev = λ i.
        if i == 0 then 6 else if i == 6 then 5 else if i == 5 then 3 else if i == 3 then 2 else 0;
    next = λ i.
        if i == 0 then 2 else if i == 2 then 3 else if i == 3 then 5 else if i == 5 then 6 else 0;
    head = some 0;
  };
  physmem_size = 12 * page_size;
  memory = λ i. i % 251;
}

abbrev pub blocks : List Block
blocks = block 2 false ∷ block 1 false ∷ block 2 false ∷ block 1 false ∷ block 6 true ∷ []

pub blocks-IsLayout : IsLayout memory_of_12 blocks
blocks-IsLayout = record {
  linked = ground arith;
  holds = ground arith;
  filled = refl;
  small = omega arith;
}

abbrev init : Task
init = record {
  pid = 0;
  ppid = 0;
  cputime = 0;
  timeout = 0;
  timeslice = 100;
  state = runnable;
  exit_status = 0;
  kstack = 2 * page_size;
  ldt_cs = build_4kb_seg_desc (3 * page_size) (1 * page_size) 0xfa;
  ldt_ds = build_4kb_seg_desc (3 * page_size) (2 * page_size) 0xf2;
}

-- Its child, which is dead.
abbrev zombie : Task
zombie = record init { pid = 7; ppid = 0; state = dead; exit_status = 3 }

abbrev two : Kernel
two = record {
  task = λ i. if i == 10 then init else zombie;
  task_list = 10 ∷ 20 ∷ [];
  current = 10;
  idle_task = 10;
  next_pid = 7;
  ticks = 0;
  realtime = 0;
  realtime_ticks = 1000;
  sched_ticks = 1;
  physmem = memory_of_12;
}

init-IsImage : IsImage 3 init memory_of_12
unfolding seg_addr seg_size build_4kb_seg_desc
init-IsImage = record {
  cs_addr = refl;
  ds_addr = refl;
  cs_le_ds = omega arith;
  cs_pages = refl;
  ds_size = refl;
}

init_code : seg_size init.ldt_cs ≤ page_size
unfolding seg_size build_4kb_seg_desc
init_code = omega arith

sys_brk-IsImage_example :
    (k' : Kernel) × (sys_brk 0 (record { ebx = 4000; ecx = 0 }) two ≡ done (page_size, k'))
    × IsImage 3 (current k') k'.physmem
    × (seg_size (current k').ldt_cs ≡ seg_size init.ldt_cs)
    × Resized memory_of_12 3 1 blocks k'.physmem
sys_brk-IsImage_example =
    sys_brk-IsImage 0 3 (record { ebx = 4000; ecx = 0 }) two blocks blocks-IsLayout (ground arith)
      refl refl init-IsImage init_code (omega arith) (omega arith) (inr (refl, omega arith))

sys_waitpid-Delivered_example :
    (sys_waitpid (record { ebx = 7; ecx = 100 }) two ≡ returned failure two)
    ⊎ ((100 + 4 ≤ 2 * page_size)
        × Delivered two
            (3 * page_size)
            (2 * page_size)
            100
            7
            (sys_waitpid (record { ebx = 7; ecx = 100 }) two))
sys_waitpid-Delivered_example =
    sys_waitpid-Delivered (record { ebx = 7; ecx = 100 }) two (3 * page_size) (2 * page_size) 0xf2
      refl (omega arith) (omega arith)

-- The cache at page 5 with the free objects at 20500 and 20600, for objects of every slab.
abbrev pub heap_of_2 : Kmem
heap_of_2 = record {
  object_cache = λ _. 20480;
  object_prev = λ i. if i == 20500 then 20600 else 20500;
  object_next = λ i. if i == 20500 then 20600 else 20500;
  cache_slab = λ _. 2;
  nr_free_objects = λ _. 2;
  free_object_list = λ _. some 20500;
  cache_prev = λ _. 20480;
  cache_next = λ _. 20480;
  cache_list = λ _. some 20480;
  physmem = memory_of_12;
}

abbrev system : System
system = record { kernel = two; heap = heap_of_2 }

got : (s1 : System) × (new_task system ≡ done (some 20512, s1))
unfolding new_task kmalloc kmalloc_raw grow_slab take_object list_pop_head list_remove
got = (_, refl)

first_fork : choose_pid got.0.kernel ≡ done (1, got.0.kernel)
unfolding got choose_pid new_task kmalloc kmalloc_raw grow_slab take_object list_pop_head
    list_remove
first_fork = refl

ready : IsReady got.0.kernel blocks 2 3 2 6 7
unfolding got new_task kmalloc kmalloc_raw grow_slab take_object list_pop_head list_remove
ready = record {
  layout = record {
    linked = blocks-IsLayout.linked;
    holds = blocks-IsLayout.holds;
    filled = blocks-IsLayout.filled;
    small = blocks-IsLayout.small;
  };
  coalesced = ground arith;
  image = record {
    cs_addr = init-IsImage.cs_addr;
    ds_addr = init-IsImage.ds_addr;
    cs_le_ds = init-IsImage.cs_le_ds;
    cs_pages = init-IsImage.cs_pages;
    ds_size = init-IsImage.ds_size;
  };
  size = refl;
  pos = omega arith;
  inside = omega arith;
  stack = refl;
  stack_taken = refl;
  image_taken = λ j l u. ground arith;
  stack_fits = refl;
  image_fits = refl;
}

sys_fork-IsForked_example :
    (s' : System) × (sys_fork 0 system ≡ done (1, s'))
    × IsForked got.0.kernel s'.kernel blocks 20512 1 2 3 2 6 7
sys_fork-IsForked_example =
    sys_fork-IsForked 0 20512 1 2 3 2 6 7 system got.0 got.0.kernel blocks got.1 first_fork ready

-- A heap without a cache, in memory without room for one.
abbrev full : System
full = record { kernel = two; heap = record heap_of_2 { cache_list = λ _. none } }

refused : (s1 : System) × (new_task full ≡ done (none, s1))
unfolding new_task kmalloc kmalloc_raw grow_slab alloc_physmem_block alloc_physmem_block_raw
    list_find_first
refused = (_, refl)

full_IsLayout :
    IsLayout refused.0.kernel.physmem blocks × (refused.0.kernel.physmem.available 3 ≡ false)
unfolding refused new_task kmalloc kmalloc_raw grow_slab alloc_physmem_block alloc_physmem_block_raw
    list_find_first
full_IsLayout = (blocks-IsLayout, refl)

sys_fork-release_example :
    (s' : System) × (sys_fork (3 * page_size) full ≡ done (failure, s'))
    × IsLayout s'.kernel.physmem (release 3 0 blocks)
    × (allocated 0 (release 3 0 blocks) ≡ drop_block 3 (allocated 0 blocks))
sys_fork-release_example =
    sys_fork-release (3 * page_size) 3 full refused.0 blocks refused.1 full_IsLayout.0
      (ground arith) (ground arith) full_IsLayout.1 (omega arith) (omega arith) refl
