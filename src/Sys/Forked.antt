-- ===== src/Sys/Forked.antt =====
-- sys_fork of kernel/sys.c: what the new task is.
use simplix.Base.{
  ℕ, ◌+◌, ◌-◌, ◌*◌, ◌/◌, ◌^◌, ◌<◌, ◌≤◌, ◌≡◌, ◌≢◌, refl, ap, ◌∙◌, arith, ◌⊎◌, true, false, some,
  List, [], ◌∷◌, ◌++◌, leb, ltb, ◌==◌, ◌&&◌, ◌||◌, update,
}
use simplix.Str.{memcpy}
use simplix.PhysMem.{PhysMem, s_ok, done, page_size, page_align_sup, alloc_physmem_block_raw}
use simplix.PhysMem.Layout.{Block, IsLayout, Coalesced, allocated, Holds-frame}
use simplix.PhysMem.Alloc.{first_fit, carve}
use simplix.PhysMem.Fit.{insert_block, covers}
use simplix.PhysMem.Take.{Taken, alloc_physmem_block_raw-Taken, covers-insert_block, covers-apart}
use simplix.Segment.{build_4kb_seg_desc, seg_addr, seg_size}
use simplix.Sched.{Task, Kernel, runnable}
use simplix.Sys.{current, store_word, load_word, ldt_cs_type, ldt_ds_type}
use simplix.Sys.Brk.{IsImage, build_4kb_seg_desc-IsImage}
use simplix.Sys.Wait.{load_word-store_word}
use simplix.Sys.Fork.{
  System, set_physmem, new_task, choose_pid, fresh_task, finish_fork, sys_fork, kstack_size,
  context_size, eax_offset,
}
use simplix.Sys.Copies.{
  eax_at, IsApart, fork_memory, fork_memory-copied, fork_memory-stack, fork_memory-kept,
}

-- Memory from which the current task can fork: its kernel stack is page `q`, its code and data are
-- the `n` pages from `i` on, and the allocator finds page `b1` for the new kernel stack and then the
-- `n` pages from `b2` on.
pub record IsReady (k : Kernel) (bs : List Block) (q i n b1 b2 : ℕ) : Type 0 where
  pub layout : IsLayout k.physmem bs
  pub coalesced : Coalesced bs
  pub image : IsImage i (current k) k.physmem
  pub size : k.physmem.pages i ≡ n
  pub pos : 0 < n
  pub inside : i + n < 2 ^ 20
  pub stack : (current k).kstack ≡ q * page_size
  pub stack_taken : covers q (allocated 0 bs) ≡ true
  pub image_taken : (j : ℕ) → i ≤ j → j < i + n → covers j (allocated 0 bs) ≡ true
  pub stack_fits : first_fit 1 0 bs ≡ some b1
  pub image_fits : first_fit n 0 (carve 1 bs) ≡ some b2

-- The kernel `k'` after task `t` was forked from the current task of `k`.
pub record IsForked (k k' : Kernel) (bs : List Block) (t pid q i n b1 b2 : ℕ) : Type 0 where
  pub listed : k'.task_list ≡ k.task_list ++ t ∷ []
  pub others : (j : ℕ) → j ≢ t → k'.task j ≡ k.task j
  pub pid_of : (k'.task t).pid ≡ pid
  pub ppid_of : (k'.task t).ppid ≡ (current k).pid
  pub state_of : (k'.task t).state ≡ runnable
  pub stack_of : (k'.task t).kstack ≡ b1 * page_size
  pub image : IsImage b2 (k'.task t) k'.physmem
  pub code : seg_size (k'.task t).ldt_cs ≡ seg_size (current k).ldt_cs
  pub layout : IsLayout k'.physmem (carve n (carve 1 bs))
  pub coalesced : Coalesced (carve n (carve 1 bs))
  pub blocks :
      allocated 0 (carve n (carve 1 bs)) ≡ insert_block b2 n (insert_block b1 1 (allocated 0 bs))
  pub copied :
      (j : ℕ)
      → j < n * page_size
      → k'.physmem.memory (b2 * page_size + j) ≡ k.physmem.memory (i * page_size + j)
  pub stack_copied :
      (j : ℕ)
      → j < page_size
      → (b1 * page_size + j < eax_at b1) ⊎ (eax_at b1 + 4 ≤ b1 * page_size + j)
      → k'.physmem.memory (b1 * page_size + j) ≡ k.physmem.memory (q * page_size + j)
  pub result : load_word (eax_at b1) k'.physmem.memory ≡ 0
  pub kept :
      (a : ℕ)
      → covers (a / page_size) (allocated 0 bs) ≡ true
      → k'.physmem.memory a ≡ k.physmem.memory a

-- The end of a fork, where nothing is missing.
finish_fork-done :
    (junk t addr : ℕ) (r : Task) (s : System) (a : PhysMem)
    → let k = s.kernel in
      let size = page_align_sup (seg_size (current k).ldt_ds) in
      (seg_addr (current k).ldt_cs == seg_addr (current k).ldt_ds) ≡ true
      → ltb (seg_size (current k).ldt_ds) (seg_size (current k).ldt_cs) ≡ false
      → alloc_physmem_block_raw (size / page_size) 1 k.physmem
        ≡ done (record { ret = s_ok; stored = some addr; state = a })
      → finish_fork junk t r s
        ≡ done (
          r.pid,
          record s {
            kernel = record k {
              task = update k.task t (record r {
                ldt_cs = build_4kb_seg_desc addr (seg_size (current k).ldt_cs) ldt_cs_type;
                ldt_ds = build_4kb_seg_desc addr size ldt_ds_type;
              });
              task_list = k.task_list ++ t ∷ [];
              physmem = record a {
                memory =
                    store_word
                      (r.kstack + kstack_size - context_size + eax_offset)
                      0
                      (memcpy addr (seg_addr (current k).ldt_ds) size a.memory);
              };
            };
          },
        )
unfolding finish_fork
finish_fork-done junk t addr r s a same fits e = rw (same, fits) (rw e refl)

-- The kernel behind the fork, by the physical memory that the two allocations leave.
abbrev forked : Kernel → ℕ → ℕ → ℕ → ℕ → ℕ → ℕ → ℕ → PhysMem → Kernel
forked k t pid q i n b1 b2 a = record k {
  task = update k.task t (record (fresh_task pid (current k)) {
    kstack = b1 * page_size;
    ldt_cs = build_4kb_seg_desc (b2 * page_size) (seg_size (current k).ldt_cs) ldt_cs_type;
    ldt_ds = build_4kb_seg_desc (b2 * page_size) (n * page_size) ldt_ds_type;
  });
  task_list = k.task_list ++ t ∷ [];
  physmem = record a { memory = fork_memory q i n b1 b2 k.physmem.memory };
}

module _ (k : Kernel) (bs : List Block) (q i n b1 b2 : ℕ) (ready : IsReady k bs q i n b1 b2)
    (a1 m1 a2 : PhysMem) (t1 : Taken k.physmem 1 b1 bs (carve 1 bs) a1)
    (t2 : Taken m1 n b2 (carve 1 bs) (carve n (carve 1 bs)) a2) where
  after_stack :
      (j : ℕ)
      → covers j (allocated 0 (carve 1 bs))
        ≡ ((leb b1 j && ltb j (b1 + 1)) || covers j (allocated 0 bs))
  after_stack j = rw t1.added (covers-insert_block j b1 1 (allocated 0 bs))

  Taken-IsApart : IsApart q i n b1 b2 (allocated 0 bs)
  Taken-IsApart =
      let stack_page : (j : ℕ) → q ≤ j → j < q + 1 → covers j (allocated 0 bs) ≡ true =
        λ j l u. let same : j ≡ q = omega arith in rw same ready.stack_taken in
      let new_page : (j : ℕ) → b1 ≤ j → j < b1 + 1 → covers j (allocated 0 (carve 1 bs)) ≡ true =
        λ j l u. ground (arith, after_stack j) in
      record {
        stack =
            covers-apart (allocated 0 bs) q 1 b1 1 (omega arith) (omega arith) stack_page
              t1.were_free;
        image =
            covers-apart (allocated 0 bs) i n b2 n ready.pos ready.pos ready.image_taken
              (λ j l u. ground (arith, after_stack j, t2.were_free j l u));
        new =
            covers-apart (allocated 0 (carve 1 bs)) b1 1 b2 n (omega arith) ready.pos new_page
              t2.were_free;
        stack_image =
            covers-apart (allocated 0 bs) i n b1 1 ready.pos (omega arith) ready.image_taken
              t1.were_free;
        stack_free = t1.were_free b1 (omega arith) (omega arith);
        image_free = λ j l u. ground (arith, after_stack j, t2.were_free j l u);
      }

  forked-IsForked : (t pid : ℕ) → IsForked k (forked k t pid q i n b1 b2 a2) bs t pid q i n b1 b2
  forked-IsForked t pid =
      let mem = k.physmem.memory in
      let m : PhysMem = record a2 { memory = fork_memory q i n b1 b2 mem } in
      let xs = allocated 0 bs in
      let apart = Taken-IsApart in
      let r = (forked k t pid q i n b1 b2 a2).task t in
      let here : (t == t) ≡ true = ground arith in
      let parent = ready.image in
      let le : seg_size (current k).ldt_cs ≤ n * page_size =
        omega (arith, parent.cs_le_ds, parent.ds_size, ready.size) in
      let segments =
        build_4kb_seg_desc-IsImage b2 n (seg_size (current k).ldt_cs) r m (omega (arith, t2.bound))
          (omega (arith, t2.bound)) parent.cs_pages le t2.size (rw here refl) (rw here refl) in
      record {
        listed = refl;
        others = λ j off. ground arith;
        pid_of = rw here refl;
        ppid_of = rw here refl;
        state_of = rw here refl;
        stack_of = rw here refl;
        image = segments.0;
        code = segments.1;
        layout = record {
          linked = t2.layout.linked;
          holds = Holds-frame a2 m 0 (carve n (carve 1 bs)) t2.layout.holds (λ i u. (refl, refl));
          filled = t2.layout.filled;
          small = t2.layout.small;
        };
        coalesced = t2.coalesced;
        blocks = t2.added ∙ ap (insert_block b2 n) t1.added;
        copied = fork_memory-copied q i n b1 b2 xs apart mem;
        stack_copied = fork_memory-stack q i n b1 b2 xs apart mem;
        result = load_word-store_word (eax_at b1) 0 (
            memcpy (b2 * page_size) (i * page_size) (n * page_size)
              (memcpy (b1 * page_size) (q * page_size) page_size mem));
        kept = fork_memory-kept q i n b1 b2 xs apart mem;
      }

-- Where the heap gives a descriptor, a pid is found, and memory allows it, sys_fork comes to an end
-- and returns the pid.
pub sys_fork-IsForked :
    (junk t pid q i n b1 b2 : ℕ) (s s1 : System) (k : Kernel) (bs : List Block)
    → new_task s ≡ done (some t, s1)
    → choose_pid s1.kernel ≡ done (pid, k)
    → IsReady k bs q i n b1 b2
    → (s' : System) × (sys_fork junk s ≡ done (pid, s')) × IsForked k s'.kernel bs t pid q i n b1 b2
unfolding sys_fork
sys_fork-IsForked junk t pid q i n b1 b2 s s1 k bs got chosen ready =
    let (a1, e1, t1) =
      alloc_physmem_block_raw-Taken k.physmem 1 1 b1 bs ready.layout (omega arith) (omega arith)
        ready.coalesced ready.stack_fits in
    let m1 : PhysMem = record a1 {
      memory = memcpy (b1 * page_size) (current k).kstack kstack_size a1.memory;
    } in
    let layout1 : IsLayout m1 (carve 1 bs) = record {
      linked = t1.layout.linked;
      holds = Holds-frame a1 m1 0 (carve 1 bs) t1.layout.holds (λ i u. (refl, refl));
      filled = t1.layout.filled;
      small = t1.layout.small;
    } in
    let (a2, e2, t2) =
      alloc_physmem_block_raw-Taken m1 n 1 b2 (carve 1 bs) layout1 ready.pos (omega arith)
        t1.coalesced ready.image_fits in
    let parent = ready.image in
    let size : page_align_sup (seg_size (current k).ldt_ds) ≡ n * page_size =
      omega (arith, parent.ds_size, ready.size, ready.inside) in
    let pages : n * page_size / page_size ≡ n = omega arith in
    let same : (seg_addr (current k).ldt_cs == seg_addr (current k).ldt_ds) ≡ true =
      ground (arith, parent.cs_addr, parent.ds_addr) in
    let fits : ltb (seg_size (current k).ldt_ds) (seg_size (current k).ldt_cs) ≡ false =
      ground (arith, parent.cs_le_ds) in
    let r : Task = record (fresh_task pid (current k)) { kstack = b1 * page_size } in
    let s2 : System = record s1 { kernel = set_physmem m1 k } in
    let last = finish_fork-done junk t (b2 * page_size) r s2 a2 same fits (rw (size, pages) e2) in
    let begin : sys_fork junk s ≡ finish_fork junk t r s2 = rw got (rw chosen (rw e1 refl)) in
    let memory : a2.memory ≡ memcpy (b1 * page_size) (q * page_size) page_size k.physmem.memory =
      t2.memory ∙ rw (ready.stack, t1.memory) refl in
    (
      record s1 { kernel = forked k t pid q i n b1 b2 a2 },
      begin ∙ last ∙ rw (size, parent.ds_addr, memory) refl,
      forked-IsForked k bs q i n b1 b2 ready a1 m1 a2 t1 t2 t pid,
    )
