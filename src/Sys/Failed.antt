-- ===== src/Sys/Failed.antt =====
-- sys_fork of kernel/sys.c: what it does where the heap has no memory for a descriptor.
use simplix.Base.{ℕ, ◌+◌, ◌*◌, ◌<◌, ◌≡◌, refl, arith, true, false, none, List, ◌==◌}
use simplix.Ring.Chain.{has}
use simplix.PhysMem.{done, page_size}
use simplix.PhysMem.Layout.{Block, IsLayout, Coalesced, starts, total, allocated}
use simplix.PhysMem.Merge.{release, drop_block}
use simplix.PhysMem.Release.{free_physmem_block-release}
use simplix.Sched.Life.{release_block}
use simplix.Sys.{failure}
use simplix.Sys.Fork.{System, new_task, release_if, fail, sys_fork}

-- If the heap has no memory for the descriptor of the task, sys_fork frees the block at the address
-- that its variable for the new data segment happens to hold, which nothing was assigned to, and
-- returns -1: where the address is the first byte of an allocated block, whoever it belongs to, that
-- neither is at address 0 nor begins with the last page of memory, the block is no longer
-- allocated and its pages join the holes next to it.
pub sys_fork-release :
    (junk i : ℕ) (s s1 : System) (bs : List Block)
    → new_task s ≡ done (none, s1)
    → IsLayout s1.kernel.physmem bs
    → Coalesced bs
    → has i (starts 0 bs) ≡ true
    → s1.kernel.physmem.available i ≡ false
    → i + 1 < total bs
    → 0 < i
    → junk ≡ i * page_size
    → (s' : System) × (sys_fork junk s ≡ done (failure, s'))
      × IsLayout s'.kernel.physmem (release i 0 bs)
      × (allocated 0 (release i 0 bs) ≡ drop_block i (allocated 0 bs))
unfolding sys_fork fail release_if
sys_fork-release junk i s s1 bs got lay co begins taken last pos e =
    let (m, freed, layout, _, dropped) =
      free_physmem_block-release s1.kernel.physmem i bs lay co begins taken last in
    let nonzero : (i * page_size == 0) ≡ false = ground arith in
    (
      record s1 { kernel = record (s1.kernel) { physmem = m } },
      rw got (rw e (rw nonzero (rw (freed, release_block) refl))),
      layout,
      dropped,
    )
