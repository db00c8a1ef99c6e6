-- ===== src/RamDisk/Driver.antt =====
-- The creation and the end of a RAM disk, drivers/ramdisk.c, over the kernel heap and the physical
-- memory manager. An instance stands with the address of its structure. `n` is the static variable
-- of create_ramdisk. The class of the driver is that of BlkDev, whose structure is the heap's answer.
use simplix.Base.{ℕ, ◌+◌, ◌*◌, ◌/◌, Option, none, some, List, [], ◌∷◌, ◌++◌, ◌==◌, if◌then◌else◌}
use simplix.PhysMem.{
  PhysMem, Ret, s_ok, e_invalidarg, e_nomem, Run, done, page_size, page_align_sup,
  alloc_physmem_block, free_physmem_block,
}
use simplix.Sched.Life.{◌>>=◌}
use simplix.Kmem.{Kmem, kmalloc_raw, kfree}
use simplix.BlkDev.{BlkDev}
use simplix.BlkDev.Register.{register_blkdev_class}
use simplix.RamDisk.{Ramdisk, block_size, wrap}

pub record DiskDriver : Type 0 where
  pub n : ℕ
  pub instances : List (ℕ × Ramdisk)
  pub heap : Kmem

abbrev pub blkdev_ram_disk_major : ℕ
blkdev_ram_disk_major = 0

unfoldable pub init_ramdisk_driver : Option ℕ → BlkDev → BlkDev
init_ramdisk_driver new b = (register_blkdev_class blkdev_ram_disk_major new b).1

-- `sizeof(struct ramdisk)`
abbrev pub ramdisk_size : ℕ
ramdisk_size = 20

abbrev pub set_physmem : PhysMem → DiskDriver → DiskDriver
set_physmem m d = record d { heap = record (d.heap) { physmem = m } }

-- The new instance `rd` of `pages` pages at `addr`.
unfoldable pub add_ramdisk : ℕ → ℕ → ℕ → DiskDriver → DiskDriver
add_ramdisk rd pages addr d = record d {
  n = wrap (d.n + 1);
  instances =
      d.instances
      ++ (rd, record { minor = d.n; addr = addr; nblocks = wrap (pages * page_size) / block_size })
        ∷ [];
}

-- What is returned, and the minor number that is stored.
unfoldable pub create_ramdisk : ℕ → DiskDriver → Run (Ret × Option ℕ × DiskDriver)
create_ramdisk len d =
    let pages = page_align_sup len / page_size in
    if len == 0
    then done (e_invalidarg, none, d)
    else (kmalloc_raw ramdisk_size d.heap >>= λ r.
        let d1 : DiskDriver = record d { heap = r.1 } in
        elim r.0 [
          | none ↦ done (e_nomem, none, d1)
          | some rd ↦ alloc_physmem_block pages 1 d1.heap.physmem >>= λ a.
              let d2 = set_physmem a.state d1 in
              elim a.stored [
                | none ↦ done (e_nomem, none, record d2 { heap = kfree rd d2.heap })
                | some addr ↦ done (s_ok, some d.n, add_ramdisk rd pages addr d2)
              ]
        ])

-- The instance with a minor number, with the address of its structure.
unfoldable pub find_instance : ℕ → List (ℕ × Ramdisk) → Option (ℕ × Ramdisk)
find_instance minor [] = none
find_instance minor ((a, rd) ∷ rds) =
    if rd.minor == minor then some (a, rd) else find_instance minor rds

abbrev pub without_instance : ℕ → List (ℕ × Ramdisk) → List (ℕ × Ramdisk)
without_instance a [] = []
without_instance a ((b, rd) ∷ rds) = if a == b then rds else (b, rd) ∷ without_instance a rds

-- The result of free_physmem_block is not used.
unfoldable pub destroy_ramdisk : ℕ → DiskDriver → Run DiskDriver
destroy_ramdisk minor d = elim (find_instance minor d.instances) [
  | none ↦ done d
  | some found ↦ free_physmem_block found.1.addr d.heap.physmem >>= λ r.
      let d1 = set_physmem r.1 d in
      done (record d1 {
        instances = without_instance found.0 d.instances;
        heap = kfree found.0 d1.heap;
      })
]
