-- ===== src/RamDisk/Tests.antt =====
-- The theorems about drivers/ramdisk.c at a disk of eight blocks and at a new disk.
use simplix.Base.{
  ◌≤◌, ◌==◌, some, ℕ, ◌+◌, ◌*◌, ◌<◌, ◌≡◌, refl, inl, false, List, [], ◌∷◌, ◌&&◌, arith, ltb, leb,
}
use simplix.Str.{Memory}
use simplix.RamDisk.{
  Ramdisk, get_ramdisk_instance, block_size, ramdisk_read_blocks, ramdisk_write_blocks,
}
use simplix.Ring.{list_pop_head, list_remove}
use simplix.PhysMem.{Answer, done, s_ok}
use simplix.PhysMem.Layout.{IsLayout}
use simplix.PhysMem.Alloc.{carve}
use simplix.PhysMem.Fit.{Served}
use simplix.Kmem.{Kmem, kmalloc_raw, grow_slab, take_object}
use simplix.Sys.Tests.{blocks, blocks-IsLayout, heap_of_2}
use simplix.RamDisk.Driver.{DiskDriver, create_ramdisk}
use simplix.RamDisk.Created.{disks_of, new_disk, create_ramdisk-Served}
use simplix.RamDisk.Transfer.{ramdisk_read_blocks-ramdisk_write_blocks}

abbrev disk : Ramdisk
disk = record { minor = 3; addr = 65536; nblocks = 8 }

abbrev disks : List Ramdisk
disks = record { minor = 1; addr = 32768; nblocks = 16 } ∷ disk ∷ []

abbrev counting : Memory
counting i = i

ramdisk_read_blocks-ramdisk_write_blocks_example :
    (mem1 mem2 : Memory) × (ramdisk_write_blocks 3 5 2 1000 disks counting ≡ (2, mem1))
    × (ramdisk_read_blocks 3 5 2 5000 disks mem1 ≡ (2, mem2))
    × ((i : ℕ) → i < 2 * block_size → mem2 (5000 + i) ≡ counting (1000 + i))
    × ((j : ℕ) → (leb 5000 j && ltb j (5000 + 2 * block_size)) ≡ false → mem2 j ≡ mem1 j)
unfolding get_ramdisk_instance
ramdisk_read_blocks-ramdisk_write_blocks_example =
    ramdisk_read_blocks-ramdisk_write_blocks disks 3 disk refl 5 2 (omega arith, omega arith) 1000
      5000 counting (inl (omega arith)) (inl (omega arith))

-- A driver with one disk, of which page 5 is the block.
abbrev one_disk : DiskDriver
one_disk = record {
  n = 4;
  instances = (20600, record { minor = 3; addr = 5 * 4096; nblocks = 8 }) ∷ [];
  heap = heap_of_2;
}

got : (h : Kmem) × (kmalloc_raw 20 heap_of_2 ≡ done (some 20512, h))
unfolding kmalloc_raw grow_slab take_object list_pop_head list_remove
got = (_, refl)

got-IsLayout : IsLayout got.0.physmem blocks
unfolding got kmalloc_raw grow_slab take_object list_pop_head list_remove
got-IsLayout = blocks-IsLayout

create_ramdisk-Served_example :
    (a : Answer) × (d' : DiskDriver) × (create_ramdisk 5000 one_disk ≡ done (s_ok, some 4, d'))
    × (d'.heap.physmem ≡ a.state)
    × Served got.0.physmem 2 6 blocks (carve 2 blocks) a
    × (5000 ≤ 2 * 8 * block_size)
    × (get_ramdisk_instance 4 (disks_of d'.instances) ≡ some (new_disk 4 6 2))
    × ((minor : ℕ)
        → (4 == minor) ≡ false
        → get_ramdisk_instance minor (disks_of d'.instances)
          ≡ get_ramdisk_instance minor (disks_of one_disk.instances))
unfolding get_ramdisk_instance
create_ramdisk-Served_example =
    create_ramdisk-Served 5000 20512 6 one_disk got.0 blocks (omega arith) (omega arith) got.1
      got-IsLayout (ground arith) refl (omega arith) refl
