-- ===== src/BlkDev/Tests.antt =====
-- The theorems about kernel/blkdev.c at a class with two instances, of which one is in use.
use simplix.Base.{ℕ, ◌*◌, ◌-◌, ◌%◌, ◌+◌, ◌≡◌, refl, none, some, [], ◌∷◌, arith, ◌==◌, if◌then◌else◌}
use simplix.PhysMem.{s_ok, done}
use simplix.BlkDev.Io.{Io, Driver, blkdev_read}
use simplix.BlkDev.Reader.{is_in, IsReader, Got}
use simplix.BlkDev.Serve.{blkdev_read-Got}
use simplix.BlkDev.Register.{register_blkdev_instance, register_blkdev_instance-find_minor}
use simplix.BlkDev.Count.{find_minor}
use simplix.Base.{List, false}
use simplix.BlkDev.Put.{blkdev_write}
use simplix.BlkDev.Writer.{IsWriter, Wrote}
use simplix.BlkDev.Write.{blkdev_write-Wrote}
use simplix.BlkDev.{BlkDev}

abbrev two_disks : BlkDev
two_disks = record {
  classes = λ i. if i == 1 then some (100 ∷ 200 ∷ []) else none;
  dev = λ i. record {
    minor = if i == 100 then 0 else 1;
    block_size = 512;
    capacity = 16777216;
    refcnt = if i == 100 then 3 else 0;
  };
}

-- A driver that reads and writes the blocks one by one.
abbrev one_by_one : Driver
one_by_one = record {
  blkdev_read_impl = λ minor block n dst io. (
    1,
    record io {
      memory = λ j. if is_in dst 512 j then io.disk (block * 512 + (j - dst)) else io.memory j;
    },
  );
  blkdev_write_impl = λ minor block n src io. (
    1,
    record io {
      disk =
          λ j. if is_in (block * 512) 512 j then io.memory (src + (j - block * 512)) else io.disk j;
    },
  );
}

one_by_one-IsReader : IsReader one_by_one 0 512 16777216
one_by_one-IsReader block n dst io p l = (omega arith, p, refl, λ j. refl)

one_by_one-IsWriter : IsWriter one_by_one 0 512 16777216
one_by_one-IsWriter block n src io p l = (omega arith, p, refl, λ j. refl)

abbrev storage : Io
storage = record { memory = λ _. 0; disk = λ i. i % 256 }

-- From byte 100 of a block behind 4 GB to byte 10 of the third block after it.
blkdev_read-Got_example :
    (b' : BlkDev) × (io' : Io) × (blkdev_read 3 one_by_one
        (some 8192)
        (some 9216)
        1
        0
        4294968932
        1446
        4096
        two_disks
        storage
      ≡ done (s_ok, b', io'))
    × Got 8192 9216 512 storage io' 4096 1446 4294968932
    × ((i : ℕ) → (b'.dev i).refcnt ≡ (two_disks.dev i).refcnt)
blkdev_read-Got_example =
    blkdev_read-Got 8192 9216 512 one_by_one 0 16777216 one_by_one-IsReader (omega arith) 2 10 1 100
      3 8388611 100 4096 4294968932 1446 (100 ∷ 200 ∷ []) two_disks storage (omega arith)
      (omega arith) refl refl (omega arith) (omega arith) (omega arith) (omega arith) (omega arith)
      (omega arith) (omega arith) refl refl refl (omega arith)

blkdev_write-Wrote_example :
    (b' : BlkDev) × (io' : Io) × (blkdev_write 3 one_by_one
        (some 8192)
        (some 9216)
        1
        0
        4294968932
        1446
        4096
        two_disks
        storage
      ≡ done (s_ok, b', io'))
    × Wrote 8192 9216 512 storage io' 4096 1446 4294968932
    × ((i : ℕ) → (b'.dev i).refcnt ≡ (two_disks.dev i).refcnt)
blkdev_write-Wrote_example =
    blkdev_write-Wrote 8192 9216 512 one_by_one 0 16777216 one_by_one-IsReader one_by_one-IsWriter
      (omega arith) (omega arith) 2 10 1 100 3 8388611 100 4096 4294968932 1446 (100 ∷ 200 ∷ [])
      two_disks storage (omega arith) (omega arith) refl refl (omega arith) (omega arith)
      (omega arith) (omega arith) (omega arith) (omega arith) (omega arith) refl refl refl
      (omega arith)

register_blkdev_instance-find_minor_example :
    (b' : BlkDev) × (ds' : List ℕ) × (register_blkdev_instance 1 7 512 64 (some 300) two_disks
      ≡ done (s_ok, b'))
    × (b'.classes 1 ≡ some ds')
    × (find_minor 7 ds' b' ≡ some 300)
    × ((b'.dev 300).minor ≡ 7)
    × ((b'.dev 300).block_size ≡ 512)
    × ((b'.dev 300).capacity ≡ 64)
    × ((b'.dev 300).refcnt ≡ 0)
    × ((m : ℕ) → (7 == m) ≡ false → find_minor m ds' b' ≡ find_minor m (100 ∷ 200 ∷ []) two_disks)
register_blkdev_instance-find_minor_example =
    register_blkdev_instance-find_minor 1 7 512 64 300 (100 ∷ 200 ∷ []) two_disks (omega arith)
      (omega arith) (omega arith) refl refl refl
