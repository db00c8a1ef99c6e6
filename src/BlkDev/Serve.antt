-- ===== src/BlkDev/Serve.antt =====
-- blkdev_read of a registered instance.
use simplix.Base.{ℕ, ◌+◌, ◌*◌, ◌%◌, ◌^◌, ◌≤◌, ◌<◌, ◌≡◌, true, Option, some, List, arith, ap, ◌∙◌}
use simplix.PhysMem.{done, s_ok}
use simplix.BlkDev.{BlkDev, nr_blkdev_major_types, set_refcnt}
use simplix.BlkDev.Count.{find_minor}
use simplix.BlkDev.Io.{Io, Driver, read_range, blkdev_read, finish}
use simplix.BlkDev.Reader.{IsReader, Got, Separate}
use simplix.BlkDev.Read.{head_size, part, read_range-Got, with_instance-found, finish-counted}

blkdev_read-runs :
    (fuel : ℕ) (drv : Driver) (tmp tmp' : Option ℕ)
    → (major minor offset len buffer d bs : ℕ) (ds : List ℕ) (b b' : BlkDev) (io io' : Io)
    → major ≤ nr_blkdev_major_types
    → b.classes major ≡ some ds
    → find_minor minor ds b ≡ some d
    → (b.dev d).block_size ≡ bs
    → read_range fuel drv minor tmp tmp' bs offset len buffer io ≡ done (true, io')
    → finish d (set_refcnt d (((b.dev d).refcnt + 1) % 2 ^ 32) b) (done (true, io'))
      ≡ done (s_ok, b', io')
    → blkdev_read fuel drv tmp tmp' major minor offset len buffer b io ≡ done (s_ok, b', io')
unfolding blkdev_read
blkdev_read-runs fuel drv tmp tmp' major minor offset len buffer d bs ds b b' io io' l e found size
      r s =
    let b1 = set_refcnt d (((b.dev d).refcnt + 1) % 2 ^ 32) b in
    let go = λ (d : ℕ) (b' : BlkDev).
      finish d b' (read_range fuel drv minor tmp tmp' (b'.dev d).block_size offset len buffer io) in
    let size' : (b1.dev d).block_size ≡ bs = ground (arith, size) in
    with_instance-found go major minor d ds b io l e found
    ∙ ap (λ (q : ℕ). finish d b1 (read_range fuel drv minor tmp tmp' q offset len buffer io)) size'
    ∙ ap (finish d b1) r
    ∙ s

-- For a registered instance whose reference count can be raised, a driver that reads blocks of the
-- device, and two buffers of the heap apart from the buffer of the caller, where the buffer of the
-- caller and the first of the two end below 4 GB: if the range begins with a block or reaches the end
-- of the block in which it begins, ends below byte 2 ^ 64, and the device, of less than 2 ^ 32 blocks,
-- has its blocks, blkdev_read ends, with one unit of fuel for each whole block and one more, and
-- returns S_OK. Then the buffer holds the bytes of the
-- range, the device is as before, no other byte of memory but those of the two buffers is
-- changed, and each instance has its old reference count.
pub blkdev_read-Got :
    (t t' bs : ℕ) (drv : Driver) (minor cap : ℕ)
    → IsReader drv minor bs cap
    → cap < 2 ^ 32
    → (n e major d fuel block delta buffer offset len : ℕ) (ds : List ℕ) (b : BlkDev) (io : Io)
    → e < bs
    → delta < bs
    → offset ≡ block * bs + delta
    → len ≡ head_size bs delta + (n * bs + e)
    → offset + len < 2 ^ 64
    → block + part delta + n + part e ≤ cap
    → n < fuel
    → buffer + len < 2 ^ 32
    → t + bs < 2 ^ 32
    → Separate t t' bs buffer len
    → major ≤ nr_blkdev_major_types
    → b.classes major ≡ some ds
    → find_minor minor ds b ≡ some d
    → (b.dev d).block_size ≡ bs
    → (b.dev d).refcnt + 1 < 2 ^ 32
    → (b' : BlkDev) × (io' : Io) × (blkdev_read fuel drv
          (some t)
          (some t')
          major
          minor
          offset
          len
          buffer
          b
          io
        ≡ done (s_ok, b', io'))
      × Got t t' bs io io' buffer len offset
      × ((i : ℕ) → (b'.dev i).refcnt ≡ (b.dev i).refcnt)
blkdev_read-Got t t' bs drv minor cap reader few n e major d fuel block delta buffer offset len ds b
      io inside l from size fits blocks f u w s m class found same count =
    let (io', runs, got) =
      read_range-Got t t' bs drv minor cap reader few n e inside fuel block delta buffer offset len
        io l from size fits blocks f u w s in
    let (b', ends, counts) = finish-counted d b io' count in
    (
      b',
      io',
      blkdev_read-runs fuel drv (some t) (some t') major minor offset len buffer d bs ds b b' io io'
          m class found same runs ends,
      got,
      counts,
    )
