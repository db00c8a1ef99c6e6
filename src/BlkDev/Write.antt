-- ===== src/BlkDev/Write.antt =====
-- blkdev_write of a range of bytes, for a registered instance.
use simplix.Base.{
  ℕ, ◌+◌, ◌-◌, ◌*◌, ◌/◌, ◌%◌, ◌^◌, ◌≤◌, ◌<◌, ◌≡◌, refl, inl, inr, Bool, true, Option, some, List,
  arith, ◌==◌, ap, ◌∙◌, sym, Bool-cases,
}
use simplix.PhysMem.{Run, done, wrap, s_ok}
use simplix.BlkDev.{BlkDev, nr_blkdev_major_types, set_refcnt}
use simplix.BlkDev.Count.{find_minor}
use simplix.BlkDev.Io.{Io, Driver, blocks_left, last_delta, finish}
use simplix.BlkDev.Put.{
  write_first, write_blocks, write_last, write_rest, write_range, blkdev_write,
}
use simplix.BlkDev.Reader.{IsReader, Separate}
use simplix.BlkDev.Read.{div-mod_of, head_size, part, with_instance-found, finish-counted}
use simplix.BlkDev.Writer.{
  IsWriter, Wrote, Wrote-trans, Wrote-cong, write_first-whole, write_first-part, write_blocks-Wrote,
  write_last-Wrote,
}

-- The loop and the last block, one after the other.
write_rest-runs :
    (fuel : ℕ) (drv : Driver) (minor : ℕ) (tmp : Option ℕ)
    → (bs offset len n d src block src' block' : ℕ) (io io1 io2 : Io)
    → blocks_left offset len bs block ≡ n
    → last_delta offset len bs ≡ d
    → write_blocks fuel drv minor bs n src block io ≡ done (some (src', block'), io1)
    → write_last drv minor tmp d src' block' io1 ≡ (true, io2)
    → write_rest fuel drv minor tmp bs offset len (some (src, block), io) ≡ done (true, io2)
unfolding write_rest
write_rest-runs fuel drv minor tmp bs offset len n d src block src' block' io io1 io2 left last r
      s =
    rw (write_rest, left, r) (rw last (rw s refl))

-- The first block and what follows it.
write_range-runs :
    (fuel : ℕ) (drv : Driver) (minor : ℕ) (tmp tmp' : Option ℕ)
    → (bs offset len block delta src : ℕ) (p : Option (ℕ × ℕ)) (io io1 : Io) (r : Run (Bool × Io))
    → wrap (offset / bs) ≡ block
    → offset % bs ≡ delta
    → write_first drv minor tmp bs block delta src io ≡ (p, io1)
    → write_rest fuel drv minor tmp' bs offset len (p, io1) ≡ r
    → write_range fuel drv minor tmp tmp' bs offset len src io ≡ r
unfolding write_range
write_range-runs fuel drv minor tmp tmp' bs offset len block delta src p io io1 r e f g h =
    rw (e, f) (rw g h)

module _ (t t' bs : ℕ) (drv : Driver) (minor cap : ℕ) (reader : IsReader drv minor bs cap)
    (writer : IsWriter drv minor bs cap) (room : t' + bs < 2 ^ 32) (few : cap < 2 ^ 32) (n d : ℕ)
    (inside : d < bs) where
  write_rest-Wrote :
      (fuel block src offset len : ℕ) (io : Io)
      → offset + len ≡ (block + n) * bs + d
      → offset + len < 2 ^ 64
      → block + n + part d ≤ cap
      → n < fuel
      → src + (n * bs + d) < 2 ^ 32
      → Separate t t' bs src (n * bs + d)
      → (io' : Io) × (write_rest fuel drv minor (some t') bs offset len (some (src, block), io)
          ≡ done (true, io'))
        × Wrote t t' bs io io' src (n * bs + d) (block * bs)
  write_rest-Wrote fuel block src offset len io e u c f v s =
      let (quot, rem) = div-mod_of (offset + len) (block + n) d bs e inside in
      let same : (offset + len) % 2 ^ 64 ≡ offset + len = omega arith in
      let left : blocks_left offset len bs block ≡ n = rw same (rw quot (ground arith)) in
      let last : last_delta offset len bs ≡ d = rw same rem in
      let (io1, runs, wrote) =
        write_blocks-Wrote t t' bs drv minor cap reader writer fuel n src block io f (ground arith)
          few (omega arith) (omega (arith, s.0), omega (arith, s.1)) in
      let (io2, runs', wrote') =
        write_last-Wrote t t' bs drv minor cap reader writer (block + n) d (src + n * bs) io1 inside
          (λ p. ground arith) room (omega (arith, s.0), omega (arith, s.1)) in
      let from : (block + n) * bs ≡ block * bs + n * bs = omega arith in
      (
        io2,
        write_rest-runs fuel drv minor (some t') bs offset len n d src block (src + n * bs)
            (block + n) io io1 io2 left last runs runs',
        Wrote-trans t t' bs io io1 io2 src (n * bs) d (block * bs)
            (omega (arith, s.0), omega (arith, s.1)) wrote
            (Wrote-cong t t' bs io1 io2 (src + n * bs) d d ((block + n) * bs) (block * bs + n * bs)
              refl from wrote'),
      )

  -- Where a range has no part of a first block, and where it has one.
  range_whole :
      (fuel block buffer offset len : ℕ) (tmp : Option ℕ) (io : Io)
      → offset ≡ block * bs
      → len ≡ n * bs + d
      → offset + len < 2 ^ 64
      → block + n + part d ≤ cap
      → n < fuel
      → buffer + len < 2 ^ 32
      → Separate t t' bs buffer len
      → (io' : Io) × (write_range fuel drv minor tmp (some t') bs offset len buffer io
          ≡ done (true, io'))
        × Wrote t t' bs io io' buffer len offset
  range_whole fuel block buffer offset len tmp io e l u c f v s =
      let (quot, rem) = div-mod_of offset block 0 bs (e ∙ omega arith) (omega arith) in
      let at : wrap (offset / bs) ≡ block = omega (arith, quot, c) in
      let first = write_first-whole t t' bs drv minor cap reader writer tmp block buffer io in
      let (io', runs, wrote) =
        write_rest-Wrote fuel block buffer offset len io (omega arith) u c f (omega arith)
          (omega (arith, s.0), omega (arith, s.1)) in
      (
        io',
        write_range-runs fuel drv minor tmp (some t') bs offset len block 0 buffer
            (some (buffer, block)) io io (done (true, io')) at rem first runs,
        Wrote-cong t t' bs io io' buffer (n * bs + d) len (block * bs) offset (sym l) (sym e) wrote,
      )

  range_part :
      (fuel block delta buffer offset len : ℕ) (io : Io)
      → 0 < delta
      → delta < bs
      → offset ≡ block * bs + delta
      → len ≡ bs - delta + (n * bs + d)
      → offset + len < 2 ^ 64
      → block + 1 + n + part d ≤ cap
      → n < fuel
      → buffer + len < 2 ^ 32
      → t + bs < 2 ^ 32
      → Separate t t' bs buffer len
      → (io' : Io) × (write_range fuel drv minor (some t) (some t') bs offset len buffer io
          ≡ done (true, io'))
        × Wrote t t' bs io io' buffer len offset
  range_part fuel block delta buffer offset len io p q e l u c f v w s =
      let (quot, rem) = div-mod_of offset block delta bs e q in
      let at : wrap (offset / bs) ≡ block = omega (arith, quot) in
      let (io1, runs, wrote) =
        write_first-part t t' bs drv minor cap reader writer block delta buffer io p q
          (ground arith) few w (omega arith) (omega (arith, s.0), omega (arith, s.1)) in
      let (io2, runs', wrote') =
        write_rest-Wrote fuel (block + 1) (buffer + (bs - delta)) offset len io1 (omega arith) u c f
          (omega arith) (omega (arith, s.0), omega (arith, s.1)) in
      let from : (block + 1) * bs ≡ block * bs + delta + (bs - delta) = omega arith in
      (
        io2,
        write_range-runs fuel drv minor (some t) (some t') bs offset len block delta buffer
            (some (buffer + (bs - delta), block + 1)) io io1 (done (true, io2)) at rem runs runs',
        Wrote-cong t t' bs io io2 buffer (bs - delta + (n * bs + d)) len (block * bs + delta) offset
            (sym l) (sym e)
            (Wrote-trans t t' bs io io1 io2 buffer (bs - delta) (n * bs + d) (block * bs + delta)
              (omega (arith, s.0), omega (arith, s.1)) wrote
              (Wrote-cong t t' bs io1 io2 (buffer + (bs - delta)) (n * bs + d) (n * bs + d)
                ((block + 1) * bs) (block * bs + delta + (bs - delta)) refl from wrote')),
      )

  -- A range that begins `delta` bytes into a block and does not end inside that block, if it does
  -- not begin with it: the rest of the block, `n` whole blocks and `d` bytes of the next.
  pub write_range-Wrote :
      (fuel block delta buffer offset len : ℕ) (io : Io)
      → delta < bs
      → offset ≡ block * bs + delta
      → len ≡ head_size bs delta + (n * bs + d)
      → offset + len < 2 ^ 64
      → block + part delta + n + part d ≤ cap
      → n < fuel
      → buffer + len < 2 ^ 32
      → t + bs < 2 ^ 32
      → Separate t t' bs buffer len
      → (io' : Io) × (write_range fuel drv minor (some t) (some t') bs offset len buffer io
          ≡ done (true, io'))
        × Wrote t t' bs io io' buffer len offset
  write_range-Wrote fuel block delta buffer offset len io q e l u c f v w s =
      elim (Bool-cases (delta == 0)) [
        | inl z ↦
            range_whole fuel block buffer offset len (some t) io (ground arith) (ground arith) u
              (ground arith) f v s
        | inr z ↦
            range_part fuel block delta buffer offset len io (ground arith) q e (ground arith) u
              (ground arith) f v w s
      ]

blkdev_write-runs :
    (fuel : ℕ) (drv : Driver) (tmp tmp' : Option ℕ)
    → (major minor offset len buffer d bs : ℕ) (ds : List ℕ) (b b' : BlkDev) (io io' : Io)
    → major ≤ nr_blkdev_major_types
    → b.classes major ≡ some ds
    → find_minor minor ds b ≡ some d
    → (b.dev d).block_size ≡ bs
    → write_range fuel drv minor tmp tmp' bs offset len buffer io ≡ done (true, io')
    → finish d (set_refcnt d (((b.dev d).refcnt + 1) % 2 ^ 32) b) (done (true, io'))
      ≡ done (s_ok, b', io')
    → blkdev_write fuel drv tmp tmp' major minor offset len buffer b io ≡ done (s_ok, b', io')
unfolding blkdev_write
blkdev_write-runs fuel drv tmp tmp' major minor offset len buffer d bs ds b b' io io' l e found size
      r s =
    let b1 = set_refcnt d (((b.dev d).refcnt + 1) % 2 ^ 32) b in
    let go = λ (d : ℕ) (b' : BlkDev).
      finish d b'
        (write_range fuel drv minor tmp tmp' (b'.dev d).block_size offset len buffer io) in
    let size' : (b1.dev d).block_size ≡ bs = ground (arith, size) in
    with_instance-found go major minor d ds b io l e found
    ∙ ap (λ (q : ℕ). finish d b1 (write_range fuel drv minor tmp tmp' q offset len buffer io)) size'
    ∙ ap (finish d b1) r
    ∙ s

-- For a registered instance whose reference count can be raised, a driver that reads and writes
-- blocks of the device, and two buffers of the heap apart from the buffer of the caller, where all
-- three buffers end below 4 GB: if the range begins with a block or reaches the end of the block in
-- which it begins, ends below byte 2 ^ 64, and the device, of less than 2 ^ 32 blocks, has its blocks,
-- blkdev_write ends, with one unit of fuel for each whole block and one more, and returns S_OK. Then the bytes of the range
-- are those of the buffer, all other bytes of the device are as before, no byte of memory but those
-- of the two buffers is changed, and each instance has its old reference count.
pub blkdev_write-Wrote :
    (t t' bs : ℕ) (drv : Driver) (minor cap : ℕ)
    → IsReader drv minor bs cap
    → IsWriter drv minor bs cap
    → t' + bs < 2 ^ 32
    → cap < 2 ^ 32
    → (n e major d fuel block delta buffer offset len : ℕ) (ds : List ℕ) (b : BlkDev) (io : Io)
    → e < bs
    → delta < bs
    → offset ≡ block * bs + delta
    → len ≡ head_size bs delta + (n * bs + e)
    → offset + len < 2 ^ 64
    → block + part delta + n + part e ≤ cap
    → n < fuel
    → buffer + len < 2 ^ 32
    → t + bs < 2 ^ 32
    → Separate t t' bs buffer len
    → major ≤ nr_blkdev_major_types
    → b.classes major ≡ some ds
    → find_minor minor ds b ≡ some d
    → (b.dev d).block_size ≡ bs
    → (b.dev d).refcnt + 1 < 2 ^ 32
    → (b' : BlkDev) × (io' : Io) × (blkdev_write fuel drv
          (some t)
          (some t')
          major
          minor
          offset
          len
          buffer
          b
          io
        ≡ done (s_ok, b', io'))
      × Wrote t t' bs io io' buffer len offset
      × ((i : ℕ) → (b'.dev i).refcnt ≡ (b.dev i).refcnt)
blkdev_write-Wrote t t' bs drv minor cap reader writer room few n e major d fuel block delta buffer
      offset len ds b io inside l from size fits blocks f u w s m class found same count =
    let (io', runs, wrote) =
      write_range-Wrote t t' bs drv minor cap reader writer room few n e inside fuel block delta
        buffer offset len io l from size fits blocks f u w s in
    let (b', ends, counts) = finish-counted d b io' count in
    (
      b',
      io',
      blkdev_write-runs fuel drv (some t) (some t') major minor offset len buffer d bs ds b b' io
          io' m class found same runs ends,
      wrote,
      counts,
    )
