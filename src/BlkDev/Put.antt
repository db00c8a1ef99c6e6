-- ===== src/BlkDev/Put.antt =====
-- blkdev_write of kernel/blkdev.c. A part of a block is read, changed in a buffer and written back.
use simplix.Base.{
  ℕ, zero, suc, ◌+◌, ◌-◌, ◌*◌, ◌/◌, ◌%◌, ◌^◌, Bool, true, false, Option, none, some, ◌==◌,
  if◌then◌else◌,
}
use simplix.PhysMem.{Ret, Run, done, panic, out_of_fuel, wrap}
use simplix.BlkDev.{BlkDev}
use simplix.BlkDev.Io.{Io, Driver, copy, read_one, blocks_left, last_delta, finish, with_instance}

-- One block with `n` bytes changed, from byte `delta` on: a success or not.
unfoldable pub write_one : Driver → ℕ → Option ℕ → ℕ → ℕ → ℕ → ℕ → Io → Bool × Io
write_one drv minor tmp block delta n src io =
    let (t, io1) = read_one drv minor tmp block io in
    elim t [
      | none ↦ (false, io1)
      | some t ↦
          (let (k, io2) =
              drv.blkdev_write_impl minor block 1 t (copy (wrap (t + delta)) src n io1) in
            if k == 0 then (false, io2) else (true, io2))
    ]

-- The part of the first block: where to go on in memory and on the device.
unfoldable pub write_first : Driver → ℕ → Option ℕ → ℕ → ℕ → ℕ → ℕ → Io → Option (ℕ × ℕ) × Io
write_first drv minor tmp block_size block delta src io =
    let (ok, io') = write_one drv minor tmp block delta (block_size - delta) src io in
    if delta == 0
    then (some (src, block), io)
    else if ok
    then (some (wrap (src + (block_size - delta)), wrap (block + 1)), io')
    else (none, io')

-- The loop over the blocks that are written in full, on fuel.
unfoldable pub write_blocks : ℕ → Driver → ℕ → ℕ → ℕ → ℕ → ℕ → Io → Run (Option (ℕ × ℕ) × Io)
write_blocks zero drv minor block_size nblocks src block io = out_of_fuel
write_blocks (suc fuel) drv minor block_size nblocks src block io =
    let (n, io') = drv.blkdev_write_impl minor block nblocks src io in
    let rest =
      write_blocks fuel drv minor block_size (wrap (nblocks + 2 ^ 32 - n))
        (wrap (src + wrap (n * block_size))) (wrap (block + n)) io' in
    if nblocks == 0 then done (some (src, block), io) else if n == 0 then done (none, io') else rest

unfoldable pub write_last : Driver → ℕ → Option ℕ → ℕ → ℕ → ℕ → Io → Bool × Io
write_last drv minor tmp delta src block io =
    let r = write_one drv minor tmp block 0 delta src io in if delta == 0 then (true, io) else r

-- What follows the part of the first block.
unfoldable pub write_rest :
    ℕ → Driver → ℕ → Option ℕ → ℕ → ℕ → ℕ → Option (ℕ × ℕ) × Io → Run (Bool × Io)
write_rest fuel drv minor tmp block_size offset len (none, io) = done (false, io)
write_rest fuel drv minor tmp block_size offset len (some (src, block), io) =
    elim (write_blocks fuel drv minor block_size (blocks_left offset len block_size block) src block
      io) [
        | panic ↦ panic
        | out_of_fuel ↦ out_of_fuel
        | done (none, io') ↦ done (false, io')
        | done (some (src', block'), io') ↦
            done (write_last drv minor tmp (last_delta offset len block_size) src' block' io')
      ]

unfoldable pub write_range :
    ℕ → Driver → ℕ → Option ℕ → Option ℕ → ℕ → ℕ → ℕ → ℕ → Io → Run (Bool × Io)
write_range fuel drv minor tmp tmp' block_size offset len src io =
    write_rest fuel drv minor tmp' block_size offset len (
      write_first drv minor tmp block_size (wrap (offset / block_size)) (offset % block_size) src
        io)

unfoldable pub blkdev_write :
    ℕ → Driver → Option ℕ → Option ℕ → ℕ → ℕ → ℕ → ℕ → ℕ → BlkDev → Io → Run (Ret × BlkDev × Io)
blkdev_write fuel drv tmp tmp' major minor offset len buffer b io =
    with_instance
      (λ d b'.
        finish d b'
          (write_range fuel drv minor tmp tmp' (b'.dev d).block_size offset len buffer io))
      major minor b io
