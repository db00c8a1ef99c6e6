-- ===== src/BlkDev/Io.antt =====
-- blkdev_read and blkdev_write of kernel/blkdev.c.
-- The functions of the driver are a parameter, as the code calls them through the pointers of the
-- class; so are the answers of the heap, for the buffer of a first block and that of a last one.
-- An operation that fails may have read or written some blocks, so a failure keeps the state.
use simplix.Base.{
  ℕ, zero, suc, ◌+◌, ◌-◌, ◌*◌, ◌/◌, ◌%◌, ◌^◌, Bool, true, false, Option, none, some, ltb, ◌==◌,
  if◌then◌else◌,
}
use simplix.Str.{Memory, memcpy}
use simplix.PhysMem.{Ret, s_ok, e_fail, e_invalidarg, Run, done, panic, out_of_fuel, wrap}
use simplix.BlkDev.{BlkDev, nr_blkdev_major_types, get_blkdev_instance, release_blkdev_instance}

-- The memory, and the bytes of the device.
pub record Io : Type 0 where
  pub memory : Memory
  pub disk : Memory

-- The functions of a class, which get a minor number, a block, a number of blocks and an address,
-- and return the number of blocks that they have read or written.
pub record Driver : Type 0 where
  pub blkdev_read_impl : ℕ → ℕ → ℕ → ℕ → Io → ℕ × Io
  pub blkdev_write_impl : ℕ → ℕ → ℕ → ℕ → Io → ℕ × Io

abbrev pub copy : ℕ → ℕ → ℕ → Io → Io
copy dst src n io = record io { memory = memcpy dst src n io.memory }

-- One block into a buffer of the heap: the buffer, or `none` where the heap or the driver fails.
unfoldable pub read_one : Driver → ℕ → Option ℕ → ℕ → Io → Option ℕ × Io
read_one drv minor none block io = (none, io)
read_one drv minor (some tmp) block io =
    let (n, io') = drv.blkdev_read_impl minor block 1 tmp io in
    if n == 0 then (none, io') else (some tmp, io')

-- The part of the first block: where to go on in memory and on the device.
unfoldable pub read_first : Driver → ℕ → Option ℕ → ℕ → ℕ → ℕ → ℕ → Io → Option (ℕ × ℕ) × Io
read_first drv minor tmp block_size block delta dst io =
    let (t, io') = read_one drv minor tmp block io in
    if delta == 0 then (some (dst, block), io) else elim t [
      | none ↦ (none, io')
      | some t ↦ (
        some (wrap (dst + (block_size - delta)), wrap (block + 1)),
        copy dst (wrap (t + delta)) (block_size - delta) io',
      )
    ]

-- The loop over the blocks that are read in full, on fuel.
unfoldable pub read_blocks : ℕ → Driver → ℕ → ℕ → ℕ → ℕ → ℕ → Io → Run (Option (ℕ × ℕ) × Io)
read_blocks zero drv minor block_size nblocks dst block io = out_of_fuel
read_blocks (suc fuel) drv minor block_size nblocks dst block io =
    let (n, io') = drv.blkdev_read_impl minor block nblocks dst io in
    let rest =
      read_blocks fuel drv minor block_size (wrap (nblocks + 2 ^ 32 - n))
        (wrap (dst + wrap (n * block_size))) (wrap (block + n)) io' in
    if nblocks == 0 then done (some (dst, block), io) else if n == 0 then done (none, io') else rest

unfoldable pub read_last : Driver → ℕ → Option ℕ → ℕ → ℕ → ℕ → Io → Bool × Io
read_last drv minor tmp delta dst block io =
    let (t, io') = read_one drv minor tmp block io in
    if delta == 0
    then (true, io)
    else elim t [ none ↦ (false, io') | some t ↦ (true, copy dst t delta io') ]

-- The number of blocks behind block `block`, in 32 bits; the sum has 64.
abbrev pub blocks_left : ℕ → ℕ → ℕ → ℕ → ℕ
blocks_left offset len block_size block =
    wrap (wrap ((offset + len) % 2 ^ 64 / block_size) + 2 ^ 32 - block)

abbrev pub last_delta : ℕ → ℕ → ℕ → ℕ
last_delta offset len block_size = (offset + len) % 2 ^ 64 % block_size

-- What follows the part of the first block.
unfoldable pub read_rest :
    ℕ → Driver → ℕ → Option ℕ → ℕ → ℕ → ℕ → Option (ℕ × ℕ) × Io → Run (Bool × Io)
read_rest fuel drv minor tmp block_size offset len (none, io) = done (false, io)
read_rest fuel drv minor tmp block_size offset len (some (dst, block), io) =
    elim (read_blocks fuel drv minor block_size (blocks_left offset len block_size block) dst block
      io) [
        | panic ↦ panic
        | out_of_fuel ↦ out_of_fuel
        | done (none, io') ↦ done (false, io')
        | done (some (dst', block'), io') ↦
            done (read_last drv minor tmp (last_delta offset len block_size) dst' block' io')
      ]

-- From the block size on, to the label `error` or the end.
unfoldable pub read_range :
    ℕ → Driver → ℕ → Option ℕ → Option ℕ → ℕ → ℕ → ℕ → ℕ → Io → Run (Bool × Io)
read_range fuel drv minor tmp tmp' block_size offset len dst io =
    read_rest fuel drv minor tmp' block_size offset len (
      read_first drv minor tmp block_size (wrap (offset / block_size)) (offset % block_size) dst io)

-- `release_blkdev_instance(dev); return ...`
abbrev pub finish : ℕ → BlkDev → Run (Bool × Io) → Run (Ret × BlkDev × Io)
finish d b panic = panic
finish d b out_of_fuel = out_of_fuel
finish d b (done (ok, io)) = elim (release_blkdev_instance d b) [
  | done b' ↦ done (if ok then s_ok else e_fail, b', io)
  | panic ↦ panic
  | out_of_fuel ↦ out_of_fuel
]

-- The checks that both functions begin with.
abbrev pub with_instance :
    (ℕ → BlkDev → Run (Ret × BlkDev × Io)) → ℕ → ℕ → BlkDev → Io → Run (Ret × BlkDev × Io)
with_instance go major minor b io =
    if ltb nr_blkdev_major_types major then done (e_invalidarg, b, io) else elim (b.classes major) [
      | none ↦ done (e_invalidarg, b, io)
      | some ds ↦
          (let (d, b') = get_blkdev_instance minor ds b in
            elim d [ none ↦ done (e_invalidarg, b, io) | some d ↦ go d b' ])
    ]

unfoldable pub blkdev_read :
    ℕ → Driver → Option ℕ → Option ℕ → ℕ → ℕ → ℕ → ℕ → ℕ → BlkDev → Io → Run (Ret × BlkDev × Io)
blkdev_read fuel drv tmp tmp' major minor offset len buffer b io =
    with_instance
      (λ d b'.
        finish d b' (read_range fuel drv minor tmp tmp' (b'.dev d).block_size offset len buffer io))
      major minor b io
