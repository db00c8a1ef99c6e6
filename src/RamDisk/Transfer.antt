-- ===== src/RamDisk/Transfer.antt =====
-- What the block functions of drivers/ramdisk.c read and write.
use simplix.Base.{
  ℕ, ◌+◌, ◌-◌, ◌*◌, ◌^◌, ◌≤◌, ◌<◌, ◌≡◌, refl, ap, ◌∙◌, ◌⊎◌, inl, inr, Bool, true, false, none, some,
  List, ◌&&◌, arith, ltb, leb, if◌then◌else◌,
}
use simplix.Str.{Memory, memcpy}
use simplix.Str.Block.{memcpy_lem}
use simplix.RamDisk.{
  Ramdisk, block_size, wrap, get_ramdisk_instance, ramdisk_read_write_blocks, ramdisk_read_blocks,
  ramdisk_write_blocks,
}

-- The blocks from `block` on lie on the disk, which lies in the 32-bit address space.
abbrev pub IsOnDisk : Ramdisk → ℕ → ℕ → Type 0
IsOnDisk rd block n = (block + n ≤ rd.nblocks) × (rd.addr + rd.nblocks * block_size < 2 ^ 32)

-- The first address of a block.
abbrev pub block_addr : Ramdisk → ℕ → ℕ
block_addr rd block = rd.addr + block * block_size

in_range :
    (d n i : ℕ) (before after : Memory) (s : ℕ)
    → i < n
    → after (d + i)
      ≡ (if leb d (d + i) && ltb (d + i) (d + n) then before (s + (d + i - d)) else before (d + i))
    → after (d + i) ≡ before (s + i)
in_range d n i before after s h is =
    let e : before (s + (d + i - d)) ≡ before (s + i) = ap before (omega arith) in ground arith

module _ (rds : List Ramdisk) (minor : ℕ) (rd : Ramdisk)
    (known : get_ramdisk_instance minor rds ≡ some rd) (block n : ℕ) where
  transfer_known :
      (w : Bool) (buffer : ℕ) (mem : Memory)
      → ramdisk_read_write_blocks minor block n buffer w rds mem ≡ (
          if ltb rd.nblocks (wrap (block + n))
          then (0, mem)
          else (let addr = wrap (rd.addr + wrap (block * block_size)) in
              let size = wrap (n * block_size) in
              (n, if w then memcpy addr buffer size mem else memcpy buffer addr size mem)))
  unfolding ramdisk_read_write_blocks
  transfer_known w buffer mem = rw (ramdisk_read_write_blocks, known) refl

module _ (rds : List Ramdisk) (minor : ℕ) (rd : Ramdisk)
    (known : get_ramdisk_instance minor rds ≡ some rd) (block n : ℕ)
    (on : IsOnDisk rd block n) where
  transfer_at :
      (w : Bool) (buffer : ℕ) (mem : Memory)
      → ramdisk_read_write_blocks minor block n buffer w rds mem ≡ (
        n,
        if w
            then memcpy (block_addr rd block) buffer (n * block_size) mem
            else memcpy buffer (block_addr rd block) (n * block_size) mem,
      )
  transfer_at w buffer mem =
      let fits : ltb rd.nblocks (wrap (block + n)) ≡ false = ground arith in
      let at : wrap (rd.addr + wrap (block * block_size)) ≡ block_addr rd block = omega arith in
      let size : wrap (n * block_size) ≡ n * block_size = omega arith in
      transfer_known rds minor rd known block n w buffer mem ∙ rw (fits, at, size) refl

  write_at :
      (buffer : ℕ) (mem : Memory)
      → ramdisk_write_blocks minor block n buffer rds mem
        ≡ (n, memcpy (block_addr rd block) buffer (n * block_size) mem)
  unfolding ramdisk_write_blocks
  write_at buffer mem = transfer_at true buffer mem

  read_at :
      (buffer : ℕ) (mem : Memory)
      → ramdisk_read_blocks minor block n buffer rds mem
        ≡ (n, memcpy buffer (block_addr rd block) (n * block_size) mem)
  unfolding ramdisk_read_blocks
  read_at buffer mem = transfer_at false buffer mem

  -- Blocks that are written to a RAM disk from a buffer outside the blocks, and then read into a
  -- buffer outside them, are the bytes of the first buffer; both calls return the number of blocks,
  -- and the read changes nothing but its buffer.
  pub ramdisk_read_blocks-ramdisk_write_blocks :
      (src dst : ℕ) (mem : Memory)
      → (src + n * block_size ≤ block_addr rd block) ⊎ (block_addr rd (block + n) ≤ src)
      → (dst + n * block_size ≤ block_addr rd block) ⊎ (block_addr rd (block + n) ≤ dst)
      → (mem1 mem2 : Memory) × (ramdisk_write_blocks minor block n src rds mem ≡ (n, mem1))
        × (ramdisk_read_blocks minor block n dst rds mem1 ≡ (n, mem2))
        × ((i : ℕ) → i < n * block_size → mem2 (dst + i) ≡ mem (src + i))
        × ((j : ℕ) → (leb dst j && ltb j (dst + n * block_size)) ≡ false → mem2 j ≡ mem1 j)
  ramdisk_read_blocks-ramdisk_write_blocks src dst mem out out' =
      let size = n * block_size in
      let a = block_addr rd block in
      let mem1 = memcpy a src size mem in
      let mem2 = memcpy dst a size mem1 in
      let wrote : (i : ℕ)
          → mem1 i ≡ (if leb a i && ltb i (a + size) then mem (src + (i - a)) else mem i) =
        λ i. memcpy_lem a src size mem i (omega arith) in
      let read : (i : ℕ)
          → mem2 i ≡ (if leb dst i && ltb i (dst + size) then mem1 (a + (i - dst)) else mem1 i) =
        λ i. memcpy_lem dst a size mem1 i (omega arith) in
      (
        mem1,
        mem2,
        write_at src mem,
        read_at dst mem1,
        λ i h.
            in_range dst size i mem1 mem2 a h (read (dst + i))
            ∙ in_range a size i mem mem1 src h (wrote (a + i)),
        λ j h. read j ∙ rw h refl,
      )

-- Without such a disk, and for blocks that reach beyond its end by less than the 32-bit range, a
-- read and a write return 0 and leave the memory as it is.
pub ramdisk_read_write_blocks-refused :
    (rds : List Ramdisk) (minor block n buffer : ℕ) (w : Bool) (mem : Memory)
    → (get_ramdisk_instance minor rds ≡ none)
      ⊎ (rd : Ramdisk) × (get_ramdisk_instance minor rds ≡ some rd)
        × (rd.nblocks < block + n)
        × (block + n < 2 ^ 32)
    → ramdisk_read_write_blocks minor block n buffer w rds mem ≡ (0, mem)
unfolding ramdisk_read_write_blocks
ramdisk_read_write_blocks-refused rds minor block n buffer w mem (inl e) =
    rw (ramdisk_read_write_blocks, e) refl
ramdisk_read_write_blocks-refused rds minor block n buffer w mem (inr (rd, e, beyond, small)) =
    let far : ltb rd.nblocks (wrap (block + n)) ≡ true = ground arith in
    transfer_known rds minor rd e block n w buffer mem ∙ rw far refl

-- The check is no protection from block numbers near 2 ^ 32, where the sum of the block number and
-- the count wraps around: the write goes to the memory before the disk.
pub ramdisk_write_blocks-wraps :
    (rds : List Ramdisk) (minor n buffer : ℕ) (rd : Ramdisk) (mem : Memory)
    → get_ramdisk_instance minor rds ≡ some rd
    → 0 < n
    → n * block_size ≤ rd.addr
    → rd.addr < 2 ^ 32
    → ramdisk_write_blocks minor (2 ^ 32 - n) n buffer rds mem
      ≡ (n, memcpy (rd.addr - n * block_size) buffer (n * block_size) mem)
unfolding ramdisk_write_blocks
ramdisk_write_blocks-wraps rds minor n buffer rd mem known pos low small =
    let fits : ltb rd.nblocks (wrap (2 ^ 32 - n + n)) ≡ false = ground arith in
    let at : wrap (rd.addr + wrap ((2 ^ 32 - n) * block_size)) ≡ rd.addr - n * block_size =
      omega arith in
    let size : wrap (n * block_size) ≡ n * block_size = omega arith in
    transfer_known rds minor rd known (2 ^ 32 - n) n true buffer mem ∙ rw (fits, at, size) refl
