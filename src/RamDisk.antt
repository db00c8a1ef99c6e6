-- ===== src/RamDisk.antt =====
-- The RAM disk driver, drivers/ramdisk.c: the transfer of blocks.
-- The list of instances is the list of the elements that its ring stands for, in order. Block
-- numbers, sizes and addresses have 32 bits, with the wrap-around written out.
pub mod Transfer
pub mod Driver
pub mod Created
mod Tests
use simplix.Base.{
  ℕ, ◌+◌, ◌*◌, ◌%◌, ◌^◌, Bool, true, false, Option, none, some, List, [], ◌∷◌, ltb, ◌==◌,
  if◌then◌else◌,
}
use simplix.Str.{Memory, memcpy}

pub record Ramdisk : Type 0 where
  pub minor : ℕ
  pub addr : ℕ
  pub nblocks : ℕ

abbrev pub block_size : ℕ
block_size = 512

abbrev pub wrap : ℕ → ℕ
wrap n = n % 2 ^ 32

unfoldable pub get_ramdisk_instance : ℕ → List Ramdisk → Option Ramdisk
get_ramdisk_instance minor [] = none
get_ramdisk_instance minor (rd ∷ rds) =
    if rd.minor == minor then some rd else get_ramdisk_instance minor rds

-- The number of blocks that the call returns, and the memory after it. The buffer is an address.
unfoldable pub ramdisk_read_write_blocks : ℕ → ℕ → ℕ → ℕ → Bool → List Ramdisk → Memory → ℕ × Memory
unfolding get_ramdisk_instance
ramdisk_read_write_blocks minor block nblocks buffer w rds mem =
    elim (get_ramdisk_instance minor rds) [
      | none ↦ (0, mem)
      | some rd ↦
          if ltb rd.nblocks (wrap (block + nblocks))
          then (0, mem)
          else (let addr = wrap (rd.addr + wrap (block * block_size)) in
              let size = wrap (nblocks * block_size) in
              (nblocks, if w then memcpy addr buffer size mem else memcpy buffer addr size mem))
    ]

unfoldable pub ramdisk_read_blocks : ℕ → ℕ → ℕ → ℕ → List Ramdisk → Memory → ℕ × Memory
unfolding ramdisk_read_write_blocks
ramdisk_read_blocks minor block nblocks buffer rds mem =
    ramdisk_read_write_blocks minor block nblocks buffer false rds mem

unfoldable pub ramdisk_write_blocks : ℕ → ℕ → ℕ → ℕ → List Ramdisk → Memory → ℕ × Memory
unfolding ramdisk_read_write_blocks
ramdisk_write_blocks minor block nblocks buffer rds mem =
    ramdisk_read_write_blocks minor block nblocks buffer true rds mem
