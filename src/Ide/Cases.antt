-- ===== src/Ide/Cases.antt =====
-- ide_read_write_blocks of drivers/ide.c: what it refuses, and what it hands to the controller.
use simplix.Base.{
  ℕ, ◌+◌, ◌<◌, ◌≤◌, ◌≡◌, refl, arith, ◌⊎◌, inl, inr, true, false, ltb, leb, ◌==◌, if◌then◌else◌,
  Bool-cases,
}
use simplix.Str.{Memory}
use simplix.PhysMem.{done, wrap}
use simplix.Ide.{Machine, IdeDevice, get_ide_device}
use simplix.Ide.Transfer.{Direction, transfer, ide_read_write_blocks}

-- For a minor number below 4, the routine either does nothing at all and returns 0, or it hands the
-- first 256 blocks at most to the controller; then there is a device and a block to transfer.
pub ide_read_write_blocks-cases :
    {W : Type 0} (m : Machine W) (devices : ℕ → ℕ → IdeDevice) (minor block nblocks buf : ℕ)
    (type : Direction) (mem : Memory) (w : W)
    → minor < 4
    → let device = get_ide_device devices minor in
      let n = if ltb 256 nblocks then 256 else nblocks in
      let result = ide_read_write_blocks m devices minor block nblocks buf type mem w in
      (result ≡ done (0, mem, w))
      ⊎ ((result ≡ done (transfer m device block n buf type mem w))
          × (device.present ≡ true)
          × (0 < nblocks)
          × (wrap (block + n) ≤ device.capacity))
unfolding ide_read_write_blocks
ide_read_write_blocks-cases m devices minor block nblocks buf type mem w l =
    let device = get_ide_device devices minor in
    let n = if ltb 256 nblocks then 256 else nblocks in
    let valid : leb 4 minor ≡ false = ground arith in
    elim (Bool-cases device.present) [
      | inr e1 ↦ inl (rw (valid, e1) refl)
      | inl e1 ↦ elim (Bool-cases (nblocks == 0)) [
        | inl e2 ↦ inl (rw (valid, e1, e2) refl)
        | inr e2 ↦ elim (Bool-cases (ltb device.capacity (wrap (block + n)))) [
          | inl e3 ↦ inl (rw (valid, e1, e2, e3) refl)
          | inr e3 ↦ inr (rw (valid, e1, e2, e3) refl, e1, ground arith, ground arith)
        ]
      ]
    ]
