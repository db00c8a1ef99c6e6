-- ===== src/Ide/Address.antt =====
-- The block address that ide_read_write_blocks sends to a controller.
use native.Mathlib.Nat.{div-lt_iff_lt-mul, mul-le-mul_right}
use simplix.Base.{
  div-mod, ℕ, ◌+◌, ◌-◌, ◌*◌, ◌/◌, ◌%◌, ◌^◌, ◌≤◌, ◌<◌, ◌≡◌, inl, inr, true, false, arith,
  if◌then◌else◌, Bool-cases, ◌∙◌,
}
use simplix.PhysMem.{wrap}
use simplix.Ide.{IdeDevice}

-- The registers: sector number, low and high byte of the cylinder, and head. Each has 8 bits.
pub record Address : Type 0 where
  pub sc : ℕ
  pub cl : ℕ
  pub ch : ℕ
  pub hd : ℕ

unfoldable pub block_address : IdeDevice → ℕ → Address
block_address device block =
    if device.lba
    then record {
      sc = block % 2 ^ 8;
      cl = block / 2 ^ 8 % 2 ^ 8;
      ch = block / 2 ^ 16 % 2 ^ 8;
      hd = block / 2 ^ 24 % 2 ^ 4;
    }
    else (let per_cylinder = wrap (device.heads * device.sectors) in
        let cyl = block / per_cylinder in
        let tmp = block % per_cylinder in
        record {
          sc = (tmp % device.sectors + 1) % 2 ^ 8;
          cl = cyl % 2 ^ 8;
          ch = cyl / 2 ^ 8 % 2 ^ 8;
          hd = tmp / device.sectors % 2 ^ 8;
        })

-- The block that a drive finds at an address, by the ATA standard.
abbrev pub addressed : IdeDevice → Address → ℕ
addressed device a =
    if device.lba
    then a.sc + a.cl * 2 ^ 8 + a.ch * 2 ^ 16 + a.hd * 2 ^ 24
    else ((a.ch * 2 ^ 8 + a.cl) * device.heads + a.hd) * device.sectors + (a.sc - 1)

-- The bounds of the standard for the geometry of a drive, and for its number of blocks.
pub record IsGeometry (device : IdeDevice) : Type 0 where
  pub heads_pos : 0 < device.heads
  pub heads_le : device.heads ≤ 16
  pub sectors_pos : 0 < device.sectors
  pub sectors_le : device.sectors < 2 ^ 8
  pub lba_le : device.lba ≡ true → device.capacity ≤ 2 ^ 28
  pub chs_le : device.lba ≡ false → device.capacity ≤ 2 ^ 16 * (device.heads * device.sectors)

-- A cylinder, a head and a sector put together again.
recompose :
    (c h r heads sectors : ℕ)
    → c < 2 ^ 16
    → h < 2 ^ 8
    → r + 1 < 2 ^ 8
    → ((c / 2 ^ 8 % 2 ^ 8 * 2 ^ 8 + c % 2 ^ 8) * heads + h % 2 ^ 8) * sectors
        + ((r + 1) % 2 ^ 8 - 1)
      ≡ c * (heads * sectors) + (h * sectors + r)
recompose c h r heads sectors p q l =
    let cyl : c / 2 ^ 8 % 2 ^ 8 * 2 ^ 8 + c % 2 ^ 8 ≡ c = omega arith in
    let head : h % 2 ^ 8 ≡ h = omega arith in
    let sector : (r + 1) % 2 ^ 8 - 1 ≡ r = omega arith in rw (cyl, head, sector) (omega arith)

-- The three numbers of a block.
cylinder-head-sector :
    (block heads sectors : ℕ)
    → 0 < heads
    → heads ≤ 16
    → 0 < sectors
    → sectors < 2 ^ 8
    → block < 2 ^ 16 * (heads * sectors)
    → let p = wrap (heads * sectors) in
      (((block / p / 2 ^ 8 % 2 ^ 8 * 2 ^ 8 + block / p % 2 ^ 8) * heads
              + block % p / sectors % 2 ^ 8)
            * sectors
          + ((block % p % sectors + 1) % 2 ^ 8 - 1)
        ≡ block)
      × (0 < (block % p % sectors + 1) % 2 ^ 8)
      × ((block % p % sectors + 1) % 2 ^ 8 ≤ sectors)
      × (block % p / sectors % 2 ^ 8 < heads)
cylinder-head-sector block heads sectors hp hl sp sl l =
    let few : heads * sectors ≤ 16 * sectors = mul-le-mul_right sectors hl in
    let some_ : 1 * sectors ≤ heads * sectors = mul-le-mul_right sectors hp in
    let whole : wrap (heads * sectors) ≡ heads * sectors = omega (arith, few) in
    let (c, t, e1, e2, e3, t_lt) = div-mod block (heads * sectors) (omega (arith, some_)) in
    let (h, r, f1, f2, f3, r_lt) = div-mod t sectors sp in
    let c_lt : c < 2 ^ 16 = rw e1 at (
      (div-lt_iff_lt-mul {k = heads * sectors} {x = block} {y = 2 ^ 16} (omega (arith, some_))).1
        l) in
    let h_lt : h < heads =
      rw f1 at ((div-lt_iff_lt-mul {k = sectors} {x = t} {y = heads} sp).1 t_lt) in
    rw whole (
      rw (e1, e2)
        (rw (f1, f2)
          (
            recompose c h r heads sectors c_lt (omega arith) (omega arith) ∙ omega (arith, e3, f3),
            omega arith,
            omega arith,
            omega arith,
          )))

-- For a block of the drive, the address that is sent is that of the block. Where the drive is
-- addressed by cylinders, the sector number is between 1 and the number of sectors, and the head
-- is one of its heads.
pub addressed-block_address :
    (device : IdeDevice) (block : ℕ)
    → IsGeometry device
    → block < device.capacity
    → (addressed device (block_address device block) ≡ block)
      × (device.lba ≡ false
          → (0 < (block_address device block).sc)
            × ((block_address device block).sc ≤ device.sectors)
            × ((block_address device block).hd < device.heads))
unfolding block_address
addressed-block_address device block g l = elim (Bool-cases device.lba) [
  | inl e ↦ rw e (omega arith, λ n. cc)
  | inr e ↦ rw e (
      let (at, low, high, head) =
        cylinder-head-sector block device.heads device.sectors g.heads_pos g.heads_le g.sectors_pos
          g.sectors_le (omega (arith, g.chs_le e)) in
      (at, λ _. (low, high, head)))
]
