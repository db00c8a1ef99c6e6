-- ===== src/BlkDev/Read.antt =====
-- blkdev_read of a range of bytes.
use native.Mathlib.Nat.{div-eq_of_lt-le, mod-eq-sub-div-mul}
use simplix.Base.{
  ℕ, ◌+◌, ◌-◌, ◌*◌, ◌/◌, ◌%◌, ◌^◌, ◌≤◌, ◌<◌, ◌≡◌, refl, inl, inr, Bool, true, false, Option, some,
  List, arith, ltb, ◌==◌, if◌then◌else◌, ap, ◌∙◌, sym, Bool-cases,
}
use simplix.PhysMem.{Run, Ret, done, wrap, s_ok}
use simplix.BlkDev.{BlkDev, nr_blkdev_major_types, set_refcnt}
use simplix.BlkDev.Count.{find_minor, get_found, release_at}
use simplix.BlkDev.Io.{
  Io, Driver, read_first, read_blocks, read_last, blocks_left, last_delta, read_rest, read_range,
  finish, with_instance,
}
use simplix.BlkDev.Reader.{
  IsReader, Got, Separate, Got-trans, Got-cong, read_first-whole, read_first-part, read_blocks-Got,
  read_last-Got,
}

pub div-mod_of : (x q d bs : ℕ) → x ≡ q * bs + d → d < bs → (x / bs ≡ q) × (x % bs ≡ d)
div-mod_of x q d bs e l =
    let quot : x / bs ≡ q = div-eq_of_lt-le {k = q} bs {m = x} (omega arith) (omega arith) in
    let rem : x % bs ≡ x - q * bs = rw quot at (mod-eq-sub-div-mul x bs) in
    (quot, rem ∙ omega arith)

-- The loop and the last block, one after the other.
read_rest-runs :
    (fuel : ℕ) (drv : Driver) (minor : ℕ) (tmp : Option ℕ)
    → (bs offset len n d dst block dst' block' : ℕ) (io io1 io2 : Io)
    → blocks_left offset len bs block ≡ n
    → last_delta offset len bs ≡ d
    → read_blocks fuel drv minor bs n dst block io ≡ done (some (dst', block'), io1)
    → read_last drv minor tmp d dst' block' io1 ≡ (true, io2)
    → read_rest fuel drv minor tmp bs offset len (some (dst, block), io) ≡ done (true, io2)
unfolding read_rest
read_rest-runs fuel drv minor tmp bs offset len n d dst block dst' block' io io1 io2 left last r s =
    rw (read_rest, left, r) (rw last (rw s refl))

-- The first block and what follows it.
read_range-runs :
    (fuel : ℕ) (drv : Driver) (minor : ℕ) (tmp tmp' : Option ℕ)
    → (bs offset len block delta dst : ℕ) (p : Option (ℕ × ℕ)) (io io1 : Io) (r : Run (Bool × Io))
    → wrap (offset / bs) ≡ block
    → offset % bs ≡ delta
    → read_first drv minor tmp bs block delta dst io ≡ (p, io1)
    → read_rest fuel drv minor tmp' bs offset len (p, io1) ≡ r
    → read_range fuel drv minor tmp tmp' bs offset len dst io ≡ r
unfolding read_range
read_range-runs fuel drv minor tmp tmp' bs offset len block delta dst p io io1 r e f g h =
    rw (e, f) (rw g h)

-- The bytes of the first block that belong to a range that begins `delta` bytes into it.
abbrev pub head_size : ℕ → ℕ → ℕ
head_size bs delta = if delta == 0 then 0 else bs - delta

-- The number of the blocks in which a range begins and ends in part.
abbrev pub part : ℕ → ℕ
part delta = if delta == 0 then 0 else 1

module _ (t t' bs : ℕ) (drv : Driver) (minor cap : ℕ) (reader : IsReader drv minor bs cap)
    (few : cap < 2 ^ 32) (n d : ℕ) (inside : d < bs) where
  read_rest-Got :
      (fuel block dst offset len : ℕ) (io : Io)
      → offset + len ≡ (block + n) * bs + d
      → offset + len < 2 ^ 64
      → block + n + part d ≤ cap
      → n < fuel
      → dst + (n * bs + d) < 2 ^ 32
      → Separate t t' bs dst (n * bs + d)
      → (io' : Io) × (read_rest fuel drv minor (some t') bs offset len (some (dst, block), io)
          ≡ done (true, io'))
        × Got t t' bs io io' dst (n * bs + d) (block * bs)
  read_rest-Got fuel block dst offset len io e u c f v s =
      let (quot, rem) = div-mod_of (offset + len) (block + n) d bs e inside in
      let same : (offset + len) % 2 ^ 64 ≡ offset + len = omega arith in
      let left : blocks_left offset len bs block ≡ n = rw same (rw quot (ground arith)) in
      let last : last_delta offset len bs ≡ d = rw same rem in
      let (io1, runs, got) =
        read_blocks-Got t t' bs drv minor cap reader fuel n dst block io f (ground arith) few
          (omega arith) (omega (arith, s.0), omega (arith, s.1)) in
      let (io2, runs', got') =
        read_last-Got t t' bs drv minor cap reader (block + n) d (dst + n * bs) io1 inside
          (λ p. ground arith) (omega (arith, s.0), omega (arith, s.1)) in
      let from : (block + n) * bs ≡ block * bs + n * bs = omega arith in
      (
        io2,
        read_rest-runs fuel drv minor (some t') bs offset len n d dst block (dst + n * bs)
            (block + n) io io1 io2 left last runs runs',
        Got-trans t t' bs io io1 io2 dst (n * bs) d (block * bs)
            (omega (arith, s.0), omega (arith, s.1)) got
            (Got-cong t t' bs io1 io2 (dst + n * bs) d d ((block + n) * bs) (block * bs + n * bs)
              refl from got'),
      )

  -- Where a range has no part of a first block, and where it has one.
  range_whole :
      (fuel block buffer offset len : ℕ) (tmp : Option ℕ) (io : Io)
      → offset ≡ block * bs
      → len ≡ n * bs + d
      → offset + len < 2 ^ 64
      → block + n + part d ≤ cap
      → n < fuel
      → buffer + len < 2 ^ 32
      → Separate t t' bs buffer len
      → (io' : Io) × (read_range fuel drv minor tmp (some t') bs offset len buffer io
          ≡ done (true, io'))
        × Got t t' bs io io' buffer len offset
  range_whole fuel block buffer offset len tmp io e l u c f v s =
      let (quot, rem) = div-mod_of offset block 0 bs (e ∙ omega arith) (omega arith) in
      let at : wrap (offset / bs) ≡ block = omega (arith, quot, c) in
      let first = read_first-whole t t' bs drv minor cap reader tmp block buffer io in
      let (io', runs, got) =
        read_rest-Got fuel block buffer offset len io (omega arith) u c f (omega arith)
          (omega (arith, s.0), omega (arith, s.1)) in
      (
        io',
        read_range-runs fuel drv minor tmp (some t') bs offset len block 0 buffer
            (some (buffer, block)) io io (done (true, io')) at rem first runs,
        Got-cong t t' bs io io' buffer (n * bs + d) len (block * bs) offset (sym l) (sym e) got,
      )

  range_part :
      (fuel block delta buffer offset len : ℕ) (io : Io)
      → 0 < delta
      → delta < bs
      → offset ≡ block * bs + delta
      → len ≡ bs - delta + (n * bs + d)
      → offset + len < 2 ^ 64
      → block + 1 + n + part d ≤ cap
      → n < fuel
      → buffer + len < 2 ^ 32
      → t + bs < 2 ^ 32
      → Separate t t' bs buffer len
      → (io' : Io) × (read_range fuel drv minor (some t) (some t') bs offset len buffer io
          ≡ done (true, io'))
        × Got t t' bs io io' buffer len offset
  range_part fuel block delta buffer offset len io p q e l u c f v w s =
      let (quot, rem) = div-mod_of offset block delta bs e q in
      let at : wrap (offset / bs) ≡ block = omega (arith, quot) in
      let (io1, runs, got) =
        read_first-part t t' bs drv minor cap reader block delta buffer io p q (ground arith) few w
          (omega arith) (omega (arith, s.0), omega (arith, s.1)) in
      let (io2, runs', got') =
        read_rest-Got fuel (block + 1) (buffer + (bs - delta)) offset len io1 (omega arith) u c f
          (omega arith) (omega (arith, s.0), omega (arith, s.1)) in
      let from : (block + 1) * bs ≡ block * bs + delta + (bs - delta) = omega arith in
      (
        io2,
        read_range-runs fuel drv minor (some t) (some t') bs offset len block delta buffer
            (some (buffer + (bs - delta), block + 1)) io io1 (done (true, io2)) at rem runs runs',
        Got-cong t t' bs io io2 buffer (bs - delta + (n * bs + d)) len (block * bs + delta) offset
            (sym l) (sym e)
            (Got-trans t t' bs io io1 io2 buffer (bs - delta) (n * bs + d) (block * bs + delta)
              (omega (arith, s.0), omega (arith, s.1)) got
              (Got-cong t t' bs io1 io2 (buffer + (bs - delta)) (n * bs + d) (n * bs + d)
                ((block + 1) * bs) (block * bs + delta + (bs - delta)) refl from got')),
      )

  -- A range that begins `delta` bytes into a block and does not end inside that block, if it does
  -- not begin with it: the rest of the block, `n` whole blocks and `d` bytes of the next.
  pub read_range-Got :
      (fuel block delta buffer offset len : ℕ) (io : Io)
      → delta < bs
      → offset ≡ block * bs + delta
      → len ≡ head_size bs delta + (n * bs + d)
      → offset + len < 2 ^ 64
      → block + part delta + n + part d ≤ cap
      → n < fuel
      → buffer + len < 2 ^ 32
      → t + bs < 2 ^ 32
      → Separate t t' bs buffer len
      → (io' : Io) × (read_range fuel drv minor (some t) (some t') bs offset len buffer io
          ≡ done (true, io'))
        × Got t t' bs io io' buffer len offset
  read_range-Got fuel block delta buffer offset len io q e l u c f v w s =
      elim (Bool-cases (delta == 0)) [
        | inl z ↦
            range_whole fuel block buffer offset len (some t) io (ground arith) (ground arith) u
              (ground arith) f v s
        | inr z ↦
            range_part fuel block delta buffer offset len io (ground arith) q e (ground arith) u
              (ground arith) f v w s
      ]

-- An instance that is found, used and released.
pub with_instance-found :
    (go : ℕ → BlkDev → Run (Ret × BlkDev × Io)) (major minor d : ℕ) (ds : List ℕ) (b : BlkDev)
    (io : Io)
    → major ≤ nr_blkdev_major_types
    → b.classes major ≡ some ds
    → find_minor minor ds b ≡ some d
    → with_instance go major minor b io ≡ go d (set_refcnt d (((b.dev d).refcnt + 1) % 2 ^ 32) b)
with_instance-found go major minor d ds b io l e found =
    let ok : ltb nr_blkdev_major_types major ≡ false = ground arith in
    let get = get_found minor d ds b found in
    rw ok (rw e (rw get (ap (λ (p : Option ℕ × BlkDev). go d p.1) get)))

pub finish-counted :
    (d : ℕ) (b : BlkDev) (io : Io)
    → (b.dev d).refcnt + 1 < 2 ^ 32
    → (b' : BlkDev) × (finish d (set_refcnt d (((b.dev d).refcnt + 1) % 2 ^ 32) b) (done (true, io))
        ≡ done (s_ok, b', io))
      × ((i : ℕ) → (b'.dev i).refcnt ≡ (b.dev i).refcnt)
finish-counted d b io small =
    let b1 = set_refcnt d (((b.dev d).refcnt + 1) % 2 ^ 32) b in
    let count : (b1.dev d).refcnt ≡ (b.dev d).refcnt + 1 = ground arith in
    (
      set_refcnt d (b.dev d).refcnt b1,
      rw (finish, release_at d (b.dev d).refcnt b1 count) refl,
      λ i. ground arith,
    )
