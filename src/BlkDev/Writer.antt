-- ===== src/BlkDev/Writer.antt =====
-- The steps of blkdev_write, with a driver that reads and writes what it is asked to.
use mathlib.Core.Path.{subst}
use simplix.Base.{
  ℕ, zero, suc, ◌+◌, ◌-◌, ◌*◌, ◌^◌, ◌≤◌, ◌<◌, ◌≡◌, refl, inl, inr, ◌⊎◌, Bool, true, false, ◌||◌,
  Option, some, arith, ◌==◌, if◌then◌else◌, ap, ◌∙◌, sym, Bool-cases,
}
use simplix.Str.{memcpy}
use simplix.Str.Block.{memcpy_lem}
use simplix.PhysMem.{done, wrap}
use simplix.BlkDev.Io.{Io, Driver, copy, read_one}
use simplix.BlkDev.Put.{write_one, write_first, write_blocks, write_last}
use simplix.BlkDev.Reader.{IsReader, Separate, is_in, read_one-some}

-- A driver of a device with `capacity` blocks: where it is asked to write blocks of the device, it
-- writes at least one of them, possibly not all, and no other byte.
abbrev pub IsWriter : Driver → ℕ → ℕ → ℕ → Type 0
IsWriter drv minor block_size capacity =
    (block n src : ℕ) (io : Io)
    → 0 < n
    → block + n ≤ capacity
    → let (k, io') = drv.blkdev_write_impl minor block n src io in
      (0 < k)
      × (k ≤ n)
      × (io'.memory ≡ io.memory)
      × ((j : ℕ)
          → io'.disk j ≡ (
              if is_in (block * block_size) (k * block_size) j
              then io.memory (src + (j - block * block_size))
              else io.disk j))

-- The `size` bytes from `to` on of the device are those that were in memory at `src`, and its
-- other bytes are as before; of the bytes of memory only those of the two buffers of the heap may
-- have changed.
abbrev pub Wrote : ℕ → ℕ → ℕ → Io → Io → ℕ → ℕ → ℕ → Type 0
Wrote t t' block_size io io' src size to =
    ((j : ℕ) → is_in to size j ≡ true → io'.disk j ≡ io.memory (src + (j - to)))
    × ((j : ℕ) → is_in to size j ≡ false → io'.disk j ≡ io.disk j)
    × ((j : ℕ)
        → (is_in t block_size j || is_in t' block_size j) ≡ false
        → io'.memory j ≡ io.memory j)

module _ (t t' bs : ℕ) where
  pub Wrote-refl : (io : Io) (src to : ℕ) → Wrote t t' bs io io src 0 to
  Wrote-refl io src to = (λ j h. absurd (ground arith), λ j h. refl, λ j h. refl)

  pub Wrote-cong :
      (io io' : Io) (src m n to to' : ℕ)
      → m ≡ n
      → to ≡ to'
      → Wrote t t' bs io io' src m to
      → Wrote t t' bs io io' src n to'
  Wrote-cong io io' src m n to to' e f g = rw (e, f) at g

  pub Wrote-trans :
      (io io1 io2 : Io) (src m n to : ℕ)
      → Separate t t' bs (src + m) n
      → Wrote t t' bs io io1 src m to
      → Wrote t t' bs io1 io2 (src + m) n (to + m)
      → Wrote t t' bs io io2 src (m + n) to
  Wrote-trans io io1 io2 src m n to (s, s') (new, old, kept) (new', old', kept') = (
    λ j h. elim (Bool-cases (is_in to m j)) [
      | inl i ↦ old' j (ground arith) ∙ new j i
      | inr i ↦
          new' j (ground arith)
          ∙ kept (src + m + (j - (to + m))) (ground arith)
          ∙ ap io.memory (ground arith)
    ],
    λ j h. old' j (ground arith) ∙ old j (ground arith),
    λ j k. kept' j k ∙ kept j k,
  )

  module _ (drv : Driver) (minor cap : ℕ) (reader : IsReader drv minor bs cap)
      (writer : IsWriter drv minor bs cap) where
    -- A block that is read into the buffer `q`, changed there and written back.
    patched-Wrote :
        (q block delta n src : ℕ) (io io1 io3 : Io)
        → q ≡ t ⊎ q ≡ t'
        → delta + n ≤ bs
        → (q + bs ≤ src ⊎ src + n ≤ q)
        → io1.disk ≡ io.disk
        → ((j : ℕ)
            → io1.memory j ≡ (if is_in q bs j then io.disk (block * bs + (j - q)) else io.memory j))
        → io3.memory ≡ memcpy (q + delta) src n io1.memory
        → ((j : ℕ)
            → io3.disk j ≡ (
                if is_in (block * bs) bs j
                then memcpy (q + delta) src n io1.memory (q + (j - block * bs))
                else io1.disk j))
        → Wrote t t' bs io io3 src n (block * bs + delta)
    patched-Wrote q block delta n src io io1 io3 w l apart e1 h1 e3 h3 =
        let copied = λ (j : ℕ). memcpy_lem (q + delta) src n io1.memory j (omega (arith, apart)) in
        let disks = λ (j : ℕ). ap (λ (f : ℕ → ℕ). f j) e1 in
        (
          λ j i.
              let from : src + (q + (j - block * bs) - (q + delta))
                  ≡ src + (j - (block * bs + delta)) =
                ground arith in
              h3 j
              ∙ ground (
                arith,
                copied (q + (j - block * bs)),
                ap io1.memory from,
                h1 (src + (j - (block * bs + delta))),
              ),
          λ j i.
              let back : is_in (block * bs) bs j ≡ true
                  → io.disk (block * bs + (q + (j - block * bs) - q)) ≡ io.disk j =
                λ k. ap io.disk (ground arith) in
              h3 j
              ∙ ground
                  (arith, copied (q + (j - block * bs)), h1 (q + (j - block * bs)), disks j, back),
          λ j k. ap (λ (f : ℕ → ℕ). f j) e3 ∙ copied j ∙ ground (arith, h1 j, w),
        )

    write_one-runs :
        (q block delta n src : ℕ) (io : Io)
        → let (r, io1) = read_one drv minor (some q) block io in
          r ≡ some q
          → wrap (q + delta) ≡ q + delta
          → (drv.blkdev_write_impl minor block 1 q (copy (q + delta) src n io1)).0 ≡ 1
          → write_one drv minor (some q) block delta n src io
            ≡ (true, (drv.blkdev_write_impl minor block 1 q (copy (q + delta) src n io1)).1)
    unfolding write_one
    write_one-runs q block delta n src io runs at one = rw (write_one, runs) (rw at (rw one refl))

    write_one-Wrote :
        (q block delta n src : ℕ) (io : Io)
        → q ≡ t ⊎ q ≡ t'
        → delta + n ≤ bs
        → (q + bs ≤ src ⊎ src + n ≤ q)
        → q + bs < 2 ^ 32
        → block < cap
        → let (ok, io') = write_one drv minor (some q) block delta n src io in
          (ok ≡ true) × Wrote t t' bs io io' src n (block * bs + delta)
    write_one-Wrote q block delta n src io w l apart u c =
        let io1 : Io = (read_one drv minor (some q) block io).1 in
        let (runs, e1, h1) = read_one-some t t' bs drv minor cap reader block q io c in
        let io2 : Io = copy (q + delta) src n io1 in
        let (p, m, e3, h3) = writer block 1 q io2 (omega arith) (omega arith) in
        let one : (drv.blkdev_write_impl minor block 1 q io2).0 ≡ 1 = omega (arith, p, m) in
        let at : wrap (q + delta) ≡ q + delta = omega arith in
        let size : 1 * bs ≡ bs = omega arith in
        let disk : (j : ℕ)
            → (drv.blkdev_write_impl minor block 1 q io2).1.disk j ≡ (
                if is_in (block * bs) bs j
                then memcpy (q + delta) src n io1.memory (q + (j - block * bs))
                else io1.disk j) =
          rw size at (rw one at h3) in
        let wrote =
          patched-Wrote q block delta n src io io1 (drv.blkdev_write_impl minor block 1 q io2).1 w l
            apart e1 h1 e3 disk in
        let run : write_one drv minor (some q) block delta n src io
            ≡ (true, (drv.blkdev_write_impl minor block 1 q io2).1) =
          write_one-runs q block delta n src io runs at one in
        (
          ap (λ (r : Bool × Io). r.0) run,
          subst (λ (r : Bool × Io). Wrote t t' bs io r.1 src n (block * bs + delta)) (sym run)
              wrote,
        )

    pub write_first-whole :
        (tmp : Option ℕ) (block src : ℕ) (io : Io)
        → write_first drv minor tmp bs block 0 src io ≡ (some (src, block), io)
    unfolding write_first
    write_first-whole tmp block src io = refl

    pub write_first-part :
        (block delta src : ℕ) (io : Io)
        → 0 < delta
        → delta < bs
        → block < cap
        → cap < 2 ^ 32
        → t + bs < 2 ^ 32
        → src + (bs - delta) < 2 ^ 32
        → Separate t t' bs src (bs - delta)
        → (io' : Io) × (write_first drv minor (some t) bs block delta src io
            ≡ (some (src + (bs - delta), block + 1), io'))
          × Wrote t t' bs io io' src (bs - delta) (block * bs + delta)
    unfolding write_first
    write_first-part block delta src io p l c u v w s =
        let (ok, wrote) =
          write_one-Wrote t block delta (bs - delta) src io (inl refl) (omega arith) s.0 v c in
        let some_ : (delta == 0) ≡ false = ground arith in
        let there : wrap (src + (bs - delta)) ≡ src + (bs - delta) = omega arith in
        let next : wrap (block + 1) ≡ block + 1 = omega arith in
        (
          (write_one drv minor (some t) block delta (bs - delta) src io).1,
          rw some_ (rw ok (rw (there, next) refl)),
          wrote,
        )

    pub write_last-Wrote :
        (block delta src : ℕ) (io : Io)
        → delta < bs
        → (0 < delta → block < cap)
        → t' + bs < 2 ^ 32
        → Separate t t' bs src delta
        → (io' : Io) × (write_last drv minor (some t') delta src block io ≡ (true, io'))
          × Wrote t t' bs io io' src delta (block * bs)
    unfolding write_last
    write_last-Wrote block delta src io l c u s = elim (Bool-cases (delta == 0)) [
      | inl z ↦
          (let q : delta ≡ 0 = ground arith in
            (io, rw z refl, rw q (Wrote-refl io src (block * bs))))
      | inr z ↦
          (let (ok, wrote) =
              write_one-Wrote t' block 0 delta src io (inr refl) (omega arith) s.1 u
                (c (ground arith)) in
            let whole : block * bs + 0 ≡ block * bs = omega arith in
            let io' : Io = (write_one drv minor (some t') block 0 delta src io).1 in
            (
              io',
              rw z (ap (λ (r : Bool). (r, io')) ok),
              Wrote-cong io io' src delta delta (block * bs + 0) (block * bs) refl whole wrote,
            ))
    ]

    -- A round of the loop that writes `k` blocks and leaves `r`.
    write_blocks-step :
        (fuel n r src block : ℕ) (io io' : Io)
        → let (k, io1) = drv.blkdev_write_impl minor block (suc n) src io in
          suc n ≡ k + r
          → 0 < k
          → block + suc n < 2 ^ 32
          → src + suc n * bs < 2 ^ 32
          → write_blocks fuel drv minor bs r (src + k * bs) (block + k) io1
            ≡ done (some (src + k * bs + r * bs, block + k + r), io')
          → write_blocks (suc fuel) drv minor bs (suc n) src block io
            ≡ done (some (src + suc n * bs, block + suc n), io')
    unfolding write_blocks
    write_blocks-step fuel n r src block io io' parts p u v runs =
        let k : ℕ = (drv.blkdev_write_impl minor block (suc n) src io).0 in
        let bytes : suc n * bs ≡ k * bs + r * bs = ap (λ (q : ℕ). q * bs) parts ∙ omega arith in
        let left : wrap (suc n + 2 ^ 32 - k) ≡ r = omega arith in
        let there : wrap (src + wrap (k * bs)) ≡ src + k * bs = omega (arith, bytes) in
        let next : wrap (block + k) ≡ block + k = omega arith in
        let more : (k == 0) ≡ false = ground arith in
        let run : (suc n == 0) ≡ false = ground arith in
        let end : src + k * bs + r * bs ≡ src + suc n * bs = omega (arith, bytes) in
        let last : block + k + r ≡ block + suc n = omega arith in
        rw run (rw more (rw (left, there, next) (rw (end, last) at runs)))

    pub write_blocks-Wrote :
        (fuel n src block : ℕ) (io : Io)
        → n < fuel
        → block + n ≤ cap
        → cap < 2 ^ 32
        → src + n * bs < 2 ^ 32
        → Separate t t' bs src (n * bs)
        → (io' : Io) × (write_blocks fuel drv minor bs n src block io
            ≡ done (some (src + n * bs, block + n), io'))
          × Wrote t t' bs io io' src (n * bs) (block * bs)
    unfolding write_blocks
    write_blocks-Wrote zero n src block io f c u v s = absurd (omega arith)
    write_blocks-Wrote (suc fuel) zero src block io f c u v s =
        let none_ : src + zero * bs ≡ src = omega arith in
        let here : block + zero ≡ block = omega arith in
        let size : zero * bs ≡ 0 = omega arith in
        (io, rw (none_, here) refl, rw size (Wrote-refl io src (block * bs)))
    write_blocks-Wrote (suc fuel) (suc n) src block io f c u v s =
        let k : ℕ = (drv.blkdev_write_impl minor block (suc n) src io).0 in
        let io1 : Io = (drv.blkdev_write_impl minor block (suc n) src io).1 in
        let (p, l, e, h) = writer block (suc n) src io (omega arith) c in
        let r : ℕ = suc n - k in
        let parts : suc n ≡ k + r = omega (arith, l) in
        let bytes : suc n * bs ≡ k * bs + r * bs = ap (λ (q : ℕ). q * bs) parts ∙ omega arith in
        let (io', runs, wrote) =
          write_blocks-Wrote fuel r (src + k * bs) (block + k) io1 (omega (arith, l, p))
            (omega (arith, l)) u (omega (arith, bytes))
            (omega (arith, bytes, s.0), omega (arith, bytes, s.1)) in
        let first : Wrote t t' bs io io1 src (k * bs) (block * bs) =
          (λ j i. h j ∙ rw i refl, λ j i. h j ∙ rw i refl, λ j _. ap (λ (f : ℕ → ℕ). f j) e) in
        let to : (block + k) * bs ≡ block * bs + k * bs = omega arith in
        let second : Wrote t t' bs io1 io' (src + k * bs) (r * bs) (block * bs + k * bs) =
          Wrote-cong io1 io' (src + k * bs) (r * bs) (r * bs) ((block + k) * bs)
            (block * bs + k * bs) refl to wrote in
        (
          io',
          write_blocks-step fuel n r src block io io' parts p (omega (arith, u)) v runs,
          Wrote-cong io io' src (k * bs + r * bs) (suc n * bs) (block * bs) (block * bs) (sym bytes)
              refl
              (Wrote-trans io io1 io' src (k * bs) (r * bs) (block * bs)
                (omega (arith, bytes, s.0), omega (arith, bytes, s.1)) first second),
        )
