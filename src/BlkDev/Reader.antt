-- ===== src/BlkDev/Reader.antt =====
-- The steps of blkdev_read, with a driver that reads what it is asked to read.
use simplix.Base.{
  ℕ, zero, suc, ◌+◌, ◌-◌, ◌*◌, ◌^◌, ◌≤◌, ◌<◌, ◌≡◌, refl, inl, inr, ◌⊎◌, Bool, true, false, ◌&&◌,
  ◌||◌, Option, some, arith, ltb, leb, ◌==◌, if◌then◌else◌, ap, ◌∙◌, sym, Bool-cases,
}
use simplix.Str.Block.{memcpy_lem}
use simplix.PhysMem.{done, wrap}
use simplix.BlkDev.Io.{Io, Driver, copy, read_one, read_first, read_blocks, read_last}

abbrev pub is_in : ℕ → ℕ → ℕ → Bool
is_in start size j = leb start j && ltb j (start + size)

-- A driver of a device with `capacity` blocks: where it is asked to read blocks of the device, it
-- reads at least one of them, possibly not all, and writes no other byte.
abbrev pub IsReader : Driver → ℕ → ℕ → ℕ → Type 0
IsReader drv minor block_size capacity =
    (block n dst : ℕ) (io : Io)
    → 0 < n
    → block + n ≤ capacity
    → let (k, io') = drv.blkdev_read_impl minor block n dst io in
      (0 < k)
      × (k ≤ n)
      × (io'.disk ≡ io.disk)
      × ((j : ℕ)
          → io'.memory j ≡ (
              if is_in dst (k * block_size) j
              then io.disk (block * block_size + (j - dst))
              else io.memory j))

-- The `size` bytes from `from` on are in memory at `dst`; of the other bytes of memory only those
-- of the two buffers of the heap may have changed.
abbrev pub Got : ℕ → ℕ → ℕ → Io → Io → ℕ → ℕ → ℕ → Type 0
Got t t' block_size io io' dst size from =
    (io'.disk ≡ io.disk)
    × ((j : ℕ) → is_in dst size j ≡ true → io'.memory j ≡ io.disk (from + (j - dst)))
    × ((j : ℕ)
        → is_in dst size j ≡ false
        → (is_in t block_size j || is_in t' block_size j) ≡ false
        → io'.memory j ≡ io.memory j)

-- The buffer of the caller and those of the heap have no byte in common.
abbrev pub Separate : ℕ → ℕ → ℕ → ℕ → ℕ → Type 0
Separate t t' block_size dst size =
    (t + block_size ≤ dst ⊎ dst + size ≤ t) × (t' + block_size ≤ dst ⊎ dst + size ≤ t')

module _ (t t' bs : ℕ) where
  pub Got-refl : (io : Io) (dst from : ℕ) → Got t t' bs io io dst 0 from
  Got-refl io dst from = (refl, λ j h. absurd (ground arith), λ j h k. refl)

  pub Got-cong :
      (io io' : Io) (dst m n from from' : ℕ)
      → m ≡ n
      → from ≡ from'
      → Got t t' bs io io' dst m from
      → Got t t' bs io io' dst n from'
  Got-cong io io' dst m n from from' e f g = rw (e, f) at g

  pub Got-trans :
      (io io1 io2 : Io) (dst m n from : ℕ)
      → Separate t t' bs dst m
      → Got t t' bs io io1 dst m from
      → Got t t' bs io1 io2 (dst + m) n (from + m)
      → Got t t' bs io io2 dst (m + n) from
  Got-trans io io1 io2 dst m n from (s, s') (e, new, old) (e', new', old') = (
    e' ∙ e,
    λ j h. elim (Bool-cases (is_in dst m j)) [
      | inl i ↦ old' j (ground arith) (ground arith) ∙ new j i
      | inr i ↦
          new' j (ground arith)
          ∙ ap (λ (f : ℕ → ℕ). f (from + m + (j - (dst + m)))) e
          ∙ ap io.disk (ground arith)
    ],
    λ j h k. old' j (ground arith) k ∙ old j (ground arith) k,
  )

  module _ (drv : Driver) (minor cap : ℕ) (reader : IsReader drv minor bs cap) where
    -- One block, read into a buffer of the heap.
    pub read_one-some :
        (block q : ℕ) (io : Io)
        → block < cap
        → let (r, io') = read_one drv minor (some q) block io in
          (r ≡ some q)
          × (io'.disk ≡ io.disk)
          × ((j : ℕ)
              → io'.memory j
                ≡ (if is_in q bs j then io.disk (block * bs + (j - q)) else io.memory j))
    unfolding read_one
    read_one-some block q io l =
        let (p, u, e, h) = reader block 1 q io (omega arith) (omega arith) in
        let k : (drv.blkdev_read_impl minor block 1 q io).0 ≡ 1 = omega (arith, p, u) in
        let size : 1 * bs ≡ bs = omega arith in (rw k refl, rw k e, rw k (rw size at (rw k at h)))

    -- A part of a block, from the buffer `q` of the heap.
    part-Got :
        (q block delta dst n : ℕ) (io io' : Io)
        → q ≡ t ⊎ q ≡ t'
        → delta + n ≤ bs
        → (q + bs ≤ dst ⊎ dst + n ≤ q)
        → io'.disk ≡ io.disk
        → ((j : ℕ)
            → io'.memory j ≡ (if is_in q bs j then io.disk (block * bs + (j - q)) else io.memory j))
        → Got t t' bs io (copy dst (q + delta) n io') dst n (block * bs + delta)
    part-Got q block delta dst n io io' w l apart e h =
        let copied = λ (j : ℕ). memcpy_lem dst (q + delta) n io'.memory j (omega (arith, apart)) in
        (
          e,
          λ j i.
              let same : block * bs + (q + delta + (j - dst) - q) ≡ block * bs + delta + (j - dst) =
                omega arith in
              copied j ∙ rw i (h (q + delta + (j - dst)) ∙ ground (arith, ap io.disk same)),
          λ j i k. copied j ∙ rw i (h j ∙ ground (arith, w)),
        )

    pub read_first-whole :
        (tmp : Option ℕ) (block dst : ℕ) (io : Io)
        → read_first drv minor tmp bs block 0 dst io ≡ (some (dst, block), io)
    unfolding read_first
    read_first-whole tmp block dst io = refl

    -- A round of the loop that reads `k` blocks and leaves `r`.
    read_blocks-step :
        (fuel n r dst block : ℕ) (io io' : Io)
        → let (k, io1) = drv.blkdev_read_impl minor block (suc n) dst io in
          suc n ≡ k + r
          → 0 < k
          → block + suc n < 2 ^ 32
          → dst + suc n * bs < 2 ^ 32
          → read_blocks fuel drv minor bs r (dst + k * bs) (block + k) io1
            ≡ done (some (dst + k * bs + r * bs, block + k + r), io')
          → read_blocks (suc fuel) drv minor bs (suc n) dst block io
            ≡ done (some (dst + suc n * bs, block + suc n), io')
    unfolding read_blocks
    read_blocks-step fuel n r dst block io io' parts p u v runs =
        let k : ℕ = (drv.blkdev_read_impl minor block (suc n) dst io).0 in
        let bytes : suc n * bs ≡ k * bs + r * bs = ap (λ (q : ℕ). q * bs) parts ∙ omega arith in
        let left : wrap (suc n + 2 ^ 32 - k) ≡ r = omega arith in
        let there : wrap (dst + wrap (k * bs)) ≡ dst + k * bs = omega (arith, bytes) in
        let next : wrap (block + k) ≡ block + k = omega arith in
        let more : (k == 0) ≡ false = ground arith in
        let run : (suc n == 0) ≡ false = ground arith in
        let end : dst + k * bs + r * bs ≡ dst + suc n * bs = omega (arith, bytes) in
        let last : block + k + r ≡ block + suc n = omega arith in
        rw run (rw more (rw (left, there, next) (rw (end, last) at runs)))

    pub read_blocks-Got :
        (fuel n dst block : ℕ) (io : Io)
        → n < fuel
        → block + n ≤ cap
        → cap < 2 ^ 32
        → dst + n * bs < 2 ^ 32
        → Separate t t' bs dst (n * bs)
        → (io' : Io) × (read_blocks fuel drv minor bs n dst block io
            ≡ done (some (dst + n * bs, block + n), io'))
          × Got t t' bs io io' dst (n * bs) (block * bs)
    unfolding read_blocks
    read_blocks-Got zero n dst block io f c u v s = absurd (omega arith)
    read_blocks-Got (suc fuel) zero dst block io f c u v s =
        let none_ : dst + zero * bs ≡ dst = omega arith in
        let here : block + zero ≡ block = omega arith in
        let size : zero * bs ≡ 0 = omega arith in
        (io, rw (none_, here) refl, rw size (Got-refl io dst (block * bs)))
    read_blocks-Got (suc fuel) (suc n) dst block io f c u v s =
        let k : ℕ = (drv.blkdev_read_impl minor block (suc n) dst io).0 in
        let io1 : Io = (drv.blkdev_read_impl minor block (suc n) dst io).1 in
        let (p, l, e, h) = reader block (suc n) dst io (omega arith) c in
        let r : ℕ = suc n - k in
        let parts : suc n ≡ k + r = omega (arith, l) in
        let bytes : suc n * bs ≡ k * bs + r * bs = ap (λ (q : ℕ). q * bs) parts ∙ omega arith in
        let (io', runs, got) =
          read_blocks-Got fuel r (dst + k * bs) (block + k) io1 (omega (arith, l, p))
            (omega (arith, l)) u (omega (arith, bytes))
            (omega (arith, bytes, s.0), omega (arith, bytes, s.1)) in
        let first : Got t t' bs io io1 dst (k * bs) (block * bs) =
          (e, λ j i. h j ∙ rw i refl, λ j i _. h j ∙ rw i refl) in
        let from : (block + k) * bs ≡ block * bs + k * bs = omega arith in
        let second : Got t t' bs io1 io' (dst + k * bs) (r * bs) (block * bs + k * bs) =
          Got-cong io1 io' (dst + k * bs) (r * bs) (r * bs) ((block + k) * bs) (block * bs + k * bs)
            refl from got in
        (
          io',
          read_blocks-step fuel n r dst block io io' parts p (omega (arith, u)) v runs,
          Got-cong io io' dst (k * bs + r * bs) (suc n * bs) (block * bs) (block * bs) (sym bytes)
              refl
              (Got-trans io io1 io' dst (k * bs) (r * bs) (block * bs)
                (omega (arith, bytes, s.0), omega (arith, bytes, s.1)) first second),
        )

    pub read_first-part :
        (block delta dst : ℕ) (io : Io)
        → 0 < delta
        → delta < bs
        → block < cap
        → cap < 2 ^ 32
        → t + bs < 2 ^ 32
        → dst + (bs - delta) < 2 ^ 32
        → Separate t t' bs dst (bs - delta)
        → (io' : Io) × (read_first drv minor (some t) bs block delta dst io
            ≡ (some (dst + (bs - delta), block + 1), io'))
          × Got t t' bs io io' dst (bs - delta) (block * bs + delta)
    unfolding read_first
    read_first-part block delta dst io p l c u v w s =
        let io1 : Io = (read_one drv minor (some t) block io).1 in
        let (runs, e, h) = read_one-some block t io c in
        let some_ : (delta == 0) ≡ false = ground arith in
        let at : wrap (t + delta) ≡ t + delta = omega arith in
        let there : wrap (dst + (bs - delta)) ≡ dst + (bs - delta) = omega arith in
        let next : wrap (block + 1) ≡ block + 1 = omega arith in
        (
          copy dst (t + delta) (bs - delta) io1,
          rw runs (rw some_ (rw (at, there, next) refl)),
          part-Got t block delta dst (bs - delta) io io1 (inl refl) (omega arith) s.0 e h,
        )

    pub read_last-Got :
        (block delta dst : ℕ) (io : Io)
        → delta < bs
        → (0 < delta → block < cap)
        → Separate t t' bs dst delta
        → (io' : Io) × (read_last drv minor (some t') delta dst block io ≡ (true, io'))
          × Got t t' bs io io' dst delta (block * bs)
    unfolding read_last
    read_last-Got block delta dst io l c s = elim (Bool-cases (delta == 0)) [
      | inl z ↦
          (let q : delta ≡ 0 = ground arith in (io, rw z refl, rw q (Got-refl io dst (block * bs))))
      | inr z ↦
          (let io1 : Io = (read_one drv minor (some t') block io).1 in
            let (runs, e, h) = read_one-some block t' io (c (ground arith)) in
            let whole : block * bs + 0 ≡ block * bs = omega arith in
            let at : t' + 0 ≡ t' = omega arith in
            (
              copy dst t' delta io1,
              rw z (rw runs refl),
              rw (whole, at) at
                  (part-Got t' block 0 dst delta io io1 (inr refl) (omega arith) s.1 e h),
            ))
    ]
