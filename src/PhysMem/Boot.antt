-- ===== src/PhysMem/Boot.antt =====
-- init_physmem of kernel/physmem.c, on the memory map of a PC. `e_kernel` is the address
-- `__e_kernel`, which the linker script fixes.
use simplix.Base.{
  ℕ, ◌+◌, ◌-◌, ◌*◌, ◌/◌, ◌^◌, ◌<◌, ◌≡◌, ◌≢◌, refl, inl, inr, Bool, true, false, none, List, [], ◌∷◌,
  arith, ltb, leb, if◌then◌else◌, update, Bool-cases, ap, ◌∙◌,
}
use simplix.Ring.{Ring, list_append}
use simplix.Ring.Chain.{IsRing}
use simplix.Ring.Insert.{list_append-IsRing}
use simplix.PhysMem.{
  PhysMem, Run, done, panic, page_size, wrap, get_block_descriptor, page_align_inf, page_align_sup,
}
use simplix.PhysMem.Layout.{Block, block, IsLayout, Coalesced}

abbrev pub bios_and_video_memory_start : ℕ
bios_and_video_memory_start = 655360

abbrev pub bios_and_video_memory_end : ℕ
bios_and_video_memory_end = 1048576

-- `sizeof(struct block)`: two words and two pointers.
abbrev pub descriptor_size : ℕ
descriptor_size = 16

unfoldable pub add_block : ℕ → ℕ → Bool → PhysMem → PhysMem
add_block start_addr end_addr is_hole m =
    let b = get_block_descriptor (page_align_inf start_addr) in
    record m {
      pages =
          update m.pages b
            (wrap (page_align_sup end_addr + 2 ^ 32 - page_align_inf start_addr) / page_size);
      available = update m.available b is_hole;
      block_list = list_append b m.block_list;
    }

-- The four blocks, where the descriptors are in conventional memory and where they are not.
unfoldable pub add_low : ℕ → ℕ → PhysMem → PhysMem
add_low array_end memsize m = add_block bios_and_video_memory_end memsize true (
    add_block bios_and_video_memory_start bios_and_video_memory_end false
      (add_block array_end bios_and_video_memory_start true (add_block 0 array_end false m)))

unfoldable pub add_high : ℕ → ℕ → ℕ → PhysMem → PhysMem
add_high e_kernel array_end memsize m = add_block array_end memsize true (
    add_block bios_and_video_memory_start array_end false
      (add_block e_kernel bios_and_video_memory_start true (add_block 0 e_kernel false m)))

unfoldable pub init_physmem : ℕ → ℕ → PhysMem → Run PhysMem
unfolding add_low add_high
init_physmem e_kernel memsize m0 =
    let count = memsize / page_size in
    let m : PhysMem = record m0 { physmem_size = wrap (count * page_size) } in
    let size = wrap (count * descriptor_size) in
    if leb size (wrap (bios_and_video_memory_start + 2 ^ 32 - e_kernel))
    then done (add_low (wrap (e_kernel + size)) memsize m)
    else if leb size (wrap (memsize + 2 ^ 32 - bios_and_video_memory_end))
    then done (add_high e_kernel (wrap (bios_and_video_memory_end + size)) memsize m)
    else panic

-- The memory map, for a kernel that ends at page `e` and a memory of `k` MB.
abbrev pub low_map : ℕ → ℕ → List Block
low_map e k =
    block (e + k) false
    ∷ block (160 - (e + k)) true
    ∷ block 96 false
    ∷ block (256 * k - 256) true
    ∷ []

abbrev pub high_map : ℕ → ℕ → List Block
high_map e k =
    block e false
    ∷ block (160 - e) true
    ∷ block (96 + k) false
    ∷ block (256 * k - 256 - k) true
    ∷ []

abbrev pub memory_map : ℕ → ℕ → List Block
memory_map e k = if ltb (e + k) 160 then low_map e k else high_map e k

-- What a block that begins at a page boundary and ends at one becomes.
abbrev add_pages : ℕ → ℕ → Bool → PhysMem → PhysMem
add_pages p n a m = record m {
  pages = update m.pages p n;
  available = update m.available p a;
  block_list = list_append p m.block_list;
}

add_block-pages :
    (from to p n : ℕ) (a : Bool) (m : PhysMem)
    → from ≡ p * page_size
    → to ≡ (p + n) * page_size
    → p + n < 2 ^ 20
    → add_block from to a m ≡ add_pages p n a m
unfolding add_block
add_block-pages from to p n a m f t h =
    let at : wrap from / page_size * page_size / page_size ≡ p = omega arith in
    let size : wrap (
            wrap (to + (page_size - 1)) / page_size * page_size
            + 2 ^ 32
            - wrap from / page_size * page_size)
          / page_size
        ≡ n =
      omega arith in
    rw (at, size) refl

four-IsRing :
    (r : Ring) (a b c d : ℕ)
    → r.head ≡ none
    → a < b
    → b < c
    → c < d
    → IsRing (list_append d (list_append c (list_append b (list_append a r)))) (a ∷ b ∷ c ∷ d ∷ [])
four-IsRing r a b c d h k l u =
    let one : IsRing (list_append a r) (a ∷ []) = list_append-IsRing r a [] h refl in
    let two = list_append-IsRing (list_append a r) b (a ∷ []) one (ground arith) in
    let three =
      list_append-IsRing (list_append b (list_append a r)) c (a ∷ b ∷ []) two (ground arith) in
    list_append-IsRing (list_append c (list_append b (list_append a r))) d (a ∷ b ∷ c ∷ []) three
      (ground arith)

-- Four blocks put into an empty list.
four-IsLayout :
    (m : PhysMem) (a b c d p q r : ℕ) (x y z w : Bool)
    → m.block_list.head ≡ none
    → m.physmem_size ≡ (a + b + c + d) * page_size
    → 0 + a ≡ p
    → p + b ≡ q
    → q + c ≡ r
    → 0 < a
    → 0 < b
    → 0 < c
    → 0 < d
    → a + b + c + d < 2 ^ 20
    → IsLayout
        (add_pages r d w (add_pages q c z (add_pages p b y (add_pages 0 a x m))))
        (block a x ∷ block b y ∷ block c z ∷ block d w ∷ [])
four-IsLayout m a b c d p q r x y z w h s ep eq er pa pb pc pd l = record {
  linked = rw ep (
      rw eq (rw er (four-IsRing m.block_list 0 p q r h (omega arith) (omega arith) (omega arith))));
  holds = ground arith;
  filled = s ∙ ap (λ (t : ℕ). t * page_size) (omega arith);
  small = omega arith;
}

-- The memory map in pages: the kernel ends at page `e`, the memory has `k` MB.
module _ (e k : ℕ) (m : PhysMem) where
  add_low-pages :
      0 < k
      → k < 4096
      → e + k < 160
      → add_low (wrap (e * page_size + k * page_size)) (k * 2 ^ 20) m
        ≡ add_pages 256 (256 * k - 256) true (
            add_pages 160 96 false
              (add_pages (e + k) (160 - (e + k)) true (add_pages 0 (e + k) false m)))
  unfolding add_low
  add_low-pages h l u =
      let end : wrap (e * page_size + k * page_size) ≡ (e + k) * page_size = omega arith in
      let one = add_block-pages 0 ((e + k) * page_size) 0 (e + k) false m in
      let two =
        add_block-pages ((e + k) * page_size) bios_and_video_memory_start (e + k) (160 - (e + k))
          true in
      let three =
        add_block-pages bios_and_video_memory_start bios_and_video_memory_end 160 96 false in
      let four = add_block-pages bios_and_video_memory_end (k * 2 ^ 20) 256 (256 * k - 256) true in
      rw end (
        rw (one (omega arith) (omega arith) (omega arith)) (
          rw (two (add_pages 0 (e + k) false m) (omega arith) (omega arith) (omega arith)) (
            rw
              (three (add_pages (e + k) (160 - (e + k)) true (add_pages 0 (e + k) false m)) refl
                refl (omega arith))
              (rw
                (four
                  (add_pages 160 96 false
                    (add_pages (e + k) (160 - (e + k)) true (add_pages 0 (e + k) false m)))
                  refl (omega arith) (omega arith))
                refl))))

  add_high-pages :
      e < 160
      → 1 < k
      → k < 4096
      → add_high (e * page_size) (wrap (bios_and_video_memory_end + k * page_size)) (k * 2 ^ 20) m
        ≡ add_pages
            (256 + k)
            (256 * k - 256 - k)
            true
            (add_pages 160 (96 + k) false (add_pages e (160 - e) true (add_pages 0 e false m)))
  unfolding add_high
  add_high-pages h g l =
      let end : wrap (bios_and_video_memory_end + k * page_size) ≡ (256 + k) * page_size =
        omega arith in
      let one = add_block-pages 0 (e * page_size) 0 e false m in
      let two = add_block-pages (e * page_size) bios_and_video_memory_start e (160 - e) true in
      let three =
        add_block-pages bios_and_video_memory_start ((256 + k) * page_size) 160 (96 + k) false in
      let four =
        add_block-pages ((256 + k) * page_size) (k * 2 ^ 20) (256 + k) (256 * k - 256 - k) true in
      let m1 = add_pages 0 e false m in
      let m2 = add_pages e (160 - e) true m1 in
      rw end (
        rw (one (omega arith) (omega arith) (omega arith)) (
          rw (two m1 (omega arith) (omega arith) (omega arith)) (
            rw (three m2 refl (omega arith) (omega arith))
              (rw (four (add_pages 160 (96 + k) false m2) refl (omega arith) (omega arith)) refl))))

  -- The state after the first lines of the code.
  abbrev sized : PhysMem
  sized = record m { physmem_size = k * 2 ^ 20 }

  init_physmem-low :
      0 < k
      → k < 4096
      → e + k < 160
      → init_physmem (e * page_size) (k * 2 ^ 20) m
        ≡ done (add_low (wrap (e * page_size + k * page_size)) (k * 2 ^ 20) sized)
  unfolding init_physmem
  init_physmem-low h l u =
      let round : wrap (k * 2 ^ 20 / page_size * page_size) ≡ k * 2 ^ 20 = omega arith in
      let size : wrap (k * 2 ^ 20 / page_size * descriptor_size) ≡ k * page_size = omega arith in
      let fits : leb (k * page_size) (wrap (bios_and_video_memory_start + 2 ^ 32 - e * page_size))
          ≡ true =
        ground arith in
      rw (round, size) (rw fits refl)

  init_physmem-high :
      e < 160
      → 160 < e + k
      → 1 < k
      → k < 4096
      → init_physmem (e * page_size) (k * 2 ^ 20) m
        ≡ done (
            add_high
              (e * page_size)
              (wrap (bios_and_video_memory_end + k * page_size))
              (k * 2 ^ 20)
              sized)
  unfolding init_physmem
  init_physmem-high h u g l =
      let round : wrap (k * 2 ^ 20 / page_size * page_size) ≡ k * 2 ^ 20 = omega arith in
      let size : wrap (k * 2 ^ 20 / page_size * descriptor_size) ≡ k * page_size = omega arith in
      let full : leb (k * page_size) (wrap (bios_and_video_memory_start + 2 ^ 32 - e * page_size))
          ≡ false =
        ground arith in
      let fits : leb (k * page_size) (wrap (k * 2 ^ 20 + 2 ^ 32 - bios_and_video_memory_end))
          ≡ true =
        ground arith in
      rw (round, size) (rw full (rw fits refl))

-- What init_physmem leaves: a well-formed state that fills the memory.
abbrev pub Mapped : ℕ → ℕ → PhysMem → Type 0
Mapped e k s =
    IsLayout s (memory_map e k) × Coalesced (memory_map e k) × (s.physmem_size ≡ k * 2 ^ 20)

low-Mapped :
    (e k : ℕ) (m : PhysMem)
    → m.block_list.head ≡ none
    → 1 < k
    → e + k < 160
    → Mapped e k (add_low (wrap (e * page_size + k * page_size)) (k * 2 ^ 20) (sized e k m))
low-Mapped e k m empty g u =
    let map : memory_map e k ≡ low_map e k = ground arith in
    rw map (
      rw (add_low-pages e k (sized e k m) (omega arith) (omega arith) u) (
        four-IsLayout (sized e k m) (e + k) (160 - (e + k)) 96 (256 * k - 256) (e + k) 160 256 false
            true false true empty (omega arith) (omega arith) (omega arith) (omega arith)
            (omega arith) (omega arith) (omega arith) (omega arith) (omega arith),
        (refl, (refl, (refl, (refl, tt)))),
        refl,
      ))

high-Mapped :
    (e k : ℕ) (m : PhysMem)
    → m.block_list.head ≡ none
    → 0 < e
    → e < 160
    → 160 < e + k
    → 1 < k
    → k < 4096
    → Mapped e k (
        add_high
          (e * page_size)
          (wrap (bios_and_video_memory_end + k * page_size))
          (k * 2 ^ 20)
          (sized e k m))
high-Mapped e k m empty p h u g l =
    let map : memory_map e k ≡ high_map e k = ground arith in
    rw map (
      rw (add_high-pages e k (sized e k m) h g l) (
        four-IsLayout (sized e k m) e (160 - e) (96 + k) (256 * k - 256 - k) e 160 (256 + k) false
            true false true empty (omega arith) (omega arith) (omega arith) (omega arith)
            (omega arith) (omega arith) (omega arith) (omega arith) (omega arith),
        (refl, (refl, (refl, (refl, tt)))),
        refl,
      ))

-- On a memory of `k` MB, of 2 at least and of less than 4096, with a kernel that ends at a page `e`
-- behind page 0 and below the video memory (page 160), whose descriptors, `k` pages behind `e`, do
-- not end just at the video memory, init_physmem makes a well-formed state from
-- an empty list: four blocks that fill the memory, two holes among them, never two in a row. The
-- allocated ones cover the kernel, the descriptors and the memory of the BIOS and the screen.
pub init_physmem-Mapped :
    (e k : ℕ) (m : PhysMem)
    → m.block_list.head ≡ none
    → 0 < e
    → e < 160
    → e + k ≢ 160
    → 1 < k
    → k < 4096
    → (s : PhysMem) × (init_physmem (e * page_size) (k * 2 ^ 20) m ≡ done s) × Mapped e k s
init_physmem-Mapped e k m empty p h ne g l = elim (Bool-cases (ltb (e + k) 160)) [
  | inl t ↦ (
    add_low (wrap (e * page_size + k * page_size)) (k * 2 ^ 20) (sized e k m),
    init_physmem-low e k m (omega arith) l (ground arith),
    low-Mapped e k m empty g (ground arith),
  )
  | inr t ↦ (
    add_high (e * page_size) (wrap (bios_and_video_memory_end + k * page_size)) (k * 2 ^ 20)
        (sized e k m),
    init_physmem-high e k m h (ground (arith, ne)) g l,
    high-Mapped e k m empty p h (ground (arith, ne)) g l,
  )
]
