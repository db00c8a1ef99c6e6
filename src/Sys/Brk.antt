-- ===== src/Sys/Brk.antt =====
-- sys_brk of kernel/sys.c: it moves the end of the data segment together with the end of the block.
use simplix.Base.{
  ℕ, ◌+◌, ◌*◌, ◌/◌, ◌%◌, ◌^◌, ◌<◌, ◌≤◌, ◌≡◌, ◌≢◌, refl, ap, ◌∙◌, arith, ◌⊎◌, inl, inr, true, false,
  Option, none, some, List, [], ◌∷◌, ltb, ◌==◌, if◌then◌else◌, Bool-cases,
}
use simplix.Ring.Chain.{has}
use simplix.PhysMem.{PhysMem, s_ok, done, Answer, page_size, page_align_sup}
use simplix.PhysMem.Resize.{resize}
use simplix.PhysMem.Layout.{Block, Holds, allocated, IsLayout, Coalesced, starts, has-bound}
use simplix.PhysMem.Realloc.{answer, hole_follows, realloc_physmem_block}
use simplix.PhysMem.InPlace.{Resized, realloc_physmem_block-Resized}
use simplix.Segment.{build_4kb_seg_desc, seg_addr, seg_size}
use simplix.Segment.Fields.{seg_addr-build_4kb_seg_desc}
use simplix.Sched.{Task, Kernel}
use simplix.Sys.{
  TaskCpuContext, current, set_segments, finish_brk, sys_brk, ldt_cs_type, ldt_ds_type,
}

-- Code and data begin with the block at page `i`, and the data reach to its end.
pub record IsImage (i : ℕ) (t : Task) (m : PhysMem) : Type 0 where
  pub cs_addr : seg_addr t.ldt_cs ≡ i * page_size
  pub ds_addr : seg_addr t.ldt_ds ≡ i * page_size
  pub cs_le_ds : seg_size t.ldt_cs ≤ seg_size t.ldt_ds
  pub cs_pages : seg_size t.ldt_cs % page_size ≡ 0
  pub ds_size : seg_size t.ldt_ds ≡ m.pages i * page_size

-- The size of an allocated block, by its first page.
abbrev size_at : ℕ → List (ℕ × ℕ) → Option ℕ
size_at i [] = none
size_at i ((p, n) ∷ bs) = if p == i then some n else size_at i bs

size_at-resize :
    (i n size : ℕ) (bs : List (ℕ × ℕ))
    → size_at i bs ≡ some size
    → size_at i (resize i n bs) ≡ some n
size_at-resize i n size [] e = ground arith
size_at-resize i n size ((p, k) ∷ bs) e = ground (arith, size_at-resize i n size bs)

size_at-allocated :
    (m : PhysMem) (i p : ℕ) (bs : List Block)
    → Holds m p bs
    → has i (starts p bs) ≡ true
    → m.available i ≡ false
    → size_at i (allocated p bs) ≡ some (m.pages i)
size_at-allocated m i p [] h at taken = ground arith
size_at-allocated m i p (b ∷ bs) h at taken = elim (Bool-cases (p == i)) [
  | inl e ↦ let here : p ≡ i = ground arith in ground (arith, ap m.available here, ap m.pages here)
  | inr e ↦
      let rest = size_at-allocated m i (p + b.pages) bs h.3 (ground arith) taken in
      ground (arith, rest)
]

pages-allocated :
    (m : PhysMem) (i p n : ℕ) (bs : List Block)
    → Holds m p bs
    → size_at i (allocated p bs) ≡ some n
    → m.pages i ≡ n
pages-allocated m i p n [] h e = ground arith
pages-allocated m i p n (b ∷ bs) h e = elim (Bool-cases b.available) [
  | inl free ↦ pages-allocated m i (p + b.pages) n bs h.3 (rw free at e)
  | inr used ↦ elim (Bool-cases (p == i)) [
    | inl here ↦ let same : p ≡ i = ground arith in ground (arith, ap m.pages same, rw used at e)
    | inr off ↦ pages-allocated m i (p + b.pages) n bs h.3 (rw (used, off) at e)
  ]
]

-- Descriptors of whole pages.
seg_addr_pages :
    (i n type : ℕ)
    → i < 2 ^ 20
    → n < 2 ^ 20
    → (seg_addr (build_4kb_seg_desc (i * page_size) (n * page_size) type) ≡ i * page_size)
      × (seg_size (build_4kb_seg_desc (i * page_size) (n * page_size) type) ≡ n * page_size)
seg_addr_pages i n type l u =
    let (at, size) =
      seg_addr-build_4kb_seg_desc (i * page_size) (n * page_size) type (omega arith)
        (omega arith) in
    (at, size ∙ omega arith)

realloc_brk :
    (junk i size : ℕ) (ctx : TaskCpuContext) (k : Kernel) (a : Answer)
    → page_align_sup ctx.ebx ≡ size
    → IsImage i (current k) k.physmem
    → seg_size (current k).ldt_cs ≤ size
    → realloc_physmem_block junk (i * page_size) (size / page_size) 1 k.physmem ≡ done a
    → sys_brk junk ctx k
      ≡ done (finish_brk junk (seg_size (current k).ldt_cs) (seg_size (current k).ldt_ds) size a k)
unfolding sys_brk
realloc_brk junk i size ctx k a e image le r =
    let same : (seg_addr (current k).ldt_cs == seg_addr (current k).ldt_ds) ≡ true =
      ground (arith, image.cs_addr, image.ds_addr) in
    let fits : ltb (seg_size (current k).ldt_ds) (seg_size (current k).ldt_cs) ≡ false =
      ground (arith, image.cs_le_ds) in
    let covers : ltb size (seg_size (current k).ldt_cs) ≡ false = ground arith in
    rw (e, same, fits) (rw covers (rw image.ds_addr (rw r refl)))

-- A task with new segments.
pub build_4kb_seg_desc-IsImage :
    (i n cs_size : ℕ) (t : Task) (m : PhysMem)
    → i < 2 ^ 20
    → n < 2 ^ 20
    → cs_size % page_size ≡ 0
    → cs_size ≤ n * page_size
    → m.pages i ≡ n
    → t.ldt_cs ≡ build_4kb_seg_desc (i * page_size) cs_size ldt_cs_type
    → t.ldt_ds ≡ build_4kb_seg_desc (i * page_size) (n * page_size) ldt_ds_type
    → IsImage i t m × (seg_size t.ldt_cs ≡ cs_size)
build_4kb_seg_desc-IsImage i n cs_size t m l u whole le e cs_is ds_is =
    let cs = seg_addr_pages i (cs_size / page_size) ldt_cs_type l (omega arith) in
    let exact : cs_size / page_size * page_size ≡ cs_size = omega arith in
    let cs' : (seg_addr t.ldt_cs ≡ i * page_size) × (seg_size t.ldt_cs ≡ cs_size) =
      rw cs_is (rw exact at cs) in
    let ds' : (seg_addr t.ldt_ds ≡ i * page_size) × (seg_size t.ldt_ds ≡ n * page_size) =
      rw ds_is (seg_addr_pages i n ldt_ds_type l u) in
    (
      record {
        cs_addr = cs'.0;
        ds_addr = ds'.0;
        cs_le_ds = omega (arith, cs'.1, ds'.1, le);
        cs_pages = rw cs'.1 whole;
        ds_size = rw (ds'.1, e) refl;
      },
      cs'.1,
    )

set_segments-IsImage :
    (i n cs_size : ℕ) (k : Kernel) (m : PhysMem)
    → i < 2 ^ 20
    → n < 2 ^ 20
    → cs_size % page_size ≡ 0
    → cs_size ≤ n * page_size
    → m.pages i ≡ n
    → let t = current (set_segments (i * page_size) cs_size (n * page_size) k) in
      IsImage i t m × (seg_size t.ldt_cs ≡ cs_size)
set_segments-IsImage i n cs_size k m l u whole le e =
    let here : (k.current == k.current) ≡ true = ground arith in
    rw here (build_4kb_seg_desc-IsImage i n cs_size _ m l u whole le e refl refl)

-- If the size that is asked for, in whole pages, is another one than the block of the current task
-- has, is positive, holds the code, and is smaller than the block and the hole behind it together (or
-- smaller than the block, where no hole follows), sys_brk comes to an end and returns the new size. The block stays
-- where it is and has the new size, the other allocated blocks and the bytes of memory are as
-- before, code and data still begin with the block, the data reach to its end, and the code has
-- its size.
pub sys_brk-IsImage :
    (junk i : ℕ) (ctx : TaskCpuContext) (k : Kernel) (bs : List Block)
    → let m = k.physmem in
      let size = page_align_sup ctx.ebx in
      let n = size / page_size in
      IsLayout m bs
      → Coalesced bs
      → has i (starts 0 bs) ≡ true
      → m.available i ≡ false
      → IsImage i (current k) m
      → seg_size (current k).ldt_cs ≤ size
      → 0 < n
      → n ≢ m.pages i
      → ((hole_follows i m ≡ true) × (n < m.pages i + m.pages (i + m.pages i)))
        ⊎ ((hole_follows i m ≡ false) × (n < m.pages i))
      → (k' : Kernel) × (sys_brk junk ctx k ≡ done (size, k'))
        × IsImage i (current k') k'.physmem
        × (seg_size (current k').ldt_cs ≡ seg_size (current k).ldt_cs)
        × Resized m i n bs k'.physmem
unfolding finish_brk
sys_brk-IsImage junk i ctx k bs lay co begins taken image le pos ne room =
    let m = k.physmem in
    let size = page_align_sup ctx.ebx in
    let n = size / page_size in
    let cs_size = seg_size (current k).ldt_cs in
    let (s, e, resized) =
      realloc_physmem_block-Resized m i n bs lay co begins taken pos junk 1 refl room
        (ground arith) in
    let bound = has-bound m i 0 bs lay.holds begins in
    let whole : n * page_size ≡ size = omega arith in
    let known = size_at-allocated m i 0 bs lay.holds begins taken in
    let (bs', lay', _, shape, _) = resized in
    let pages : s.pages i ≡ n =
      pages-allocated s i 0 n bs' lay'.holds
        (ap (size_at i) shape ∙ size_at-resize i n (m.pages i) (allocated 0 bs) known) in
    let k' = set_segments (i * page_size) cs_size size (record k { physmem = s }) in
    let new =
      set_segments-IsImage i n cs_size (record k { physmem = s }) s (omega (arith, lay.small))
        (omega arith) image.cs_pages (omega (arith, whole)) pages in
    let new' : IsImage i (current k') s × (seg_size (current k').ldt_cs ≡ cs_size) =
      rw whole at new in
    (
      k',
      realloc_brk junk i size ctx k (answer s_ok (some (i * page_size)) s) refl image le e,
      new'.0,
      new'.1,
      resized,
    )
