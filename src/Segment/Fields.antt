-- ===== src/Segment/Fields.antt =====
-- What is built into a descriptor is read back from it.
use simplix.Base.{ℕ, ◌+◌, ◌*◌, ◌/◌, ◌^◌, ◌≤◌, ◌<◌, ◌≡◌, true, arith}
use simplix.Segment.{
  build_seg_desc, build_4kb_seg_desc, seg_addr, seg_size, get_physmem_addr, validate_vmem_area,
}

-- A byte-granular descriptor gives back any 32-bit base and any limit below 1 MB.
pub seg_addr-build_seg_desc :
    (base limit segtype : ℕ)
    → base < 2 ^ 32
    → limit < 2 ^ 20
    → (seg_addr (build_seg_desc base limit segtype) ≡ base)
      × (seg_size (build_seg_desc base limit segtype) ≡ limit)
unfolding seg_addr seg_size build_seg_desc
seg_addr-build_seg_desc base limit segtype h k = (omega arith, omega arith)

-- A page-granular descriptor gives back any 32-bit base, and any 32-bit limit cut to whole pages.
pub seg_addr-build_4kb_seg_desc :
    (base limit segtype : ℕ)
    → base < 2 ^ 32
    → limit < 2 ^ 32
    → (seg_addr (build_4kb_seg_desc base limit segtype) ≡ base)
      × (seg_size (build_4kb_seg_desc base limit segtype) ≡ limit / 2 ^ 12 * 2 ^ 12)
unfolding seg_addr seg_size build_4kb_seg_desc
seg_addr-build_4kb_seg_desc base limit segtype h k = (omega arith, omega arith)

-- Over a page-granular data segment inside the 32-bit address space that is at least as large as
-- the area, an area that is accepted lies in the segment, and its physical address does not wrap.
pub validate_vmem_area-inside :
    (base limit segtype vaddr size : ℕ)
    → base + limit < 2 ^ 32
    → size ≤ limit / 2 ^ 12 * 2 ^ 12
    → validate_vmem_area (build_4kb_seg_desc base limit segtype) vaddr size ≡ true
    → (vaddr + size ≤ limit)
      × (get_physmem_addr (build_4kb_seg_desc base limit segtype) vaddr ≡ base + vaddr)
unfolding validate_vmem_area get_physmem_addr
validate_vmem_area-inside base limit segtype vaddr size h fit ok =
    let (at, len) = seg_addr-build_4kb_seg_desc base limit segtype (omega arith) (omega arith) in
    ground (arith, at, len)

-- A segment smaller than the area is no protection: the subtraction wraps around, so that
-- addresses far behind the end of the segment are accepted.
pub validate_vmem_area-wraps :
    (base limit segtype vaddr size : ℕ)
    → base < 2 ^ 32
    → limit < size
    → size < 2 ^ 12
    → vaddr + size < 2 ^ 32
    → validate_vmem_area (build_4kb_seg_desc base limit segtype) vaddr size ≡ true
unfolding validate_vmem_area
validate_vmem_area-wraps base limit segtype vaddr size h k s v =
    let (at, len) = seg_addr-build_4kb_seg_desc base limit segtype h (omega arith) in
    ground (arith, at, len)
