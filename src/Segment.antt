-- ===== src/Segment.antt =====
-- Segment descriptors and selectors, include/simplix/segment.h.
-- A shift and a mask are a division and a remainder; an OR of bit fields that do not overlap is
-- the sum of the shifted fields.
pub mod Fields
mod Tests
use simplix.Base.{ℕ, ◌+◌, ◌-◌, ◌*◌, ◌/◌, ◌%◌, ◌^◌, Bool, true, false, ltb, ◌==◌, if◌then◌else◌}

pub record SegmentDescriptor : Type 0 where
  pub limit_15_0 : ℕ
  pub base_addr_15_0 : ℕ
  pub base_addr_23_16 : ℕ
  pub type_bits : ℕ
  pub limit_19_16 : ℕ
  pub u : ℕ
  pub x : ℕ
  pub d : ℕ
  pub g : ℕ
  pub base_addr_31_24 : ℕ

-- BUILD_SEG_DESC
unfoldable pub build_seg_desc : ℕ → ℕ → ℕ → SegmentDescriptor
build_seg_desc base_addr limit segtype = record {
  limit_15_0 = limit % 2 ^ 16;
  limit_19_16 = limit / 2 ^ 16 % 2 ^ 4;
  base_addr_15_0 = base_addr % 2 ^ 16;
  base_addr_23_16 = base_addr / 2 ^ 16 % 2 ^ 8;
  base_addr_31_24 = base_addr / 2 ^ 24 % 2 ^ 8;
  u = 0;
  x = 0;
  d = 1;
  g = 0;
  type_bits = segtype;
}

-- BUILD_4KB_SEG_DESC
unfoldable pub build_4kb_seg_desc : ℕ → ℕ → ℕ → SegmentDescriptor
build_4kb_seg_desc base_addr limit segtype = record {
  limit_15_0 = limit / 2 ^ 12 % 2 ^ 16;
  limit_19_16 = limit / 2 ^ 28 % 2 ^ 4;
  base_addr_15_0 = base_addr % 2 ^ 16;
  base_addr_23_16 = base_addr / 2 ^ 16 % 2 ^ 8;
  base_addr_31_24 = base_addr / 2 ^ 24 % 2 ^ 8;
  u = 0;
  x = 0;
  d = 1;
  g = 1;
  type_bits = segtype;
}

-- SEG_ADDR
unfoldable pub seg_addr : SegmentDescriptor → ℕ
seg_addr s = s.base_addr_31_24 * 2 ^ 24 + s.base_addr_23_16 * 2 ^ 16 + s.base_addr_15_0

-- SEG_SIZE
unfoldable pub seg_size : SegmentDescriptor → ℕ
seg_size s =
    if s.g == 0
    then s.limit_19_16 * 2 ^ 16 + s.limit_15_0
    else (s.limit_19_16 * 2 ^ 16 + s.limit_15_0) * 2 ^ 12

-- SEG_REG_VAL and SEG_REG_RPL
unfoldable pub seg_reg_val : ℕ → ℕ → ℕ → ℕ
seg_reg_val privilege in_ldt segment_index = segment_index * 2 ^ 3 + in_ldt * 2 ^ 2 + privilege % 4

unfoldable pub seg_reg_rpl : ℕ → ℕ
seg_reg_rpl seg_reg = seg_reg % 4

-- GET_PHYSMEM_ADDR and VALIDATE_VMEM_AREA, over the data segment of the current task. The
-- subtraction is that of 32-bit unsigned numbers.
unfoldable pub get_physmem_addr : SegmentDescriptor → ℕ → ℕ
get_physmem_addr ds vaddr = (vaddr + seg_addr ds) % 2 ^ 32

unfoldable pub validate_vmem_area : SegmentDescriptor → ℕ → ℕ → Bool
validate_vmem_area ds vaddr size = ltb vaddr ((seg_size ds + 2 ^ 32 - size) % 2 ^ 32)
