-- ===== src/Segment/Tests.antt =====
-- The theorems about include/simplix/segment.h at concrete segments.
use simplix.Base.{◌+◌, ◌≤◌, ◌≡◌, refl, arith}
use simplix.Segment.{
  build_4kb_seg_desc, seg_size, seg_reg_val, get_physmem_addr, validate_vmem_area,
}
use simplix.Segment.Fields.{validate_vmem_area-inside}

-- LDT_DS of include/simplix/consts.h
ldt_ds : seg_reg_val 3 1 1 ≡ 0x0f
unfolding seg_reg_val
ldt_ds = refl

validate_vmem_area-inside_example :
    (0x1000 + 4 ≤ 0x5000)
    × (get_physmem_addr (build_4kb_seg_desc 0x400000 0x5000 0xf2) 0x1000 ≡ 0x400000 + 0x1000)
unfolding validate_vmem_area seg_size build_4kb_seg_desc
validate_vmem_area-inside_example =
    validate_vmem_area-inside 0x400000 0x5000 0xf2 0x1000 4 (omega arith) (omega arith) refl
