-- ===== src/PhysMem/Tests.antt =====
-- The theorems about kernel/physmem.c at a memory of eight pages: the kernel in two of them, an
-- allocated page, and a hole on each side of it.
use simplix.Base.{
  ℕ, ◌+◌, ◌*◌, ◌≤◌, ◌<◌, ◌≡◌, refl, inl, true, false, some, none, List, [], ◌∷◌, arith, ◌==◌,
  if◌then◌else◌,
}
use simplix.Ring.{Ring}
use simplix.PhysMem.{
  PhysMem, Answer, done, s_ok, e_nomem, page_size, alloc_physmem_block, free_physmem_block,
}
use simplix.PhysMem.Layout.{Block, block, IsLayout, Coalesced, allocated}
use simplix.PhysMem.Realloc.{answer, realloc_physmem_block}
use simplix.PhysMem.InPlace.{Resized, realloc_physmem_block-Resized}
use simplix.PhysMem.Boot.{Mapped, init_physmem, init_physmem-Mapped}
use simplix.PhysMem.Alloc.{carve}
use simplix.PhysMem.Fit.{covers, Served, alloc_physmem_block-Served, alloc_physmem_block-refused}
use simplix.PhysMem.Merge.{drop_block}
use simplix.PhysMem.Release.{free_physmem_block-release}

abbrev links : Ring
links = record {
  prev = λ i. if i == 0 then 5 else if i == 5 then 4 else if i == 4 then 2 else 0;
  next = λ i. if i == 0 then 2 else if i == 2 then 4 else if i == 4 then 5 else 0;
  head = some 0;
}

abbrev pub memory_of_8 : PhysMem
memory_of_8 = record {
  pages = λ i. if i == 0 then 2 else if i == 2 then 2 else if i == 4 then 1 else 3;
  available = λ i. if i == 2 then true else i == 5;
  block_list = links;
  physmem_size = 8 * page_size;
  memory = λ _. 7;
}

abbrev pub blocks : List Block
blocks = block 2 false ∷ block 2 true ∷ block 1 false ∷ block 3 true ∷ []

pub blocks-IsLayout : IsLayout memory_of_8 blocks
blocks-IsLayout = record {
  linked = ground arith;
  holds = ground arith;
  filled = refl;
  small = omega arith;
}

alloc_physmem_block-Served_example :
    (a : Answer) × (alloc_physmem_block 3 1 memory_of_8 ≡ done a)
    × Served memory_of_8 3 5 blocks (carve 3 blocks) a
alloc_physmem_block-Served_example =
    alloc_physmem_block-Served memory_of_8 3 1 blocks blocks-IsLayout (omega arith) (omega arith)
      (ground arith) 5 refl

alloc_physmem_block-refused_example :
    (alloc_physmem_block 4 1 memory_of_8
      ≡ done (record { ret = e_nomem; stored = none; state = memory_of_8 }))
    × ((q : ℕ)
        → q + 4 ≤ 8
        → (i : ℕ) × (q ≤ i) × (i < q + 4) × (covers i (allocated 0 blocks) ≡ true))
alloc_physmem_block-refused_example =
    alloc_physmem_block-refused memory_of_8 4 1 blocks blocks-IsLayout (omega arith) (omega arith)
      (ground arith) refl

free_physmem_block-release_example :
    (s : PhysMem) × (free_physmem_block (4 * page_size) memory_of_8 ≡ done (s_ok, s))
    × IsLayout s (block 2 false ∷ block 6 true ∷ [])
    × Coalesced (block 2 false ∷ block 6 true ∷ [])
    × (allocated 0 (block 2 false ∷ block 6 true ∷ []) ≡ drop_block 4 (allocated 0 blocks))
free_physmem_block-release_example =
    free_physmem_block-release memory_of_8 4 blocks blocks-IsLayout (ground arith) refl refl
      (omega arith)

realloc_physmem_block-Resized_example :
    (s : PhysMem) × (realloc_physmem_block 6 (4 * page_size) 3 1 memory_of_8
      ≡ done (answer s_ok (some (4 * page_size)) s))
    × Resized memory_of_8 4 3 blocks s
realloc_physmem_block-Resized_example =
    realloc_physmem_block-Resized memory_of_8 4 3 blocks blocks-IsLayout (ground arith) refl refl
      (omega arith) 6 1 refl (inl (refl, omega arith)) refl

abbrev empty_list : PhysMem
empty_list = record memory_of_8 { block_list = record links { head = none } }

init_physmem-Mapped_example :
    (s : PhysMem) × (init_physmem (40 * page_size) (16 * 1048576) empty_list ≡ done s)
    × Mapped 40 16 s
init_physmem-Mapped_example =
    init_physmem-Mapped 40 16 empty_list refl (omega arith) (omega arith) (ground arith)
      (omega arith) (omega arith)
