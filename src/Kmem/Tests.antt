-- ===== src/Kmem/Tests.antt =====
-- The theorem about kernel/kmem.c at an empty heap.
use simplix.Base.{
  ◌+◌, ◌*◌, ◌≡◌, refl, inl, true, false, some, none, List, [], ◌∷◌, arith, ◌==◌, if◌then◌else◌,
}
use simplix.PhysMem.{PhysMem, Answer, done, page_size, alloc_physmem_block}
use simplix.PhysMem.Layout.{Block, block, IsLayout}
use simplix.PhysMem.Alloc.{carve}
use simplix.PhysMem.Fit.{Served, alloc_physmem_block-Served}
use simplix.Kmem.{Kmem, kmalloc_raw, slab_index, object_header, cache_header}
use simplix.Kmem.Grow.{Grown, kmalloc_raw-Grown}

-- Four pages of the kernel and a hole of 16 pages.
abbrev memory_of_20 : PhysMem
memory_of_20 = record {
  pages = λ i. if i == 0 then 4 else 16;
  available = λ i. i == 4;
  block_list = record {
    prev = λ i. if i == 0 then 4 else 0;
    next = λ i. if i == 0 then 4 else 0;
    head = some 0;
  };
  physmem_size = 20 * page_size;
  memory = λ _. 0;
}

abbrev blocks : List Block
blocks = block 4 false ∷ block 16 true ∷ []

blocks-IsLayout : IsLayout memory_of_20 blocks
blocks-IsLayout = record {
  linked = ground arith;
  holds = ground arith;
  filled = refl;
  small = omega arith;
}

served :
    (a : Answer) × (alloc_physmem_block 8 1 memory_of_20 ≡ done a)
    × Served memory_of_20 8 4 blocks (carve 8 blocks) a
served =
    alloc_physmem_block-Served memory_of_20 8 1 blocks blocks-IsLayout (omega arith) (omega arith)
      (ground arith) 4 refl

-- No slab has a cache.
abbrev empty_heap : Kmem
empty_heap = record {
  object_cache = λ _. 0;
  object_prev = λ _. 0;
  object_next = λ _. 0;
  cache_slab = λ _. 0;
  nr_free_objects = λ _. 0;
  free_object_list = λ _. none;
  cache_prev = λ _. 0;
  cache_next = λ _. 0;
  cache_list = λ _. none;
  physmem = memory_of_20;
}

kmalloc_raw-Grown_example :
    (k' : Kmem) × (kmalloc_raw 20 empty_heap
      ≡ done (some (16384 + cache_header + object_header), k'))
    × Grown (slab_index 20) 16384 k'
kmalloc_raw-Grown_example =
    kmalloc_raw-Grown 20 16384 served.0 empty_heap (omega arith) (omega arith) (inl refl) served.1
      served.2.address (omega arith)
