-- ===== src/Kmem.antt =====
-- The kernel heap, kernel/kmem.c.
-- Caches and objects are named by their addresses, and each field of the two structures is an
-- array over these; the headers are so kept apart from the bytes that the callers write. A slab is
-- named by its index. Sizes and addresses are 32-bit, with the wrap-around written out.
pub mod Slots
pub mod Grow
pub mod Reuse
mod Tests
use simplix.Base.{
  ℕ, zero, suc, ◌+◌, ◌-◌, ◌*◌, ◌/◌, ◌%◌, ◌^◌, Bool, ◌&&◌, not, Option, none, some, ltb, ◌==◌,
  if◌then◌else◌, update,
}
use simplix.Ring.{Ring, list_append, list_pop_head}
use simplix.Str.{memset}
use simplix.PhysMem.{PhysMem, Run, done, panic, out_of_fuel, wrap, alloc_physmem_block}

pub record Kmem : Type 0 where
  -- struct kmem_object
  pub object_cache : ℕ → ℕ
  pub object_prev : ℕ → ℕ
  pub object_next : ℕ → ℕ
  -- struct kmem_cache
  pub cache_slab : ℕ → ℕ
  pub nr_free_objects : ℕ → ℕ
  pub free_object_list : ℕ → Option ℕ
  pub cache_prev : ℕ → ℕ
  pub cache_next : ℕ → ℕ
  -- struct kmem_slab
  pub cache_list : ℕ → Option ℕ
  pub physmem : PhysMem

abbrev pub nr_pages_per_kmem_cache : ℕ
nr_pages_per_kmem_cache = 8

abbrev pub kmem_cache_max_obj_size : ℕ
kmem_cache_max_obj_size = 1024

-- The sizes of the two structures.
abbrev pub object_header : ℕ
object_header = 12

abbrev pub cache_header : ℕ
cache_header = 20

abbrev pub cache_size : ℕ
cache_size = 32768

-- The slab of the objects of a given size.
abbrev pub slab_index : ℕ → ℕ
slab_index size = (size - 1) / 8

-- The size of the slots of a slab, as the code computes it.
abbrev pub slot_size : ℕ → ℕ
slot_size idx = object_header + idx * 8

-- The free objects of a cache.
abbrev pub objects : ℕ → Kmem → Ring
objects c k = record { prev = k.object_prev; next = k.object_next; head = k.free_object_list c }

abbrev pub set_objects : ℕ → Ring → Kmem → Kmem
set_objects c r k = record k {
  object_prev = r.prev;
  object_next = r.next;
  free_object_list = update k.free_object_list c r.head;
}

-- The caches of a slab.
abbrev pub caches : ℕ → Kmem → Ring
caches s k = record { prev = k.cache_prev; next = k.cache_next; head = k.cache_list s }

-- The body of the loop that fills a new cache with objects.
unfoldable pub add_object : ℕ → ℕ → Kmem → Kmem
add_object c o k0 =
    let k : Kmem = record k0 { object_cache = update k0.object_cache o c } in
    set_objects c (list_append o (objects c k)) k

unfoldable pub add_objects : ℕ → ℕ → ℕ → ℕ → ℕ → Kmem → Run Kmem
unfolding add_object
add_objects zero c o end size k = out_of_fuel
add_objects (suc fuel) c o end size k =
    let rest = add_objects fuel c (wrap (o + size)) end size (add_object c o k) in
    if ltb o end then rest else done k

-- The cache goes to the front of its slab.
unfoldable pub add_cache : ℕ → ℕ → Kmem → Kmem
add_cache idx c k =
    let r = list_append c (caches idx k) in
    record k {
      cache_prev = r.prev;
      cache_next = r.next;
      cache_list = update k.cache_list idx (some c);
    }

-- The cache of which the block of memory at `c` is made. The block is filled with zeros, so its
-- list of free objects is empty. A slot takes 12 bytes, so the fuel is enough for the loop.
unfoldable pub new_cache : ℕ → ℕ → Kmem → Run Kmem
new_cache idx c k0 =
    let k : Kmem = record k0 {
      cache_slab = update k0.cache_slab c idx;
      nr_free_objects = update k0.nr_free_objects c ((cache_size - cache_header) / slot_size idx);
      free_object_list = update k0.free_object_list c none;
    } in
    elim (add_objects cache_size c (wrap (c + cache_header)) (wrap (c + cache_size)) (slot_size idx)
      k) [ done k' ↦ done (add_cache idx c k') | panic ↦ panic | out_of_fuel ↦ out_of_fuel ]

-- The end of `__kmalloc`. On an empty list the code goes through a null pointer; the model stops.
unfoldable pub take_object : ℕ → Kmem → Run (Option ℕ × Kmem)
take_object c k0 =
    let k : Kmem = record k0 {
      nr_free_objects = update k0.nr_free_objects c (wrap (k0.nr_free_objects c + 2 ^ 32 - 1));
    } in
    let (object, r) = list_pop_head (objects c k) in
    elim object [
      | none ↦ panic
      | some o ↦ done (some (wrap (o + object_header)), set_objects c r k)
    ]

-- Where the slab has no cache with a free object.
unfoldable pub grow_slab : ℕ → Kmem → Run (Option ℕ × Kmem)
unfolding new_cache take_object
grow_slab idx k = elim (alloc_physmem_block nr_pages_per_kmem_cache 1 k.physmem) [
  | panic ↦ panic
  | out_of_fuel ↦ out_of_fuel
  | done a ↦ elim a.stored [
    | none ↦ done (none, record k { physmem = a.state })
    | some c ↦ elim (new_cache idx c (record k { physmem = a.state })) [
      | panic ↦ panic
      | out_of_fuel ↦ out_of_fuel
      | done k' ↦ take_object c k'
    ]
  ]
]

-- `__kmalloc`; `none` is a null pointer.
unfoldable pub kmalloc_raw : ℕ → Kmem → Run (Option ℕ × Kmem)
unfolding grow_slab take_object
kmalloc_raw size k =
    let idx = slab_index size in
    if not (ltb 0 size && ltb size kmem_cache_max_obj_size)
    then panic
    else elim (k.cache_list idx) [
      | none ↦ grow_slab idx k
      | some c ↦ if k.nr_free_objects c == 0 then grow_slab idx k else take_object c k
    ]

abbrev clear_object : ℕ → Option ℕ × Kmem → Option ℕ × Kmem
clear_object size (none, k) = (none, k)
clear_object size (some p, k) = (
  some p,
  record k { physmem = record (k.physmem) { memory = memset p 0 size k.physmem.memory } },
)

unfoldable pub kmalloc : ℕ → Kmem → Run (Option ℕ × Kmem)
unfolding kmalloc_raw
kmalloc size k = elim (kmalloc_raw size k) [
  | done r ↦ done (clear_object size r)
  | panic ↦ panic
  | out_of_fuel ↦ out_of_fuel
]

unfoldable pub kfree : ℕ → Kmem → Kmem
kfree ptr k0 =
    let o = wrap (ptr + 2 ^ 32 - object_header) in
    let c = k0.object_cache o in
    let k = set_objects c (list_append o (objects c k0)) k0 in
    record k {
      nr_free_objects = update k.nr_free_objects c (wrap (k.nr_free_objects c + 1));
      cache_list = update k.cache_list (k.cache_slab c) (some c);
    }
