-- ===== src/Kmem/Grow.antt =====
-- What `__kmalloc` does where it makes a new cache.
use native.Mathlib.Nat.{div-mul-le_self, lt-div-mul-add}
use mathlib.Core.Path.{subst}
use simplix.Base.{
  ℕ, zero, suc, ◌+◌, ◌-◌, ◌*◌, ◌/◌, ◌^◌, ◌≤◌, ◌<◌, ◌≡◌, refl, inl, inr, ◌⊎◌, true, Option, none,
  some, List, [], ◌∷◌, arith, ltb, ◌&&◌, update, ap, ◌∙◌, sym,
}
use simplix.Ring.{Ring, list_pop_head}
use simplix.Ring.Chain.{IsRing}
use simplix.Ring.Remove.{list_pop_head-IsRing}
use simplix.PhysMem.{Answer, done, wrap, alloc_physmem_block}
use simplix.Kmem.{
  Kmem, objects, add_cache, new_cache, take_object, grow_slab, kmalloc_raw, set_objects, slab_index,
  slot_size, object_header, cache_header, cache_size, kmem_cache_max_obj_size,
  nr_pages_per_kmem_cache,
}
use simplix.Kmem.Slots.{
  slots, with_slots, with_slots-IsRing, add_objects-with_slots, with_slots-caches,
}

-- The number of slots that begin inside a cache, and the number that fit in it.
abbrev pub slots_begun : ℕ → ℕ
slots_begun idx = (cache_size - cache_header + slot_size idx - 1) / slot_size idx

abbrev pub slots_fitting : ℕ → ℕ
slots_fitting idx = (cache_size - cache_header) / slot_size idx

-- The cache before the loop.
abbrev prepared : ℕ → ℕ → Kmem → Kmem
prepared idx c k = record k {
  cache_slab = update k.cache_slab c idx;
  nr_free_objects = update k.nr_free_objects c (slots_fitting idx);
  free_object_list = update k.free_object_list c none;
}

few_slots :
    (q idx : ℕ)
    → q * slot_size idx ≤ cache_size - cache_header + slot_size idx - 1
    → cache_size - cache_header + slot_size idx - 1 < q * slot_size idx + slot_size idx
    → (q < cache_size) × (0 < q)
few_slots zero idx low high = absurd (omega arith)
few_slots (suc q) idx low high = (omega arith, omega arith)

slots_begun-bounds :
    (idx : ℕ)
    → (slots_begun idx < cache_size)
      × (0 < slots_begun idx)
      × (cache_size - cache_header ≤ slots_begun idx * slot_size idx)
      × (slots_begun idx * slot_size idx < cache_size - cache_header + slot_size idx)
slots_begun-bounds idx =
    let low = div-mul-le_self (cache_size - cache_header + slot_size idx - 1) (slot_size idx) in
    let high =
      lt-div-mul-add {a = cache_size - cache_header + slot_size idx - 1} {b = slot_size idx}
        (omega arith) in
    let (few, one) = few_slots (slots_begun idx) idx low high in
    (few, one, omega (arith, low, high), omega (arith, low, high))

slots-head : (n o size : ℕ) → 0 < n → slots n o size ≡ o ∷ slots (n - 1) (o + size) size
slots-head zero o size p = absurd (omega arith)
slots-head (suc n) o size p = let e : suc n - 1 ≡ n = omega arith in rw e refl

fitting_slots :
    (q idx : ℕ) → idx < 128 → cache_size - cache_header < q * slot_size idx + slot_size idx → 0 < q
fitting_slots zero idx h l = absurd (omega arith)
fitting_slots (suc q) idx h l = omega arith

slots_fitting-bounds :
    (idx : ℕ) → idx < 128 → (0 < slots_fitting idx) × (slots_fitting idx < cache_size)
slots_fitting-bounds idx h =
    let low = div-mul-le_self (cache_size - cache_header) (slot_size idx) in
    let high = lt-div-mul-add {a = cache_size - cache_header} {b = slot_size idx} (omega arith) in
    (fitting_slots (slots_fitting idx) idx h high, omega (arith, low))

new_cache-slots :
    (idx c : ℕ) (k : Kmem)
    → idx < 128
    → c + 2 ^ 16 < 2 ^ 32
    → new_cache idx c k
      ≡ done (
          add_cache idx c
            (with_slots (slots_begun idx) c (c + cache_header) (slot_size idx) (prepared idx c k)))
unfolding new_cache
new_cache-slots idx c k h l =
    let (few, some_, low, high) = slots_begun-bounds idx in
    let start : wrap (c + cache_header) ≡ c + cache_header = omega arith in
    let end : wrap (c + cache_size) ≡ c + cache_size = omega arith in
    rw (new_cache, start, end)
      (rw
        (add_objects-with_slots (slots_begun idx) cache_size c (c + cache_header) (c + cache_size)
          (slot_size idx) (prepared idx c k) few (omega (arith, low)) (omega (arith, high))
          (omega arith))
        refl)

objects-add_cache :
    (idx c : ℕ) (k : Kmem)
    → (objects c (add_cache idx c k) ≡ objects c k)
      × ((add_cache idx c k).nr_free_objects ≡ k.nr_free_objects)
      × ((add_cache idx c k).cache_list idx ≡ some c)
unfolding add_cache
objects-add_cache idx c k = (refl, refl, ground arith)

pub objects-set_objects : (c : ℕ) (r : Ring) (k : Kmem) → objects c (set_objects c r k) ≡ r
objects-set_objects c r k = ground arith

-- What the end of `__kmalloc` does with a cache that has an object in its list.
pub take_object-IsRing :
    (c o : ℕ) (os : List ℕ) (k : Kmem)
    → IsRing (objects c k) (o ∷ os)
    → (k' : Kmem) × (take_object c k ≡ done (some (wrap (o + object_header)), k'))
      × IsRing (objects c k') os
      × (k'.nr_free_objects c ≡ wrap (k.nr_free_objects c + 2 ^ 32 - 1))
      × (k'.cache_list ≡ k.cache_list)
unfolding take_object list_pop_head
take_object-IsRing c o os k r =
    let (first, rest) = list_pop_head-IsRing (objects c k) o os r in
    (
      set_objects c (list_pop_head (objects c k)).1 (record k {
        nr_free_objects = update k.nr_free_objects c (wrap (k.nr_free_objects c + 2 ^ 32 - 1));
      }),
      rw first refl,
      rw (objects-set_objects c (list_pop_head (objects c k)).1 k) rest,
      ground arith,
      refl,
    )

-- A slab that has no cache, or whose first cache has no free object.
abbrev pub Exhausted : ℕ → Kmem → Type 0
Exhausted idx k =
    (k.cache_list idx ≡ none) ⊎ ((c : ℕ) × (k.cache_list idx ≡ some c) × (k.nr_free_objects c ≡ 0))

kmalloc_raw-grow :
    (size : ℕ) (k : Kmem)
    → 0 < size
    → size < kmem_cache_max_obj_size
    → Exhausted (slab_index size) k
    → kmalloc_raw size k ≡ grow_slab (slab_index size) k
unfolding kmalloc_raw
kmalloc_raw-grow size k p l (inl e) =
    let ok : (ltb 0 size && ltb size kmem_cache_max_obj_size) ≡ true = ground arith in
    rw ok (rw e refl)
kmalloc_raw-grow size k p l (inr (c, e, z)) =
    let ok : (ltb 0 size && ltb size kmem_cache_max_obj_size) ≡ true = ground arith in
    rw ok (rw e (rw z refl))

grow_slab-take :
    (idx c : ℕ) (a : Answer) (k : Kmem)
    → idx < 128
    → c + 2 ^ 16 < 2 ^ 32
    → alloc_physmem_block nr_pages_per_kmem_cache 1 k.physmem ≡ done a
    → a.stored ≡ some c
    → grow_slab idx k
      ≡ take_object c (
          add_cache idx c (
            with_slots
              (slots_begun idx)
              c
              (c + cache_header)
              (slot_size idx)
              (prepared idx c (record k { physmem = a.state }))))
unfolding grow_slab
grow_slab-take idx c a k h l e s =
    let new = new_cache-slots idx c (record k { physmem = a.state }) h l in
    rw (grow_slab, e) (rw s (rw new refl))

-- The state of a cache that was made for objects of the slab `idx`, after its first object is
-- handed out.
abbrev pub Grown : ℕ → ℕ → Kmem → Type 0
Grown idx c k =
    IsRing (objects c k)
      (slots (slots_begun idx - 1) (c + cache_header + slot_size idx) (slot_size idx))
    × (k.nr_free_objects c ≡ slots_fitting idx - 1)
    × (k.cache_list idx ≡ some c)

-- For a size that is allowed, where the slab has no free object and the physical memory manager
-- hands out a block `c`, `__kmalloc` ends and returns the first object of a new cache in that
-- block, behind its header. The list of free objects then holds all the other slots that begin
-- in the cache, in order; the count holds one less than the number of slots that fit in it; and
-- the cache is the first of its slab.
pub kmalloc_raw-Grown :
    (size c : ℕ) (a : Answer) (k : Kmem)
    → 0 < size
    → size < kmem_cache_max_obj_size
    → Exhausted (slab_index size) k
    → alloc_physmem_block nr_pages_per_kmem_cache 1 k.physmem ≡ done a
    → a.stored ≡ some c
    → c + 2 ^ 16 < 2 ^ 32
    → (k' : Kmem) × (kmalloc_raw size k ≡ done (some (c + cache_header + object_header), k'))
      × Grown (slab_index size) c k'
kmalloc_raw-Grown size c a k p u x e s l =
    let idx = slab_index size in
    let k0 = prepared idx c (record k { physmem = a.state }) in
    let n = slots_begun idx in
    let o = c + cache_header in
    let k1 = with_slots n c o (slot_size idx) k0 in
    let full =
      with_slots-IsRing n c o (slot_size idx) [] k0 (omega arith) (ground arith) (λ i l'. refl) in
    let (kept, count, first) = objects-add_cache idx c k1 in
    let here : IsRing (objects c (add_cache idx c k1))
        (o ∷ slots (n - 1) (o + slot_size idx) (slot_size idx)) =
      subst (λ r. IsRing r (o ∷ slots (n - 1) (o + slot_size idx) (slot_size idx))) (sym kept)
        (rw (slots-head n o (slot_size idx) (slots_begun-bounds idx).1) at full) in
    let written : k1.nr_free_objects c ≡ slots_fitting idx =
      ap (λ (f : ℕ → ℕ). f c) (with_slots-caches n c o (slot_size idx) k0).0 ∙ ground arith in
    let (k', runs, rest, less, slab) =
      take_object-IsRing c o (slots (n - 1) (o + slot_size idx) (slot_size idx))
        (add_cache idx c k1) here in
    (
      k',
      kmalloc_raw-grow size k p u x
          ∙ grow_slab-take idx c a k (omega arith) l e s
          ∙ runs
          ∙ ap (λ (q : ℕ). done (some q, k')) (omega arith),
      (
        rest,
        less
            ∙ omega (
              arith,
              ap (λ (f : ℕ → ℕ). f c) count,
              written,
              slots_fitting-bounds idx (omega arith),
            ),
        ap (λ (f : ℕ → Option ℕ). f idx) slab ∙ first,
      ),
    )
