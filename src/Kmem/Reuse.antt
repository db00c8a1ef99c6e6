-- ===== src/Kmem/Reuse.antt =====
-- Where a cache of kernel/kmem.c has free objects: `__kmalloc` and kfree over its list.
use mathlib.Core.Path.{subst}
use simplix.Base.{
  ℕ, ◌+◌, ◌-◌, ◌^◌, ◌≤◌, ◌<◌, ◌≡◌, refl, true, false, Option, some, List, [], ◌∷◌, ◌++◌, arith, ltb,
  ◌==◌, ◌&&◌, update, ap, ◌∙◌, sym,
}
use simplix.Ring.{list_append}
use simplix.Ring.Chain.{has, IsRing}
use simplix.Ring.Insert.{list_append-IsRing}
use simplix.PhysMem.{done, wrap}
use simplix.Kmem.{
  Kmem, objects, kmalloc_raw, kfree, set_objects, slab_index, slot_size, object_header,
  kmem_cache_max_obj_size,
}
use simplix.Kmem.Grow.{take_object-IsRing, objects-set_objects}

-- A cache that is the first of its slab and has the free objects `os`, in order.
abbrev pub HasFree : ℕ → ℕ → ℕ → List ℕ → Kmem → Type 0
HasFree idx c n os k =
    (k.cache_list idx ≡ some c) × (k.nr_free_objects c ≡ n) × IsRing (objects c k) os

-- For a size that is allowed, if the first cache of its slab has a free object, `__kmalloc`
-- returns the first object of the list, behind its header, and leaves the others, in order; the
-- count is one less.
pub kmalloc_raw-HasFree :
    (size c n o : ℕ) (os : List ℕ) (k : Kmem)
    → 0 < size
    → size < kmem_cache_max_obj_size
    → HasFree (slab_index size) c n (o ∷ os) k
    → 0 < n
    → n < 2 ^ 32
    → (k' : Kmem) × (kmalloc_raw size k ≡ done (some (wrap (o + object_header)), k'))
      × HasFree (slab_index size) c (n - 1) os k'
unfolding kmalloc_raw
kmalloc_raw-HasFree size c n o os k p l (slab, count, ring) q u =
    let ok : (ltb 0 size && ltb size kmem_cache_max_obj_size) ≡ true = ground arith in
    let some_ : (k.nr_free_objects c == 0) ≡ false = ground arith in
    let (k', runs, rest, less, slabs) = take_object-IsRing c o os k ring in
    (
      k',
      rw ok (rw slab (rw some_ runs)),
      (ap (λ (f : ℕ → Option ℕ). f (slab_index size)) slabs ∙ slab, omega (arith, less), rest),
    )

kfree-links :
    (c o : ℕ) (k : Kmem)
    → o + object_header < 2 ^ 32
    → k.object_cache o ≡ c
    → kfree (o + object_header) k ≡ record (set_objects c (list_append o (objects c k)) k) {
      nr_free_objects = update k.nr_free_objects c (wrap (k.nr_free_objects c + 1));
      cache_list = update k.cache_list (k.cache_slab c) (some c);
    }
unfolding kfree
kfree-links c o k l e =
    let at : wrap (o + object_header + 2 ^ 32 - object_header) ≡ o = omega arith in
    rw (kfree, at) (rw e refl)

-- kfree of an object that belongs to the cache puts it behind the others in the list, and the
-- cache in front of its slab; the count is one more.
pub kfree-HasFree :
    (c n o idx : ℕ) (os : List ℕ) (k : Kmem)
    → o + object_header < 2 ^ 32
    → k.object_cache o ≡ c
    → k.cache_slab c ≡ idx
    → k.nr_free_objects c ≡ n
    → n + 1 < 2 ^ 32
    → IsRing (objects c k) os
    → has o os ≡ false
    → HasFree idx c (n + 1) (os ++ o ∷ []) (kfree (o + object_header) k)
kfree-HasFree c n o idx os k l e s z u r h = rw (kfree-links c o k l e) (
  rw s (ground arith),
  ground arith,
  subst (λ q. IsRing q (os ++ o ∷ [])) (sym (objects-set_objects c (list_append o (objects c k)) k))
      (list_append-IsRing (objects c k) o os r h),
)

-- For every size that is allowed, the slots of its slab are too small: the bytes of an object reach
-- into the slot that follows, by no more than 8 bytes.
pub slot_size_short :
    (size : ℕ)
    → 0 < size
    → size < kmem_cache_max_obj_size
    → (slot_size (slab_index size) < object_header + size)
      × (object_header + size ≤ slot_size (slab_index size) + 8)
slot_size_short size p l = (omega arith, omega arith)
