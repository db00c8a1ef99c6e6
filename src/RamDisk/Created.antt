-- ===== src/RamDisk/Created.antt =====
-- create_ramdisk and destroy_ramdisk of drivers/ramdisk.c: what a new RAM disk is, and what is left
-- of one.
use simplix.Base.{
  ℕ, ◌+◌, ◌*◌, ◌/◌, ◌^◌, ◌<◌, ◌≤◌, ◌≡◌, refl, ◌∙◌, inl, inr, arith, true, false, none, some, List,
  [], ◌∷◌, ◌++◌, ◌==◌, if◌then◌else◌, Bool-cases,
}
use simplix.PhysMem.{
  PhysMem, Ret, free_physmem_block, s_ok, done, Answer, page_size, page_align_sup,
  alloc_physmem_block,
}
use simplix.PhysMem.Layout.{Block, IsLayout, Coalesced, total, starts, allocated}
use simplix.PhysMem.Merge.{release, drop_block}
use simplix.PhysMem.Release.{free_physmem_block-release}
use simplix.Ring.Chain.{has}
use simplix.PhysMem.Alloc.{first_fit, carve}
use simplix.PhysMem.Fit.{Served, alloc_physmem_block-Served}
use simplix.Kmem.{Kmem, kmalloc_raw, kfree}
use simplix.RamDisk.{Ramdisk, block_size, wrap, get_ramdisk_instance}
use simplix.RamDisk.Driver.{
  DiskDriver, ramdisk_size, set_physmem, add_ramdisk, create_ramdisk, find_instance,
  without_instance, destroy_ramdisk,
}

-- The instances without the addresses of their structures.
abbrev pub disks_of : List (ℕ × Ramdisk) → List Ramdisk
disks_of [] = []
disks_of ((a, rd) ∷ rds) = rd ∷ disks_of rds

disks_of-append :
    (xs : List (ℕ × Ramdisk)) (a : ℕ) (rd : Ramdisk)
    → disks_of (xs ++ (a, rd) ∷ []) ≡ disks_of xs ++ rd ∷ []
disks_of-append [] a rd = refl
disks_of-append ((b, x) ∷ xs) a rd = rw (disks_of-append xs a rd)

-- The search in a list with a new last element.
get-append :
    (minor : ℕ) (rd : Ramdisk) (rds : List Ramdisk)
    → get_ramdisk_instance minor (rds ++ rd ∷ []) ≡ elim (get_ramdisk_instance minor rds) [
      | some x ↦ some x
      | none ↦ if rd.minor == minor then some rd else none
    ]
unfolding get_ramdisk_instance
get-append minor rd [] = refl
get-append minor rd (x ∷ rds) = elim (Bool-cases (x.minor == minor)) [
  | inl e ↦ rw e refl
  | inr e ↦ rw e (get-append minor rd rds)
]

get-append_ne :
    (minor : ℕ) (rd : Ramdisk) (rds : List Ramdisk)
    → (rd.minor == minor) ≡ false
    → get_ramdisk_instance minor (rds ++ rd ∷ []) ≡ get_ramdisk_instance minor rds
unfolding get_ramdisk_instance
get-append_ne minor rd [] off = rw off refl
get-append_ne minor rd (x ∷ rds) off = elim (Bool-cases (x.minor == minor)) [
  | inl e ↦ rw e refl
  | inr e ↦ rw e (get-append_ne minor rd rds off)
]

create_ramdisk-done :
    (len rd addr : ℕ) (d : DiskDriver) (h : Kmem) (a : Answer)
    → (len == 0) ≡ false
    → kmalloc_raw ramdisk_size d.heap ≡ done (some rd, h)
    → alloc_physmem_block (page_align_sup len / page_size) 1 h.physmem ≡ done a
    → a.stored ≡ some addr
    → create_ramdisk len d
      ≡ done (
        s_ok,
        some d.n,
        add_ramdisk rd
            (page_align_sup len / page_size)
            addr
            (set_physmem a.state (record d { heap = h })),
      )
unfolding create_ramdisk
create_ramdisk-done len rd addr d h a nonzero got e stored =
    rw (nonzero, got) (rw e (rw stored refl))

-- A RAM disk of `n` pages from page `b` on.
abbrev pub new_disk : ℕ → ℕ → ℕ → Ramdisk
new_disk minor b n = record { minor = minor; addr = b * page_size; nblocks = n * 8 }

module _ (len rd b : ℕ) (d : DiskDriver) (h : Kmem) (bs : List Block) where
  abbrev nr_pages : ℕ
  nr_pages = page_align_sup len / page_size

  -- For a length that is not 0 and that the rounding to pages does not wrap, a structure from the
  -- heap and a hole that is big enough, create_ramdisk returns S_OK. The disk has the length at
  -- least and begins with the block that the physical memory manager gave, which no block covered
  -- and which is filled with zeros. Its minor number leads to it, if it led to no other disk, and
  -- every other minor number leads to what it led to before.
  pub create_ramdisk-Served :
      0 < len
      → len + page_size ≤ 2 ^ 32
      → kmalloc_raw ramdisk_size d.heap ≡ done (some rd, h)
      → IsLayout h.physmem bs
      → Coalesced bs
      → first_fit nr_pages 0 bs ≡ some b
      → b + nr_pages < 2 ^ 20
      → get_ramdisk_instance d.n (disks_of d.instances) ≡ none
      → (a : Answer) × (d' : DiskDriver) × (create_ramdisk len d ≡ done (s_ok, some d.n, d'))
        × (d'.heap.physmem ≡ a.state)
        × Served h.physmem nr_pages b bs (carve nr_pages bs) a
        × (len ≤ nr_pages * 8 * block_size)
        × (get_ramdisk_instance d.n (disks_of d'.instances) ≡ some (new_disk d.n b nr_pages))
        × ((minor : ℕ)
            → (d.n == minor) ≡ false
            → get_ramdisk_instance minor (disks_of d'.instances)
              ≡ get_ramdisk_instance minor (disks_of d.instances))
  unfolding add_ramdisk
  create_ramdisk-Served pos small got lay co fits bound fresh =
      let pages_pos : 0 < nr_pages = omega arith in
      let (a, e, served) =
        alloc_physmem_block-Served h.physmem nr_pages 1 bs lay pages_pos (omega arith) co b fits in
      let nonzero : (len == 0) ≡ false = ground arith in
      let size : wrap (nr_pages * page_size) / block_size ≡ nr_pages * 8 = omega arith in
      let d2 = set_physmem a.state (record d { heap = h }) in
      let created : create_ramdisk len d
          ≡ done (s_ok, some d.n, add_ramdisk rd nr_pages (b * page_size) d2) =
        create_ramdisk-done len rd (b * page_size) d h a nonzero got e served.address in
      let new : Ramdisk = record {
        minor = d.n;
        addr = b * page_size;
        nblocks = wrap (nr_pages * page_size) / block_size;
      } in
      let list : disks_of (d.instances ++ (rd, new) ∷ []) ≡ disks_of d.instances ++ new ∷ [] =
        disks_of-append d.instances rd new in
      let here : (d.n == d.n) ≡ true = ground arith in
      (
        a,
        add_ramdisk rd nr_pages (b * page_size) d2,
        created,
        refl,
        served,
        omega arith,
        rw list (get-append d.n new (disks_of d.instances) ∙ rw (fresh, here, size) refl),
        λ minor off. rw list (get-append_ne minor new (disks_of d.instances) off),
      )

destroy_ramdisk-done :
    (minor addr a : ℕ) (rd : Ramdisk) (d : DiskDriver) (ret : Ret) (m : PhysMem)
    → find_instance minor d.instances ≡ some (a, rd)
    → rd.addr ≡ addr
    → free_physmem_block addr d.heap.physmem ≡ done (ret, m)
    → destroy_ramdisk minor d
      ≡ done (record (set_physmem m d) {
        instances = without_instance a d.instances;
        heap = kfree a (set_physmem m d).heap;
      })
unfolding destroy_ramdisk
destroy_ramdisk-done minor addr a rd d ret m found at freed =
    rw (destroy_ramdisk, found) (rw at (rw freed refl))

-- For the minor number of an instance whose block is allocated and does not begin in the last page,
-- destroy_ramdisk comes to an end. The block is given back and merged with the holes around it, the
-- other allocated blocks are as before, and the instance leaves the list.
pub destroy_ramdisk-release :
    (minor i a : ℕ) (rd : Ramdisk) (d : DiskDriver) (bs : List Block)
    → find_instance minor d.instances ≡ some (a, rd)
    → rd.addr ≡ i * page_size
    → IsLayout d.heap.physmem bs
    → Coalesced bs
    → has i (starts 0 bs) ≡ true
    → d.heap.physmem.available i ≡ false
    → i + 1 < total bs
    → (d' : DiskDriver) × (destroy_ramdisk minor d ≡ done d')
      × (d'.instances ≡ without_instance a d.instances)
      × IsLayout d'.heap.physmem (release i 0 bs)
      × (allocated 0 (release i 0 bs) ≡ drop_block i (allocated 0 bs))
unfolding kfree
destroy_ramdisk-release minor i a rd d bs found at lay co begins taken last =
    let (m, freed, layout, _, dropped) =
      free_physmem_block-release d.heap.physmem i bs lay co begins taken last in
    let d1 = set_physmem m d in
    (
      record d1 { instances = without_instance a d.instances; heap = kfree a d1.heap },
      destroy_ramdisk-done minor (i * page_size) a rd d s_ok m found at freed,
      refl,
      layout,
      dropped,
    )
