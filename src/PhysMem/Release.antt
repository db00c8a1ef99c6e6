-- ===== src/PhysMem/Release.antt =====
-- free_physmem_block: the two merges together give back a block to the holes around it.
use simplix.Base.{
  ℕ, ◌+◌, ◌-◌, ◌*◌, ◌/◌, ◌^◌, ◌<◌, ◌≡◌, refl, inl, inr, true, false, List, [], ◌∷◌, arith, ltb, leb,
  ◌==◌, if◌then◌else◌, update, Bool-cases, ap, ◌∙◌,
}
use simplix.Ring.Chain.{has}
use simplix.PhysMem.{
  PhysMem, done, panic, s_ok, page_size, wrap, merge_next, merge_prev, free_physmem_block,
}
use simplix.PhysMem.Layout.{
  Block, starts, total, IsLayout, has-total, Coalesced, allocated, has-bound,
}
use simplix.PhysMem.Free.{
  mark, has_next, starts-mark, merge, merge-IsLayout, mark-IsLayout, total-mark, next-starts,
  prev-starts,
}
use simplix.PhysMem.Merge.{
  release_next, release, hole_at-available, hole_at-none, release_next-fuse, release_next-mark,
  release-fuse, release-keep, release_first, merge_prev_hole, Coalesced-release, drop_block,
  allocated-release, has-release_next, has-release_next_self,
}

pub next-IsLayout :
    (m : PhysMem) (i : ℕ) (bs : List Block)
    → IsLayout m bs
    → has i (starts 0 bs) ≡ true
    → m.block_list.next i ≡ (if i + m.pages i == total bs then 0 else i + m.pages i)
next-IsLayout m i [] lay k = cc
next-IsLayout m i (b ∷ bs) lay k =
    ground (arith, next-starts m m.block_list i 0 0 b bs lay.linked.1 lay.holds)

prev-IsLayout :
    (m : PhysMem) (i : ℕ) (bs : List Block)
    → IsLayout m bs
    → has i (starts 0 bs) ≡ true
    → 0 < i
    → let j : ℕ = m.block_list.prev i in (has j (starts 0 bs) ≡ true) × (j + m.pages j ≡ i)
prev-IsLayout m i [] lay k l = cc
prev-IsLayout m i (b ∷ bs) lay k l =
    prev-starts m m.block_list i 0 0 b bs lay.linked.1 lay.holds (ground arith)

module _ (m : PhysMem) (i : ℕ) (bs : List Block) (lay : IsLayout m bs) (co : Coalesced bs)
    (begins : has i (starts 0 bs) ≡ true) (taken : m.available i ≡ false) where
  abbrev m1 : PhysMem
  m1 = record m { available = update m.available i true }

  merge_next-IsLayout : IsLayout (merge_next i m1) (release_next i 0 bs)
  unfolding merge_next
  merge_next-IsLayout =
      let bound = has-bound m i 0 bs lay.holds begins in
      let to = next-IsLayout m i bs lay begins in
      let marked = mark-IsLayout m i bs lay in
      elim (Bool-cases (i + m.pages i == total bs)) [
        | inl e ↦
            let home : m.block_list.next i ≡ 0 = ground (arith, to) in
            let none_behind =
              hole_at-none (i + m.pages i) 0 bs
                (has-total m (i + m.pages i) 0 bs lay.holds (ground arith)) in
            let stay : merge_next i m1 ≡ m1 = ground (arith, home) in
            rw (stay, ← release_next-mark m i 0 bs lay.holds begins none_behind) marked
        | inr e ↦
            let step : m.block_list.next i ≡ i + m.pages i = ground (arith, to) in
            let inside : i + m.pages i < total bs = ground arith in
            let there = has_next m i 0 bs lay.holds begins (omega arith) in
            let flag = hole_at-available m (i + m.pages i) 0 bs lay.holds there in
            elim (Bool-cases (m.available (i + m.pages i))) [
              | inl hole ↦
                  let moved : merge_next i m1 ≡ merge i (i + m.pages i) m1 =
                    ground (arith, step, ap m.available step) in
                  rw (moved, ← release_next-fuse m i 0 bs lay.holds begins (flag ∙ hole))
                    (merge-IsLayout m1 i (mark i 0 bs) marked (rw starts-mark begins)
                      (rw total-mark inside))
              | inr used ↦
                  let stay : merge_next i m1 ≡ m1 = ground (arith, step, ap m.available step) in
                  rw (stay, ← release_next-mark m i 0 bs lay.holds begins (flag ∙ used)) marked
            ]
      ]

  pages-merge_next : (j : ℕ) → (i == j) ≡ false → (merge_next i m1).pages j ≡ m.pages j
  unfolding merge_next
  pages-merge_next j ne = ground arith

  available-merge_next : (j : ℕ) → (i == j) ≡ false → (merge_next i m1).available j ≡ m.available j
  unfolding merge_next
  available-merge_next j ne = ground arith

  physmem_size-merge_next : (merge_next i m1).physmem_size ≡ m.physmem_size
  unfolding merge_next
  physmem_size-merge_next = ground arith

  merge_prev-IsLayout : IsLayout (merge_prev i (merge_next i m1)) (release i 0 bs)
  unfolding merge_prev
  merge_prev-IsLayout =
      let m2 = merge_next i m1 in
      let bs2 = release_next i 0 bs in
      let lay2 = merge_next-IsLayout in
      let begins2 = has-release_next_self i 0 bs begins in
      elim (Bool-cases (ltb 0 i)) [
        | inl l ↦
            let pos : 0 < i = ground arith in
            let j = m2.block_list.prev i in
            let (on2, meet2) = prev-IsLayout m2 i bs2 lay2 begins2 pos in
            let bound2 = has-bound m2 j 0 bs2 lay2.holds on2 in
            let ends = has-bound m2 i 0 bs2 lay2.holds begins2 in
            let ne : (i == j) ≡ false = ground arith in
            let on = has-release_next j i 0 bs on2 in
            let meet : j + m.pages j ≡ i = omega (arith, pages-merge_next j ne) in
            elim (Bool-cases (m.available j)) [
              | inl hole ↦
                  let moved : merge_prev i m2 ≡ merge j (j + m2.pages j) m2 =
                    rw meet2
                      (merge_prev_hole m2 i (ground arith) (available-merge_next j ne ∙ hole)) in
                  rw (moved, ← release-fuse m i j 0 false bs lay.holds co on meet begins taken hole)
                    (merge-IsLayout m2 j bs2 lay2 on2 (omega arith))
              | inr used ↦
                  let stay : merge_prev i m2 ≡ m2 = ground (arith, available-merge_next j ne) in
                  rw (stay, ← release-keep m i j 0 false bs lay.holds co on meet used) lay2
            ]
        | inr z ↦
            let here : i ≡ 0 = ground arith in
            let stay : merge_prev i m2 ≡ m2 = ground arith in
            rw (stay, ← release_first i bs here) lay2
      ]

free_limit :
    (m : PhysMem) (bs : List Block)
    → IsLayout m bs
    → 0 < total bs
    → wrap (m.physmem_size + 2 ^ 32 - page_size) + page_size ≡ total bs * page_size
free_limit m bs lay pos = omega (arith, lay.filled, lay.small)

-- Freeing an allocated block that does not begin in the last page of memory succeeds. The blocks
-- are then the old ones with this block given back and merged with the holes around it, no hole
-- follows a hole, and the allocated blocks are the old ones without this one.
pub free_physmem_block-release :
    (m : PhysMem) (i : ℕ) (bs : List Block)
    → IsLayout m bs
    → Coalesced bs
    → has i (starts 0 bs) ≡ true
    → m.available i ≡ false
    → i + 1 < total bs
    → (s : PhysMem) × (free_physmem_block (i * page_size) m ≡ done (s_ok, s))
      × IsLayout s (release i 0 bs)
      × Coalesced (release i 0 bs)
      × (allocated 0 (release i 0 bs) ≡ drop_block i (allocated 0 bs))
unfolding free_physmem_block
free_physmem_block-release m i bs lay co begins taken last =
    let at : i * page_size / page_size ≡ i = omega arith in
    let bound = free_limit m bs lay (omega arith) in
    let below : leb (wrap (m.physmem_size + 2 ^ 32 - page_size)) (i * page_size) ≡ false =
      ground arith in
    (
      merge_prev i (merge_next i (record m { available = update m.available i true })),
      rw (below, at, taken) refl,
      merge_prev-IsLayout m i bs lay co begins taken,
      Coalesced-release i 0 bs co,
      allocated-release m i 0 bs lay.holds,
    )

-- The kernel panics when a client frees a block that begins in the last page of memory, also if
-- the block is allocated.
pub free_physmem_block-last_page :
    (m : PhysMem) (i : ℕ) (bs : List Block)
    → IsLayout m bs
    → i + 1 ≡ total bs
    → free_physmem_block (i * page_size) m ≡ panic
unfolding free_physmem_block
free_physmem_block-last_page m i bs lay last =
    let bound = free_limit m bs lay (omega arith) in ground arith
