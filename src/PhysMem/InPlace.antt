-- ===== src/PhysMem/InPlace.antt =====
-- realloc_physmem_block, where the block can stay where it is.
use simplix.Base.{
  ℕ, ◌+◌, ◌-◌, ◌*◌, ◌/◌, ◌^◌, ◌<◌, ◌≡◌, refl, inl, inr, ◌⊎◌, true, false, some, List, arith, ltb,
  leb, ◌==◌, Bool-cases, ap, ◌∙◌,
}
use simplix.Ring.Chain.{has}
use simplix.PhysMem.{PhysMem, done, s_ok, page_size, wrap}
use simplix.PhysMem.Layout.{Block, starts, total, IsLayout, Coalesced, allocated, has-bound}
use simplix.PhysMem.Free.{has_next}
use simplix.PhysMem.Release.{next-IsLayout}
use simplix.PhysMem.Realloc.{
  answer, hole_follows, new_end, shrink_block, widen_block, realloc_physmem_block,
}
use simplix.PhysMem.Boundary.{shift, split, shifted, splitted, split-IsLayout}
use simplix.PhysMem.Shift.{shift-IsLayout}
use simplix.PhysMem.Resize.{resize, allocated-split, allocated-shift, Apart-shift, Apart-split}

-- The well-formed state after a block is resized in place.
abbrev pub Resized : PhysMem → ℕ → ℕ → List Block → PhysMem → Type 0
Resized m i n bs s =
    (bs' : List Block) × IsLayout s bs'
    × Coalesced bs'
    × (allocated 0 bs' ≡ resize i n (allocated 0 bs))
    × (s.memory ≡ m.memory)

module _ (m : PhysMem) (i n : ℕ) (bs : List Block) (lay : IsLayout m bs) (co : Coalesced bs)
    (begins : has i (starts 0 bs) ≡ true) (taken : m.available i ≡ false) (pos : 0 < n) where
  -- What the test of the code says of the block behind.
  follows :
      hole_follows i m ≡ true
      → (i + m.pages i < total bs)
        × (m.block_list.next i ≡ i + m.pages i)
        × (m.available (i + m.pages i) ≡ true)
  follows h =
      let bound = has-bound m i 0 bs lay.holds begins in
      elim (Bool-cases (i + m.pages i == total bs)) [
        | inl e ↦ absurd (ground (arith, next-IsLayout m i bs lay begins))
        | inr e ↦
            let to : m.block_list.next i ≡ i + m.pages i =
              ground (arith, next-IsLayout m i bs lay begins) in
            (ground arith, to, ground (arith, ap m.available to))
      ]

  none_follows :
      hole_follows i m ≡ false → i + m.pages i < total bs → m.available (i + m.pages i) ≡ false
  none_follows h l =
      let bound = has-bound m i 0 bs lay.holds begins in
      let to : m.block_list.next i ≡ i + m.pages i =
        ground (arith, next-IsLayout m i bs lay begins) in
      ground (arith, ap m.available to)

  end_at : i + n < 2 ^ 20 → new_end (i * page_size) n ≡ i + n
  end_at h = omega arith

  -- The code makes the writes of `shifted`, whether it shrinks the block or widens it.
  shrink-shifted :
      hole_follows i m ≡ true → n < m.pages i → shrink_block i (i * page_size) n m ≡ shifted i n m
  unfolding shrink_block
  shrink-shifted h l =
      let (inside, to, free) = follows h in
      let bound = has-bound m i 0 bs lay.holds begins in
      let next =
        has-bound m (i + m.pages i) 0 bs lay.holds
          (has_next m i 0 bs lay.holds begins (omega arith)) in
      let e = end_at (omega (arith, lay.small)) in
      let size : wrap (wrap (m.pages (i + m.pages i) + m.pages i) + 2 ^ 32 - n)
          ≡ m.pages i + m.pages (i + m.pages i) - n =
        omega (arith, lay.small) in
      rw (shrink_block, h) (rw (e, to) (rw size refl))

  widen-shifted :
      (junk : ℕ)
      → hole_follows i m ≡ true
      → m.pages i < n
      → n < m.pages i + m.pages (i + m.pages i)
      → widen_block junk i (i * page_size) n m ≡ shifted i n m
  unfolding widen_block
  widen-shifted junk h l u =
      let (inside, to, free) = follows h in
      let bound = has-bound m i 0 bs lay.holds begins in
      let next =
        has-bound m (i + m.pages i) 0 bs lay.holds
          (has_next m i 0 bs lay.holds begins (omega arith)) in
      let e = end_at (omega (arith, lay.small)) in
      let test : ltb (wrap (n + 2 ^ 32 - m.pages i)) (m.pages (i + m.pages i)) ≡ true =
        ground (arith, lay.small) in
      let size : wrap (wrap (m.pages (i + m.pages i) + 2 ^ 32 - n) + m.pages i)
          ≡ m.pages i + m.pages (i + m.pages i) - n =
        omega (arith, lay.small) in
      rw to (rw test (rw (e, size) refl))

  shrink-splitted :
      hole_follows i m ≡ false → n < m.pages i → shrink_block i (i * page_size) n m ≡ splitted i n m
  unfolding shrink_block
  shrink-splitted h l =
      let bound = has-bound m i 0 bs lay.holds begins in
      let e = end_at (omega (arith, lay.small)) in
      let size : wrap (m.pages i + 2 ^ 32 - n) ≡ m.pages i - n = omega (arith, lay.small) in
      rw (shrink_block, h) (rw (e, size) refl)

  module _ (junk paddr : ℕ) (given : (paddr == 0) ≡ false) where
    realloc-shrink :
        n < m.pages i
        → realloc_physmem_block junk (i * page_size) n paddr m
          ≡ done (answer s_ok (some (i * page_size)) (shrink_block i (i * page_size) n m))
    unfolding realloc_physmem_block
    realloc-shrink l =
        let at : i * page_size / page_size ≡ i = omega arith in
        let z : (n == 0) ≡ false = ground arith in
        let ne : (n == m.pages i) ≡ false = ground arith in
        let less : ltb n (m.pages i) ≡ true = ground arith in
        rw (at, z, given) (rw (taken, ne) (rw less refl))

    realloc-widen :
        hole_follows i m ≡ true
        → m.pages i < n
        → n < m.pages i + m.pages (i + m.pages i)
        → realloc_physmem_block junk (i * page_size) n paddr m
          ≡ done (answer s_ok (some (i * page_size)) (widen_block junk i (i * page_size) n m))
    unfolding realloc_physmem_block
    realloc-widen h l u =
        let (inside, to, free) = follows h in
        let bound = has-bound m i 0 bs lay.holds begins in
        let next =
          has-bound m (i + m.pages i) 0 bs lay.holds
            (has_next m i 0 bs lay.holds begins (omega arith)) in
        let at : i * page_size / page_size ≡ i = omega arith in
        let z : (n == 0) ≡ false = ground arith in
        let ne : (n == m.pages i) ≡ false = ground arith in
        let less : ltb n (m.pages i) ≡ false = ground arith in
        let room : leb (wrap (n + 2 ^ 32 - m.pages i)) (m.pages (m.block_list.next i)) ≡ true =
          rw to (ground (arith, lay.small)) in
        rw (at, z, given) (rw (taken, ne) (rw (less, h) (rw room refl)))

    Resized-shifted :
        hole_follows i m ≡ true
        → n < m.pages i + m.pages (i + m.pages i)
        → (n == m.pages i) ≡ false
        → Resized m i n bs (shifted i n m)
    Resized-shifted h u ne =
        let (inside, to, free) = follows h in
        (
          shift i n 0 bs,
          shift-IsLayout m i n bs lay begins inside pos u ne,
          Apart-shift m i n taken free 0 false bs lay.holds co begins (omega arith),
          allocated-shift m i n taken free 0 bs lay.holds begins (omega arith) u,
          refl,
        )

    -- What the code needs to resize the block in place.
    abbrev HasRoom : Type 0
    HasRoom =
        (hole_follows i m ≡ true) × (n < m.pages i + m.pages (i + m.pages i))
        ⊎ (hole_follows i m ≡ false) × (n < m.pages i)

    -- If an allocated block is made smaller, or larger by less than the hole that follows it,
    -- realloc_physmem_block returns its address and writes no byte of memory. Of the allocated
    -- blocks this one has the new size and the others are as before; the state is well formed and
    -- no hole follows a hole.
    pub realloc_physmem_block-Resized :
        HasRoom
        → (n == m.pages i) ≡ false
        → (s : PhysMem) × (realloc_physmem_block junk (i * page_size) n paddr m
            ≡ done (answer s_ok (some (i * page_size)) s))
          × Resized m i n bs s
    realloc_physmem_block-Resized (inl (h, u)) ne = (
      shifted i n m,
      elim (Bool-cases (ltb n (m.pages i))) [
        | inl l ↦
            realloc-shrink (ground arith)
            ∙ ap (λ (s : PhysMem). done (answer s_ok (some (i * page_size)) s))
                (shrink-shifted h (ground arith))
        | inr l ↦
            realloc-widen h (ground arith) u
            ∙ ap (λ (s : PhysMem). done (answer s_ok (some (i * page_size)) s))
                (widen-shifted junk h (ground arith) u)
      ],
      Resized-shifted h u ne,
    )
    realloc_physmem_block-Resized (inr (h, l)) ne = (
      splitted i n m,
      realloc-shrink l
          ∙ ap (λ (s : PhysMem). done (answer s_ok (some (i * page_size)) s)) (shrink-splitted h l),
      (
        split i n 0 bs,
        split-IsLayout m i n bs lay begins pos l,
        Apart-split m i n taken 0 false bs lay.holds co begins (λ l1. none_follows h (omega arith)),
        allocated-split m i n taken 0 bs lay.holds l,
        refl,
      ),
    )
