-- ===== src/PhysMem/Alloc.antt =====
-- __alloc_physmem_block and alloc_physmem_block: first fit.
use simplix.Base.{
  ℕ, ◌+◌, ◌-◌, ◌*◌, ◌^◌, ◌≤◌, ◌<◌, ◌≡◌, refl, inl, inr, Bool, true, false, ◌&&◌, Option, none, some,
  List, [], ◌∷◌, arith, ltb, leb, ◌==◌, if◌then◌else◌, update, Bool-cases,
}
use simplix.Ring.{list_insert_after}
use simplix.Ring.Chain.{has}
use simplix.Ring.Insert.{insert_after, list_insert_after-IsRing}
use simplix.Ring.Each.{find}
use simplix.PhysMem.{
  PhysMem, page_size, take_block, get_block_descriptor, get_block_descriptor_addr, wrap,
}
use simplix.PhysMem.Layout.{
  Block, block, starts, total, Holds, IsLayout, not-has_below, has-bound, not-has_inside,
  Holds-frame,
}

abbrev pub fits : ℕ → Block → Bool
fits n b = b.available && leb n b.pages

-- The first page of the first hole that is big enough.
abbrev pub first_fit : ℕ → ℕ → List Block → Option ℕ
first_fit n p [] = none
first_fit n p (b ∷ bs) = if fits n b then some p else first_fit n (p + b.pages) bs

-- The blocks after `n` pages are taken from that hole.
abbrev pub carve : ℕ → List Block → List Block
carve n [] = []
carve n (b ∷ bs) =
    if fits n b
    then block n false ∷ (if ltb n b.pages then block (b.pages - n) true ∷ bs else bs)
    else b ∷ carve n bs

-- The search of the code, over the descriptors, finds the first fit of the blocks.
pub find-first_fit :
    (m : PhysMem) (n p : ℕ) (bs : List Block)
    → Holds m p bs
    → find (λ b. m.available b && leb n (m.pages b)) (starts p bs) ≡ first_fit n p bs
find-first_fit m n p [] h = refl
find-first_fit m n p (b ∷ bs) h = ground (arith, find-first_fit m n (p + b.pages) bs h.3)

pub first_fit_lem :
    (m : PhysMem) (n p b : ℕ) (bs : List Block)
    → Holds m p bs
    → first_fit n p bs ≡ some b
    → (has b (starts p bs) ≡ true) × (n ≤ m.pages b) × (m.available b ≡ true)
first_fit_lem m n p b [] h e = cc
first_fit_lem m n p b (c ∷ bs) h e = ground (arith, first_fit_lem m n (p + c.pages) b bs h.3)

total-carve : (n : ℕ) (bs : List Block) → total (carve n bs) ≡ total bs
total-carve n [] = refl
total-carve n (b ∷ bs) = ground (arith, total-carve n bs)

module _ (m : PhysMem) (n b : ℕ) (pos : 0 < n) where
  -- The hole is bigger than the request: a new hole begins behind the allocated pages.
  starts-carve :
      (p : ℕ) (bs : List Block)
      → Holds m p bs
      → first_fit n p bs ≡ some b
      → n < m.pages b
      → starts p (carve n bs) ≡ insert_after b (b + n) (starts p bs)
  starts-carve p [] h e l = refl
  starts-carve p (c ∷ bs) h e l = ground (
    arith,
    starts-carve (p + c.pages) bs h.3,
    first_fit_lem m n (p + c.pages) b bs h.3,
    has-bound m b (p + c.pages) bs h.3,
  )

  -- The hole is exactly as big.
  starts-carve_whole :
      (p : ℕ) (bs : List Block)
      → Holds m p bs
      → first_fit n p bs ≡ some b
      → m.pages b ≤ n
      → starts p (carve n bs) ≡ starts p bs
  starts-carve_whole p [] h e l = refl
  starts-carve_whole p (c ∷ bs) h e l = ground (arith, starts-carve_whole (p + c.pages) bs h.3)

descriptor_add :
    (b n : ℕ)
    → b + n < 2 ^ 20
    → get_block_descriptor (wrap (get_block_descriptor_addr b + wrap (n * page_size))) ≡ b + n
descriptor_add b n h = omega arith

-- The writes of the code behind `found`, if the hole is bigger than the request.
module _ (m : PhysMem) (n b : ℕ) (pos : 0 < n) (fit : n < m.pages b)
    (small : b + m.pages b < 2 ^ 20) where
  pages-take_block :
      (i : ℕ)
      → (take_block b n m).pages i
        ≡ (if b == i then n else if b + n == i then m.pages b - n else m.pages i)
  unfolding take_block
  pages-take_block i = ground (arith, descriptor_add b n (omega arith))

  available-take_block :
      (i : ℕ)
      → (take_block b n m).available i
        ≡ (if b + n == i then true else if b == i then false else m.available i)
  unfolding take_block
  available-take_block i = ground (arith, descriptor_add b n (omega arith))

  block_list-take_block : (take_block b n m).block_list ≡ list_insert_after b (b + n) m.block_list
  unfolding take_block
  block_list-take_block = ground (arith, descriptor_add b n (omega arith))

  Holds-take_block :
      (p : ℕ) (bs : List Block)
      → Holds m p bs
      → first_fit n p bs ≡ some b
      → Holds (take_block b n m) p (carve n bs)
  Holds-take_block p [] h e = tt
  Holds-take_block p (c ∷ bs) h e = elim (Bool-cases (fits n c)) [
    | inl k ↦
        let q : p ≡ b = ground arith in
        let l : ltb n c.pages ≡ true = ground arith in
        let more : n < c.pages = ground arith in
        let behind : p + n + (c.pages - n) ≡ p + c.pages = omega arith in
        let rest = Holds-frame m (take_block b n m) (p + c.pages) bs h.3 (λ i u. (
          ground (arith, pages-take_block i, not-has_below i (p + c.pages) bs),
          ground (arith, available-take_block i, not-has_below i (p + c.pages) bs),
        )) in
        rw (k, l)
          (
            ground (arith, pages-take_block p),
            ground (arith, available-take_block p),
            pos,
            (
              ground (arith, pages-take_block (p + n)),
              ground (arith, available-take_block (p + n)),
              omega arith,
              rw behind rest,
            ),
          )
    | inr k ↦
        let later = first_fit_lem m n (p + c.pages) b bs h.3 (ground arith) in
        let bound = has-bound m b (p + c.pages) bs h.3 later.0 in
        rw k (
          ground (arith, pages-take_block p),
          ground (arith, available-take_block p),
          h.2,
          Holds-take_block (p + c.pages) bs h.3 (ground arith),
        )
  ]

-- The writes if the hole is exactly as big.
module _ (m : PhysMem) (n b : ℕ) (pos : 0 < n) (fit : m.pages b ≤ n) where
  take_block_whole : take_block b n m ≡ record m { available = update m.available b false }
  unfolding take_block
  take_block_whole = ground arith

  Holds-take_block_whole :
      (p : ℕ) (bs : List Block)
      → Holds m p bs
      → first_fit n p bs ≡ some b
      → Holds (take_block b n m) p (carve n bs)
  Holds-take_block_whole p [] h e = tt
  Holds-take_block_whole p (c ∷ bs) h e = elim (Bool-cases (fits n c)) [
    | inl k ↦
        let q : p ≡ b = ground arith in
        let l : ltb n c.pages ≡ false = ground arith in
        let same : n ≡ c.pages = ground arith in
        let rest = Holds-frame m (take_block b n m) (p + c.pages) bs h.3 (λ i u. (
          ground (arith, take_block_whole),
          ground (arith, take_block_whole, not-has_below i (p + c.pages) bs),
        )) in
        rw (k, l)
          (ground (arith, take_block_whole), ground (arith, take_block_whole), pos, rw same rest)
    | inr k ↦
        let later = first_fit_lem m n (p + c.pages) b bs h.3 (ground arith) in
        let bound = has-bound m b (p + c.pages) bs h.3 later.0 in
        rw k (
          ground (arith, take_block_whole),
          ground (arith, take_block_whole),
          h.2,
          Holds-take_block_whole (p + c.pages) bs h.3 (ground arith),
        )
  ]

physmem_size-take_block : (m : PhysMem) (n b : ℕ) → (take_block b n m).physmem_size ≡ m.physmem_size
unfolding take_block
physmem_size-take_block m n b = ground arith

pub memory-take_block : (m : PhysMem) (n b : ℕ) → (take_block b n m).memory ≡ m.memory
unfolding take_block
memory-take_block m n b = ground arith

-- Taking the first fit carves the request from its hole.
pub take_block-IsLayout :
    (m : PhysMem) (n b : ℕ) (bs : List Block)
    → IsLayout m bs
    → 0 < n
    → first_fit n 0 bs ≡ some b
    → IsLayout (take_block b n m) (carve n bs)
take_block-IsLayout m n b bs lay pos e =
    let (mem, le, free) = first_fit_lem m n 0 b bs lay.holds e in
    let bound = has-bound m b 0 bs lay.holds mem in
    elim (Bool-cases (ltb n (m.pages b))) [
      | inl k ↦
          let fit : n < m.pages b = ground arith in
          let small : b + m.pages b < 2 ^ 20 = omega (arith, lay.small) in
          let new = not-has_inside m b (b + n) 0 bs lay.holds mem (omega arith) (omega arith) in
          record {
            linked =
                rw
                  (
                    block_list-take_block m n b pos fit small,
                    starts-carve m n b pos 0 bs lay.holds e fit,
                  )
                  (list_insert_after-IsRing m.block_list b (b + n) (starts 0 bs) lay.linked mem
                    new);
            holds = Holds-take_block m n b pos fit small 0 bs lay.holds e;
            filled = rw (physmem_size-take_block, total-carve) lay.filled;
            small = rw total-carve lay.small;
          }
      | inr k ↦
          let fit : m.pages b ≤ n = ground arith in
          record {
            linked =
                rw
                  (
                    take_block_whole m n b pos fit,
                    starts-carve_whole m n b pos 0 bs lay.holds e fit,
                  )
                  lay.linked;
            holds = Holds-take_block_whole m n b pos fit 0 bs lay.holds e;
            filled = rw (physmem_size-take_block, total-carve) lay.filled;
            small = rw total-carve lay.small;
          }
    ]
