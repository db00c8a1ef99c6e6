-- ===== src/PhysMem/Fit.antt =====
-- The requests of __alloc_physmem_block and alloc_physmem_block as a client sees them: the
-- allocated blocks, and the pages that they cover.
use simplix.Base.{
  ℕ, ◌+◌, ◌-◌, ◌*◌, ◌≤◌, ◌<◌, ◌≡◌, refl, inl, inr, Bool, true, false, ◌&&◌, ◌||◌, none, some, List,
  [], ◌∷◌, arith, ltb, leb, if◌then◌else◌, Bool-cases, ap, ◌∙◌,
}
use simplix.Ring.{list_find_first}
use simplix.Ring.Each.{list_find_first-find}
use simplix.Str.{memset}
use simplix.Str.Block.{memset_lem}
use simplix.PhysMem.{
  PhysMem, done, Answer, s_ok, e_nomem, page_size, fuel, take_block, alloc_physmem_block_raw,
  alloc_physmem_block, get_block_descriptor_addr, wrap,
}
use simplix.PhysMem.Layout.{
  Block, starts, total, Holds, IsLayout, Apart, Apart-false, Coalesced, allocated, has-bound,
  Holds-frame, length-starts-le,
}
use simplix.PhysMem.Alloc.{
  fits, first_fit, carve, find-first_fit, first_fit_lem, take_block-IsLayout, memory-take_block,
}

-- A block put among blocks that are ordered by their first pages.
abbrev pub insert_block : ℕ → ℕ → List (ℕ × ℕ) → List (ℕ × ℕ)
insert_block i n [] = (i, n) ∷ []
insert_block i n ((j, k) ∷ xs) =
    if ltb i j then (i, n) ∷ (j, k) ∷ xs else (j, k) ∷ insert_block i n xs

-- Page `i` belongs to one of the blocks.
abbrev pub covers : ℕ → List (ℕ × ℕ) → Bool
covers i [] = false
covers i ((j, k) ∷ xs) = (leb j i && ltb i (j + k)) || covers i xs

insert_block_below :
    (m : PhysMem) (i n p : ℕ) (bs : List Block)
    → Holds m p bs
    → i < p
    → insert_block i n (allocated p bs) ≡ (i, n) ∷ allocated p bs
insert_block_below m i n p [] h l = refl
insert_block_below m i n p (b ∷ bs) h l =
    ground (arith, insert_block_below m i n (p + b.pages) bs h.3)

covers_below : (i p : ℕ) (bs : List Block) → i < p → covers i (allocated p bs) ≡ false
covers_below i p [] l = refl
covers_below i p (b ∷ bs) l = ground (arith, covers_below i (p + b.pages) bs)

allocated_cong : (p q : ℕ) (bs : List Block) → p ≡ q → allocated p bs ≡ allocated q bs
allocated_cong p q bs e = rw e

pub allocated-carve :
    (m : PhysMem) (n b p : ℕ) (bs : List Block)
    → Holds m p bs
    → 0 < n
    → first_fit n p bs ≡ some b
    → allocated p (carve n bs) ≡ insert_block b n (allocated p bs)
allocated-carve m n b p [] h pos e = cc
allocated-carve m n b p (c ∷ bs) h pos e = ground (
  arith,
  allocated-carve m n b (p + c.pages) bs h.3,
  allocated_cong (p + n + (c.pages - n)) (p + c.pages) bs,
  allocated_cong (p + n) (p + c.pages) bs,
  insert_block_below m p n (p + c.pages) bs h.3,
  first_fit_lem m n (p + c.pages) b bs h.3,
  has-bound m b (p + c.pages) bs h.3,
)

pub Coalesced-carve : (n : ℕ) (a : Bool) (bs : List Block) → Apart a bs → Apart a (carve n bs)
Coalesced-carve n a [] h = tt
Coalesced-carve n a (b ∷ bs) h = elim (Bool-cases (fits n b)) [
  | inl k ↦
      let hole : b.available ≡ true = ground arith in
      let behind : Apart true bs = rw hole at h.1 in
      elim (Bool-cases (ltb n b.pages)) [
        | inl l ↦ rw (k, l) (ground arith, (refl, behind))
        | inr l ↦ rw (k, l) (ground arith, Apart-false true bs behind)
      ]
  | inr k ↦ rw k (h.0, Coalesced-carve n b.available bs h.1)
]

first_fit-ge : (n b p : ℕ) (bs : List Block) → first_fit n p bs ≡ some b → p ≤ b
first_fit-ge n b p [] e = cc
first_fit-ge n b p (c ∷ bs) e = ground (arith, first_fit-ge n b (p + c.pages) bs)

-- The pages of the first fit are free.
pub first_fit-free :
    (n b p : ℕ) (bs : List Block) (i : ℕ)
    → first_fit n p bs ≡ some b
    → b ≤ i
    → i < b + n
    → covers i (allocated p bs) ≡ false
first_fit-free n b p [] i e l u = refl
first_fit-free n b p (c ∷ bs) i e l u = ground (
  arith,
  first_fit-free n b (p + c.pages) bs i,
  first_fit-ge n b (p + c.pages) bs,
  covers_below i (p + c.pages) bs,
)

-- A hole that is too small is followed by an allocated block, or by the end.
next_used :
    (m : PhysMem) (p : ℕ) (bs : List Block)
    → Holds m p bs
    → Apart true bs
    → 0 < total bs
    → covers p (allocated p bs) ≡ true
next_used m p [] h co t = absurd (omega arith)
next_used m p (b ∷ bs) h co t = ground arith

-- If no hole is big enough and no hole follows a hole, a run of `n` pages meets an allocated block.
first_fit-none :
    (m : PhysMem) (n p q : ℕ) (a : Bool) (bs : List Block)
    → Holds m p bs
    → Apart a bs
    → 0 < n
    → first_fit n p bs ≡ none
    → p ≤ q
    → q + n ≤ p + total bs
    → (i : ℕ) × (q ≤ i) × (i < q + n) × (covers i (allocated p bs) ≡ true)
first_fit-none m n p q a [] h co pos e l u = absurd (omega arith)
first_fit-none m n p q a (b ∷ bs) h co pos e l u = elim (Bool-cases (leb (p + b.pages) q)) [
  | inl k ↦
      let (i, x, y, z) =
        first_fit-none m n (p + b.pages) q b.available bs h.3 co.1 pos (ground arith) (ground arith)
          (omega arith) in
      (i, x, y, ground arith)
  | inr k ↦ elim (Bool-cases b.available) [
    | inl hole ↦
        let short : b.pages < n = ground arith in
        let behind : Apart true bs = rw hole at co.1 in
        (
          p + b.pages,
          ground arith,
          omega arith,
          rw hole (next_used m (p + b.pages) bs h.3 behind (omega arith)),
        )
    | inr used ↦ (q, omega arith, omega arith, rw used (ground arith))
  ]
]

-- What a client learns from a request of `n` pages that is served at page `b`.
pub record Served (m : PhysMem) (n b : ℕ) (bs bs' : List Block) (a : Answer) : Type 0 where
  pub ok : a.ret ≡ s_ok
  pub address : a.stored ≡ some (b * page_size)
  pub layout : IsLayout a.state bs'
  pub coalesced : Coalesced bs'
  pub added : allocated 0 bs' ≡ insert_block b n (allocated 0 bs)
  pub were_free : (i : ℕ) → b ≤ i → i < b + n → covers i (allocated 0 bs) ≡ false
  pub zeroed :
      (j : ℕ)
      → a.state.memory j
        ≡ (if leb (b * page_size) j && ltb j ((b + n) * page_size) then 0 else m.memory j)

module _ (m : PhysMem) (n paddr : ℕ) (bs : List Block) (lay : IsLayout m bs) (pos : 0 < n)
    (given : 0 < paddr) where
  search_result :
      list_find_first (fuel m) (λ b. m.available b && leb n (m.pages b)) m.block_list
      ≡ some (first_fit n 0 bs)
  search_result =
      list_find_first-find (fuel m) _ m.block_list (starts 0 bs) lay.linked
        (omega (arith, length-starts-le m 0 bs lay.holds, lay.filled))
      ∙ ap some (find-first_fit m n 0 bs lay.holds)

  pub raw_served :
      (b : ℕ)
      → first_fit n 0 bs ≡ some b
      → alloc_physmem_block_raw n paddr m
        ≡ done (record {
          ret = s_ok;
          stored = some (get_block_descriptor_addr b);
          state = take_block b n m;
        })
  unfolding alloc_physmem_block_raw
  raw_served b e = ground (arith, search_result)

  raw_refused :
      first_fit n 0 bs ≡ none
      → alloc_physmem_block_raw n paddr m
        ≡ done (record { ret = e_nomem; stored = none; state = m })
  unfolding alloc_physmem_block_raw
  raw_refused e = ground (arith, search_result)

  -- With a hole of the size, the call returns the address of the first one. The blocks are then
  -- the old ones with the request carved from it, with no hole behind a hole; the allocated blocks
  -- are the old ones and the new one, whose pages no block held; these pages are filled with zeros
  -- and no other byte is written.
  pub alloc_physmem_block-Served :
      Coalesced bs
      → (b : ℕ) → first_fit n 0 bs ≡ some b
      → (a : Answer) × (alloc_physmem_block n paddr m ≡ done a) × Served m n b bs (carve n bs) a
  unfolding alloc_physmem_block
  alloc_physmem_block-Served co b e =
      let (mem, le, free) = first_fit_lem m n 0 b bs lay.holds e in
      let bound = has-bound m b 0 bs lay.holds mem in
      let s = take_block b n m in
      let s' : PhysMem = record s {
        memory = memset (get_block_descriptor_addr b) 0 (wrap (n * page_size)) s.memory;
      } in
      let here : get_block_descriptor_addr b ≡ b * page_size = omega (arith, lay.small) in
      let size : wrap (n * page_size) ≡ n * page_size = omega (arith, lay.small) in
      let l = take_block-IsLayout m n b bs lay pos e in
      (
        record { ret = s_ok; stored = some (get_block_descriptor_addr b); state = s' },
        rw (raw_served b e, alloc_physmem_block),
        record {
          ok = refl;
          address = rw here;
          layout = record {
            linked = l.linked;
            holds = Holds-frame s s' 0 (carve n bs) l.holds (λ i u. (refl, refl));
            filled = l.filled;
            small = l.small;
          };
          coalesced = Coalesced-carve n false bs co;
          added = allocated-carve m n b 0 bs lay.holds pos e;
          were_free = λ i u v. first_fit-free n b 0 bs i e u v;
          zeroed = λ j. ground (
            arith,
            here,
            size,
            ap (λ (f : ℕ → ℕ). f j) (memory-take_block m n b),
            memset_lem (get_block_descriptor_addr b) 0 (wrap (n * page_size)) s.memory j,
          );
        },
      )

  -- With no hole of the size, the call returns E_NOMEM and changes nothing. If no hole follows a
  -- hole, then indeed each run of that many pages meets an allocated block.
  pub alloc_physmem_block-refused :
      Coalesced bs
      → first_fit n 0 bs ≡ none
      → (alloc_physmem_block n paddr m ≡ done (record { ret = e_nomem; stored = none; state = m }))
        × ((q : ℕ)
            → q + n ≤ total bs
            → (i : ℕ) × (q ≤ i) × (i < q + n) × (covers i (allocated 0 bs) ≡ true))
  unfolding alloc_physmem_block
  alloc_physmem_block-refused co e = (
    rw (raw_refused e, alloc_physmem_block),
    λ q u. first_fit-none m n 0 q false bs lay.holds co pos e (omega arith) (omega arith),
  )
