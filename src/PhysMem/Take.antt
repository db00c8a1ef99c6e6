-- ===== src/PhysMem/Take.antt =====
-- __alloc_physmem_block for a client that fills the pages itself, as sys_fork does.
use simplix.Base.{
  ℕ, ◌+◌, ◌*◌, ◌^◌, ◌≤◌, ◌<◌, ◌≡◌, ◌⊎◌, refl, inl, inr, true, false, ◌&&◌, ◌||◌, some, List, [],
  ◌∷◌, arith, ltb, leb, Bool-cases, ◌∙◌,
}
use simplix.PhysMem.{
  PhysMem, done, s_ok, page_size, take_block, alloc_physmem_block_raw, get_block_descriptor_addr,
}
use simplix.PhysMem.Layout.{Block, IsLayout, Coalesced, allocated, has-bound}
use simplix.PhysMem.Alloc.{first_fit, carve, first_fit_lem, take_block-IsLayout, memory-take_block}
use simplix.PhysMem.Fit.{
  insert_block, covers, allocated-carve, Coalesced-carve, first_fit-free, raw_served,
}

-- What a client learns from a request of `n` pages that is served at page `b`.
pub record Taken (m : PhysMem) (n b : ℕ) (bs bs' : List Block) (s : PhysMem) : Type 0 where
  pub layout : IsLayout s bs'
  pub coalesced : Coalesced bs'
  pub added : allocated 0 bs' ≡ insert_block b n (allocated 0 bs)
  pub were_free : (i : ℕ) → b ≤ i → i < b + n → covers i (allocated 0 bs) ≡ false
  pub memory : s.memory ≡ m.memory
  pub size : s.pages b ≡ n
  pub bound : b + n < 2 ^ 20
  pub pos : 0 < n

pub alloc_physmem_block_raw-Taken :
    (m : PhysMem) (n paddr b : ℕ) (bs : List Block)
    → IsLayout m bs
    → 0 < n
    → 0 < paddr
    → Coalesced bs
    → first_fit n 0 bs ≡ some b
    → (s : PhysMem) × (alloc_physmem_block_raw n paddr m
        ≡ done (record { ret = s_ok; stored = some (b * page_size); state = s }))
      × Taken m n b bs (carve n bs) s
unfolding take_block
alloc_physmem_block_raw-Taken m n paddr b bs lay pos given co e =
    let (mem, le, free) = first_fit_lem m n 0 b bs lay.holds e in
    let bound = has-bound m b 0 bs lay.holds mem in
    let here : get_block_descriptor_addr b ≡ b * page_size = omega (arith, lay.small) in
    (
      take_block b n m,
      raw_served m n paddr bs lay pos given b e ∙ rw here refl,
      record {
        layout = take_block-IsLayout m n b bs lay pos e;
        coalesced = Coalesced-carve n false bs co;
        added = allocated-carve m n b 0 bs lay.holds pos e;
        were_free = λ i u v. first_fit-free n b 0 bs i e u v;
        memory = memory-take_block m n b;
        size = ground (arith, le);
        bound = omega (arith, lay.small);
        pos = pos;
      },
    )

-- A page that is covered stays covered, and those of the new block are.
pub covers-insert_block :
    (i b n : ℕ) (bs : List (ℕ × ℕ))
    → covers i (insert_block b n bs) ≡ ((leb b i && ltb i (b + n)) || covers i bs)
covers-insert_block i b n [] = refl
covers-insert_block i b n ((j, k) ∷ bs) = ground (arith, covers-insert_block i b n bs)

-- Pages that are covered and pages that are not do not meet.
pub covers-apart :
    (bs : List (ℕ × ℕ)) (i n b k : ℕ)
    → 0 < n
    → 0 < k
    → ((j : ℕ) → i ≤ j → j < i + n → covers j bs ≡ true)
    → ((j : ℕ) → b ≤ j → j < b + k → covers j bs ≡ false)
    → (b + k ≤ i) ⊎ (i + n ≤ b)
covers-apart bs i n b k p q full free = elim (Bool-cases (leb (b + k) i)) [
  | inl e ↦ inl (ground arith)
  | inr e ↦ elim (Bool-cases (leb (i + n) b)) [
    | inl f ↦ inr (ground arith)
    | inr f ↦ elim (Bool-cases (leb i b)) [
      | inl g ↦
          let yes = full b (ground arith) (ground arith) in
          let no = free b (omega arith) (omega arith) in absurd cc
      | inr g ↦
          let yes = full i (omega arith) (omega arith) in
          let no = free i (ground arith) (ground arith) in absurd cc
    ]
  ]
]
