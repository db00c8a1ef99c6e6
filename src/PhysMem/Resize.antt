-- ===== src/PhysMem/Resize.antt =====
-- realloc_physmem_block: a block that can be resized where it stands.
use simplix.Base.{
  ℕ, ◌+◌, ◌-◌, ◌<◌, ◌≡◌, refl, inl, inr, Bool, true, false, List, [], ◌∷◌, arith, ◌==◌,
  if◌then◌else◌, Bool-cases,
}
use simplix.Ring.Chain.{has}
use simplix.PhysMem.{PhysMem}
use simplix.PhysMem.Layout.{Block, starts, total, Holds, Apart, allocated, has-bound}
use simplix.PhysMem.Boundary.{shift, split, pages_at, alone}

-- The allocated blocks, of which the one at page `i` has `n` pages.
abbrev pub resize : ℕ → ℕ → List (ℕ × ℕ) → List (ℕ × ℕ)
resize i n [] = []
resize i n ((a, s) ∷ r) = if a == i then (a, n) ∷ r else (a, s) ∷ resize i n r

module _ (m : PhysMem) (i n : ℕ) (taken : m.available i ≡ false) where
  allocated_cong : (p q : ℕ) (bs : List Block) → p ≡ q → allocated p bs ≡ allocated q bs
  allocated_cong p q bs e = rw e

  block_taken :
      (p : ℕ) (b : Block) (bs : List Block)
      → Holds m p (b ∷ bs)
      → (p == i) ≡ true
      → b.available ≡ false
  block_taken p b bs h e =
      let (q, size) = pages_at m i p b bs h e in
      let same : m.available i ≡ b.available = rw q at h.1 in cc

  pub allocated-split :
      (p : ℕ) (bs : List Block)
      → Holds m p bs
      → n < m.pages i
      → allocated p (split i n p bs) ≡ resize i n (allocated p bs)
  allocated-split p [] h l = refl
  allocated-split p (b ∷ bs) h l = elim (Bool-cases (p == i)) [
    | inl e ↦
        let (q, size) = pages_at m i p b bs h e in
        let full = block_taken p b bs h e in
        rw (e, full)
          (ground (
            arith,
            e,
            allocated_cong (p + n + (b.pages - n)) (p + b.pages) bs (omega (arith, size, l)),
          ))
    | inr e ↦ rw e (ground (arith, allocated-split (p + b.pages) bs h.3))
  ]

  -- Is the block followed by a hole, in terms of the descriptors?
  module _ (hole : m.available (i + m.pages i) ≡ true) where
    pub allocated-shift :
        (p : ℕ) (bs : List Block)
        → Holds m p bs
        → has i (starts p bs) ≡ true
        → i + m.pages i < p + total bs
        → n < m.pages i + m.pages (i + m.pages i)
        → allocated p (shift i n p bs) ≡ resize i n (allocated p bs)
    allocated-shift p [] h k l u = refl
    allocated-shift p (b ∷ []) h k l u = absurd (alone m i p b h k l)
    allocated-shift p (b ∷ c ∷ bs) h k l u = elim (Bool-cases (p == i)) [
      | inl e ↦
          let (q, size) = pages_at m i p b (c ∷ bs) h e in
          let full = block_taken p b (c ∷ bs) h e in
          let next : m.pages (i + m.pages i) ≡ c.pages = rw (q, ← size) at h.3.0 in
          let free : m.available (i + m.pages i) ≡ c.available = rw (q, ← size) at h.3.1 in
          let hole' : c.available ≡ true = cc in
          rw (e, full, hole')
            (ground (
              arith,
              e,
              allocated_cong (p + n + (b.pages + c.pages - n)) (p + b.pages + c.pages) bs
                  (omega (arith, size, next, u)),
            ))
      | inr e ↦ rw e (
          ground (
            arith,
            allocated-shift (p + b.pages) (c ∷ bs) h.3,
            has-bound m i (p + b.pages) (c ∷ bs) h.3,
          ))
    ]

    pub Apart-shift :
        (p : ℕ) (a : Bool) (bs : List Block)
        → Holds m p bs
        → Apart a bs
        → has i (starts p bs) ≡ true
        → i + m.pages i < p + total bs
        → Apart a (shift i n p bs)
    Apart-shift p a [] h co k l = tt
    Apart-shift p a (b ∷ []) h co k l = absurd (alone m i p b h k l)
    Apart-shift p a (b ∷ c ∷ bs) h co k l = elim (Bool-cases (p == i)) [
      | inl e ↦
          let (q, size) = pages_at m i p b (c ∷ bs) h e in
          let free : m.available (i + m.pages i) ≡ c.available = rw (q, ← size) at h.3.1 in
          let hole' : c.available ≡ true = cc in
          let full = block_taken p b (c ∷ bs) h e in
          let rest : Apart true bs = rw hole' at co.1.1 in rw e (co.0, (ground arith, rest))
      | inr e ↦
          let bound = has-bound m i (p + b.pages) (c ∷ bs) h.3 (ground arith) in
          rw e (
            co.0,
            Apart-shift (p + b.pages) b.available (c ∷ bs) h.3 co.1 (ground arith) (omega arith),
          )
    ]

  pub Apart-split :
      (p : ℕ) (a : Bool) (bs : List Block)
      → Holds m p bs
      → Apart a bs
      → has i (starts p bs) ≡ true
      → (i + m.pages i < p + total bs → m.available (i + m.pages i) ≡ false)
      → Apart a (split i n p bs)
  Apart-split p a [] h co k used = tt
  Apart-split p a (b ∷ bs) h co k used = elim (Bool-cases (p == i)) [
    | inl e ↦
        let full = block_taken p b bs h e in
        rw e (co.0, (ground arith, behind bs h co.1 used (pages_at m i p b bs h e)))
    | inr e ↦
        let bound = has-bound m i (p + b.pages) bs h.3 (ground arith) in
        rw e (
          co.0,
          Apart-split (p + b.pages) b.available bs h.3 co.1 (ground arith)
              (λ l. used (omega arith)),
        )
  ]
    where
      behind :
          (bs : List Block)
          → Holds m p (b ∷ bs)
          → Apart b.available bs
          → (i + m.pages i < p + total (b ∷ bs) → m.available (i + m.pages i) ≡ false)
          → (p ≡ i) × (m.pages i ≡ b.pages)
          → Apart true bs
      behind [] h co used at = tt
      behind (c ∷ cs) h co used (q, size) =
          let free : m.available (i + m.pages i) ≡ c.available = rw (q, ← size) at h.3.1 in
          (ground (arith, used (omega (arith, size, q))), co.1)
