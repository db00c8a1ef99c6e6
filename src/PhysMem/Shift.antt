-- ===== src/PhysMem/Shift.antt =====
-- The end of a block moves within the block and the hole that follows it.
use simplix.Base.{
  ℕ, ◌+◌, ◌-◌, ◌<◌, ◌≡◌, refl, inl, inr, true, false, List, [], ◌∷◌, arith, ◌==◌, Bool-cases, ltb,
}
use simplix.Ring.Chain.{has}
use simplix.Ring.Replace.{replace, list_replace-IsRing}
use simplix.PhysMem.{PhysMem}
use simplix.PhysMem.Layout.{Block, starts, total, Holds, IsLayout, has-bound, not-has_inside}
use simplix.PhysMem.Free.{has_next, starts_cong}
use simplix.PhysMem.Boundary.{shift, shifted, pages_at, Holds-behind, alone}

module _ (m : PhysMem) (i n : ℕ) (pos : 0 < n)
    (within : n < m.pages i + m.pages (i + m.pages i)) where
  total-shift :
      (p : ℕ) (bs : List Block)
      → Holds m p bs
      → has i (starts p bs) ≡ true
      → total (shift i n p bs) ≡ total bs
  total-shift p [] h k = refl
  total-shift p (b ∷ []) h k = ground arith
  total-shift p (b ∷ c ∷ bs) h k = elim (Bool-cases (p == i)) [
    | inl e ↦
        let (q, size) = pages_at m i p b (c ∷ bs) h e in
        let next : m.pages (i + m.pages i) ≡ c.pages = rw (q, ← size) at h.3.0 in
        rw e (omega (arith, size, next))
    | inr e ↦ rw e (ground (arith, total-shift (p + b.pages) (c ∷ bs) h.3))
  ]

  starts-shift :
      (p : ℕ) (bs : List Block)
      → Holds m p bs
      → has i (starts p bs) ≡ true
      → i + m.pages i < p + total bs
      → starts p (shift i n p bs) ≡ replace (i + m.pages i) (i + n) (starts p bs)
  starts-shift p [] h k l = refl
  starts-shift p (b ∷ []) h k l = absurd (alone m i p b h k l)
  starts-shift p (b ∷ c ∷ bs) h k l = elim (Bool-cases (p == i)) [
    | inl e ↦
        let (q, size) = pages_at m i p b (c ∷ bs) h e in
        let next : m.pages (i + m.pages i) ≡ c.pages = rw (q, ← size) at h.3.0 in
        let behind : p + n + (b.pages + c.pages - n) ≡ p + b.pages + c.pages =
          omega (arith, size, next) in
        rw e (
          ground (
            arith,
            size,
            q,
            starts_cong (p + n + (b.pages + c.pages - n)) (p + b.pages + c.pages) bs behind,
          ))
    | inr e ↦
        let bound = has-bound m i (p + b.pages) (c ∷ bs) h.3 (ground arith) in
        rw e (ground (arith, starts-shift (p + b.pages) (c ∷ bs) h.3))
  ]

  Holds-shift :
      (p : ℕ) (bs : List Block)
      → Holds m p bs
      → has i (starts p bs) ≡ true
      → i + m.pages i < p + total bs
      → Holds (shifted i n m) p (shift i n p bs)
  Holds-shift p [] h k l = tt
  Holds-shift p (b ∷ []) h k l = absurd (alone m i p b h k l)
  Holds-shift p (b ∷ c ∷ bs) h k l = elim (Bool-cases (p == i)) [
    | inl e ↦
        let (q, size) = pages_at m i p b (c ∷ bs) h e in
        let next : m.pages (i + m.pages i) ≡ c.pages = rw (q, ← size) at h.3.0 in
        let behind : p + n + (b.pages + c.pages - n) ≡ p + b.pages + c.pages =
          omega (arith, size, next) in
        rw e (
          ground arith,
          ground arith,
          pos,
          (
            ground (arith, size, next),
            ground arith,
            omega (arith, size, next),
            rw behind (
                Holds-behind m (shifted i n m) i (p + b.pages + c.pages) bs h.3.3
                  (λ j u. (ground (arith, size, next), ground (arith, size, next)))),
          ),
        )
    | inr e ↦
        let bound = has-bound m i (p + b.pages) (c ∷ bs) h.3 (ground arith) in
        rw e (
          ground arith,
          ground arith,
          h.2,
          Holds-shift (p + b.pages) (c ∷ bs) h.3 (ground arith) (omega arith),
        )
  ]

new_start :
    (m : PhysMem) (i n : ℕ) (bs : List Block)
    → Holds m 0 bs
    → has i (starts 0 bs) ≡ true
    → i + m.pages i < total bs
    → 0 < n
    → n < m.pages i + m.pages (i + m.pages i)
    → (n == m.pages i) ≡ false
    → has (i + n) (starts 0 bs) ≡ false
new_start m i n bs h k l pos within ne = elim (Bool-cases (ltb n (m.pages i))) [
  | inl less ↦ not-has_inside m i (i + n) 0 bs h k (omega arith) (ground arith)
  | inr more ↦
      not-has_inside m (i + m.pages i) (i + n) 0 bs h (has_next m i 0 bs h k (omega arith))
        (ground arith) (omega arith)
]

-- The end of a block moves into the hole that follows it, or back.
pub shift-IsLayout :
    (m : PhysMem) (i n : ℕ) (bs : List Block)
    → IsLayout m bs
    → has i (starts 0 bs) ≡ true
    → i + m.pages i < total bs
    → 0 < n
    → n < m.pages i + m.pages (i + m.pages i)
    → (n == m.pages i) ≡ false
    → IsLayout (shifted i n m) (shift i n 0 bs)
shift-IsLayout m i n [] lay k l pos within ne = cc
shift-IsLayout m i n (b ∷ bs) lay k l pos within ne =
    let j : ℕ = i + m.pages i in
    let on = has_next m i 0 (b ∷ bs) lay.holds k (omega arith) in
    let bound = has-bound m i 0 (b ∷ bs) lay.holds k in
    let off : (j == 0) ≡ false = ground arith in
    let tail : has j (starts (0 + b.pages) bs) ≡ true = ground (arith, on) in
    let size = total-shift m i n pos within 0 (b ∷ bs) lay.holds k in
    record {
      linked = rw (starts-shift m i n pos within 0 (b ∷ bs) lay.holds k (omega arith)) (
          rw off (
            list_replace-IsRing m.block_list j (i + n) 0 (starts (0 + b.pages) bs) lay.linked tail
              (new_start m i n (b ∷ bs) lay.holds k l pos within ne)));
      holds = Holds-shift m i n pos within 0 (b ∷ bs) lay.holds k (omega arith);
      filled = rw size lay.filled;
      small = rw size lay.small;
    }
