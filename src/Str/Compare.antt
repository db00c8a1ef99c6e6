-- ===== src/Str/Compare.antt =====
-- `strcmp` of lib/string.c.
use simplix.Base.{
  ℕ, zero, suc, ◌+◌, ◌-◌, ◌%◌, ◌^◌, ◌≤◌, ◌<◌, ◌≡◌, refl, sym, ap, ◌∙◌, ◌⊎◌, inl, inr, true, false,
  Option, some, arith, ◌==◌, Bool-cases,
}
use simplix.Str.{Memory, strcmp, char_to_int}
use simplix.Str.Copy.{IsString, IsString-tail, IsString-head, IsString-nil}

-- The pattern of the difference of two characters.
abbrev pub difference : ℕ → ℕ → ℕ
difference a b = (char_to_int a + 2 ^ 32 - char_to_int b) % 2 ^ 32

difference_pos : (a b : ℕ) → a < 256 → b < 256 → (a == b) ≡ false → 0 < difference a b
difference_pos a b h k ne = ground arith

-- The strings of `n` and of `k` characters are equal.
abbrev pub IsEqual : Memory → ℕ → ℕ → ℕ → ℕ → Type 0
IsEqual mem p q n k = (n ≡ k) × ((i : ℕ) → i < n → mem (p + i) ≡ mem (q + i))

-- They first differ at the position `i`, which may be the end of one of them.
abbrev pub DiffersAt : Memory → ℕ → ℕ → ℕ → ℕ → ℕ → Type 0
DiffersAt mem p q n k i =
    (i ≤ n)
    × (i ≤ k)
    × ((j : ℕ) → j < i → mem (p + j) ≡ mem (q + j))
    × ((mem (p + i) == mem (q + i)) ≡ false)

-- What `strcmp` promises.
abbrev pub Compared : Memory → ℕ → ℕ → ℕ → ℕ → Option ℕ → Type 0
Compared mem p q n k r =
    (r ≡ some 0) × IsEqual mem p q n k
    ⊎ (i : ℕ) × DiffersAt mem p q n k i
      × (r ≡ some (difference (mem (p + i)) (mem (q + i))))
      × (0 < difference (mem (p + i)) (mem (q + i)))

module _ (mem : Memory) (bytes : (i : ℕ) → mem i < 256) where
  strcmp_differ :
      (fuel p q : ℕ)
      → (mem p == mem q) ≡ false
      → strcmp (suc fuel) p q mem ≡ some (difference (mem p) (mem q))
  unfolding strcmp
  strcmp_differ fuel p q e = rw e refl

  strcmp_end :
      (fuel p q : ℕ)
      → (mem p == mem q) ≡ true
      → (mem p == 0) ≡ true
      → strcmp (suc fuel) p q mem ≡ some 0
  unfolding strcmp
  strcmp_end fuel p q e z = rw (e, z) refl

  strcmp_next :
      (fuel p q : ℕ)
      → (mem p == mem q) ≡ true
      → (mem p == 0) ≡ false
      → strcmp (suc fuel) p q mem ≡ strcmp fuel (p + 1) (q + 1) mem
  unfolding strcmp
  strcmp_next fuel p q e z = rw (e, z) refl

  Compared-head :
      (fuel p q n k : ℕ)
      → (mem p == mem q) ≡ false
      → Compared mem p q n k (strcmp (suc fuel) p q mem)
  Compared-head fuel p q n k e =
      let a : p + 0 ≡ p = omega arith in
      let b : q + 0 ≡ q = omega arith in
      inr (
        0,
        (omega arith, omega arith, λ j h. absurd (omega (arith, h)), rw (a, b) e),
        rw (a, b) (strcmp_differ fuel p q e),
        rw (a, b) (difference_pos (mem p) (mem q) (bytes p) (bytes q) e),
      )

  at_next : (p i : ℕ) → mem (p + 1 + i) ≡ mem (p + suc i)
  at_next p i = ap mem (omega arith)

  same_before :
      (p q i : ℕ)
      → mem p ≡ mem q
      → ((j : ℕ) → j < i → mem (p + 1 + j) ≡ mem (q + 1 + j))
      → (j : ℕ) → j < suc i
      → mem (p + j) ≡ mem (q + j)
  same_before p q i e same zero h = ap mem (omega arith) ∙ e ∙ ap mem (omega arith)
  same_before p q i e same (suc j) h = sym (at_next p j) ∙ same j (omega arith) ∙ at_next q j

  Compared-next :
      (p q n k : ℕ) (r : Option ℕ)
      → mem p ≡ mem q
      → Compared mem (p + 1) (q + 1) n k r
      → Compared mem p q (suc n) (suc k) r
  Compared-next p q n k r e (inl (is, (same, chars))) =
      inl (is, (omega arith, same_before p q n e chars))
  Compared-next p q n k r e (inr (i, (a, b, chars, ne), is, pos)) = inr (
    suc i,
    (omega arith, omega arith, same_before p q i e chars, rw (← at_next p i, ← at_next q i) ne),
    rw (← at_next p i, ← at_next q i) is,
    rw (← at_next p i, ← at_next q i) pos,
  )

  -- With more fuel than the first string has characters, `strcmp` of two strings returns 0 if they
  -- are equal, and otherwise the difference, which is not 0, of the first two characters that
  -- differ.
  pub strcmp-Compared :
      (fuel p q n k : ℕ)
      → IsString mem p n
      → IsString mem q k
      → n < fuel
      → Compared mem p q n k (strcmp fuel p q mem)
  strcmp-Compared zero p q n k s t f = absurd (omega arith)
  strcmp-Compared (suc fuel) p q zero zero s t f =
      let a = IsString-nil mem p s in
      let b = IsString-nil mem q t in
      inl
        (strcmp_end fuel p q (rw (a, b) refl) (rw a refl), (refl, λ i h. absurd (omega (arith, h))))
  strcmp-Compared (suc fuel) p q zero (suc k) s t f =
      Compared-head fuel p q zero (suc k)
        (ground (arith, IsString-nil mem p s, IsString-head mem q k t))
  strcmp-Compared (suc fuel) p q (suc n) zero s t f =
      Compared-head fuel p q (suc n) zero
        (ground (arith, IsString-nil mem q t, IsString-head mem p n s))
  strcmp-Compared (suc fuel) p q (suc n) (suc k) s t f = elim (Bool-cases (mem p == mem q)) [
    | inl e ↦ rw (strcmp_next fuel p q e (IsString-head mem p n s)) (
        Compared-next p q n k (strcmp fuel (p + 1) (q + 1) mem) (ground arith) (
          strcmp-Compared fuel (p + 1) (q + 1) n k (IsString-tail mem p n s)
            (IsString-tail mem q k t) (omega arith)))
    | inr e ↦ Compared-head fuel p q (suc n) (suc k) e
  ]
