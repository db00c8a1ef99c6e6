-- ===== src/Str/Digits.antt =====
-- The numbers that vsnprintf of lib/string.c prints: the digits stand for the argument.
use native.Mathlib.Nat.{div-lt_iff_lt-mul}
use simplix.Base.{
  div-mod, ℕ, zero, suc, ◌+◌, ◌*◌, ◌^◌, ◌<◌, ◌≡◌, inl, inr, arith, List, [], ◌∷◌, ◌==◌, Bool-cases,
}
use simplix.Str.Format.{digits_of}

-- The number with the given digits, the last one first.
abbrev pub value : ℕ → List ℕ → ℕ
value base [] = 0
value base (d ∷ ds) = d + value base ds * base

-- The numbers that so many digits can show.
abbrev pub digit_limit : ℕ → ℕ → ℕ
digit_limit base zero = 1
digit_limit base (suc room) = digit_limit base room * base

digits_of-value :
    (room base n : ℕ)
    → 0 < base
    → n < digit_limit base room
    → value base (digits_of room base n) ≡ n
unfolding digits_of
digits_of-value zero base n b l = omega arith
digits_of-value (suc room) base n b l =
    let (q, r, q_is, r_is, e, r_lt) = div-mod n base b in
    let smaller : q < digit_limit base room =
      rw q_is at ((div-lt_iff_lt-mul {k = base} {x = n} {y = digit_limit base room} b).1 l) in
    let rest = digits_of-value room base q b smaller in
    elim (Bool-cases (q == 0)) [
      | inl f ↦
          let z : q ≡ 0 = ground arith in
          let e' : n ≡ 0 * base + r = rw z at e in rw (q_is, r_is, f) (omega (arith, e'))
      | inr f ↦ rw (q_is, r_is, f) (rw rest (omega (arith, e)))
    ]

-- The digits that are printed for a number of 32 bits stand for this number, in decimal and in
-- hexadecimal: the arrays are long enough.
pub digits_of-shown :
    (n : ℕ) → n < 2 ^ 32 → (value 10 (digits_of 10 10 n) ≡ n) × (value 16 (digits_of 8 16 n) ≡ n)
digits_of-shown n l = (
  digits_of-value 10 10 n (omega arith) (omega arith),
  digits_of-value 8 16 n (omega arith) (omega arith),
)
