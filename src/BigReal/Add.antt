-- ===== src/BigReal/Add.antt =====
-- Add of kernel/main.c computes the sum.
use simplix.Base.{
  ℕ, zero, suc, ◌+◌, ◌*◌, ◌≤◌, ◌<◌, ◌≡◌, refl, inl, inr, arith, ltb, if◌then◌else◌, update,
  Bool-cases,
}
use simplix.BigReal.{Digits, base, wrap, minus, is_below, add_loop, add}
use simplix.BigReal.Value.{value, power, IsReduced, value-update}

-- A loop down from `n` leaves the digits from `n` on.
add_loop-frame : (n carry : ℕ) (x y : Digits) (j : ℕ) → n ≤ j → add_loop n carry x y j ≡ x j
unfolding add_loop
add_loop-frame zero carry x y j h = refl
add_loop-frame (suc i) carry x y j h =
    let s = wrap (x i + wrap (y i + carry)) in
    let small = is_below s base in
    ground (
      arith,
      add_loop-frame i (if small then 0 else 1) (update x i (if small then s else minus s base)) y
          j,
    )

-- The carry behind a digit, and the digit.
abbrev carry_of : ℕ → ℕ
carry_of s = if is_below s base then 0 else 1

abbrev digit_of : ℕ → ℕ
digit_of s = if is_below s base then s else minus s base

digit_lem :
    (a b c : ℕ)
    → a < base
    → b < base
    → c ≤ 1
    → (let s = wrap (a + wrap (b + c)) in
        (digit_of s + carry_of s * base ≡ a + b + c) × (digit_of s < base) × (carry_of s ≤ 1))
digit_lem a b c h k l = ground arith

add_loop_step :
    (i carry : ℕ) (x y : Digits)
    → add_loop (suc i) carry x y ≡ (
        let s = wrap (x i + wrap (y i + carry)) in
        add_loop i (carry_of s) (update x i (digit_of s)) y)
unfolding add_loop
add_loop_step i carry x y = refl

-- The sum of the numbers with a carry, and what is carried out of it.
Carried : ℕ → ℕ → Digits → Digits → Digits → Type 0
Carried n carry x y z =
    (c : ℕ) × (c ≤ 1) × (value n z + c * power n ≡ value n x + value n y + carry) × IsReduced n z

-- What one more digit adds.
Carried-suc :
    (i carry c1 : ℕ) (x x1 y z : Digits)
    → value i x1 ≡ value i x
    → z i + c1 * base ≡ x i + y i + carry
    → z i < base
    → Carried i c1 x1 y z
    → Carried (suc i) carry x y z
unfolding Carried value power
Carried-suc i carry c1 x x1 y z same at lt (c, le, sum, r) = (
  c,
  le,
  grind (arith, sum, same, at),
  λ j h. elim (Bool-cases (ltb j i)) [
    | inl k ↦ r j (ground arith)
    | inr k ↦ let e : j ≡ i = ground arith in rw e lt
  ],
)

add_loop-nil :
    (carry : ℕ) (x y : Digits) → carry ≤ 1 → Carried zero carry x y (add_loop zero carry x y)
unfolding Carried value power
add_loop-nil carry x y h = (carry, h, omega arith, λ i k. absurd (omega (arith, k)))

add_loop-Carried :
    (n carry : ℕ) (x y : Digits)
    → IsReduced n x
    → IsReduced n y
    → carry ≤ 1
    → Carried n carry x y (add_loop n carry x y)
add_loop-Carried zero carry x y r s h = add_loop-nil carry x y h
add_loop-Carried (suc i) carry x y r s h =
    let (sum, lt, le) = digit_lem (x i) (y i) carry (r i (omega arith)) (s i (omega arith)) h in
    let t = wrap (x i + wrap (y i + carry)) in
    let x1 = update x i (digit_of t) in
    let at = add_loop-frame i (carry_of t) x1 y i (omega arith) in
    let here : x1 i ≡ digit_of t = ground arith in
    let z = add_loop i (carry_of t) x1 y in
    rw (add_loop_step i carry x y) (
      Carried-suc i carry (carry_of t) x x1 y z (value-update i x (digit_of t))
        (omega (arith, sum, at, here)) (omega (arith, lt, at, here))
        (add_loop-Carried i (carry_of t) x1 y (λ j k. ground (arith, r j))
          (λ j k. s j (omega arith)) le))

Carried-exact :
    (n : ℕ) (x y z : Digits)
    → value n x + value n y < power n
    → Carried n 0 x y z
    → (value n z ≡ value n x + value n y) × IsReduced n z
unfolding Carried
Carried-exact n x y z fits (zero, le, sum, r) = (grind (arith, sum), r)
Carried-exact n x y z fits (suc c, le, sum, r) = absurd (grind (arith, sum))

-- If the sum fits, Add leaves it in `x`, in digits of the base.
pub add-value :
    (n : ℕ) (x y : Digits)
    → IsReduced n x
    → IsReduced n y
    → value n x + value n y < power n
    → (value n (add n x y) ≡ value n x + value n y) × IsReduced n (add n x y)
unfolding add
add-value n x y r s fits =
    Carried-exact n x y (add_loop n 0 x y) fits (add_loop-Carried n 0 x y r s (omega arith))
