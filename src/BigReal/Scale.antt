-- ===== src/BigReal/Scale.antt =====
-- Mul of kernel/main.c computes the product by an integer.
use simplix.Base.{
  ℕ, zero, suc, ◌+◌, ◌*◌, ◌/◌, ◌%◌, ◌^◌, ◌≤◌, ◌<◌, ◌≡◌, refl, ◌∙◌, inl, inr, arith, ltb,
  if◌then◌else◌, update, Bool-cases,
}
use simplix.BigReal.{Digits, base, wrap, minus, is_below, mul_loop, mul}
use simplix.BigReal.Value.{value, power, IsReduced, value-update}

-- The largest factors for which no product overflows.
abbrev pub max_factor : ℕ
max_factor = 200000

mul_loop-frame : (n carry : ℕ) (x : Digits) (q j : ℕ) → n ≤ j → mul_loop n carry x q j ≡ x j
unfolding mul_loop
mul_loop-frame zero carry x q j h = refl
mul_loop-frame (suc i) carry x q j h =
    let xi = wrap (wrap (x i * q) + carry) in
    let small = is_below xi base in
    let x1 = update x i (if small then xi else minus xi (wrap (xi / base * base))) in
    mul_loop-frame i (if small then 0 else xi / base) x1 q j (omega arith) ∙ ground arith

abbrev carry_of : ℕ → ℕ
carry_of s = if is_below s base then 0 else s / base

abbrev digit_of : ℕ → ℕ
digit_of s = if is_below s base then s else minus s (wrap (s / base * base))

digit_lem : (s : ℕ) → s < 2 ^ 31 → (digit_of s ≡ s % base) × (carry_of s ≡ s / base)
digit_lem s h = ground arith

mul_loop_step :
    (i carry : ℕ) (x : Digits) (q : ℕ)
    → mul_loop (suc i) carry x q ≡ (
        let s = wrap (wrap (x i * q) + carry) in
        mul_loop i (carry_of s) (update x i (digit_of s)) q)
unfolding mul_loop
mul_loop_step i carry x q = refl

-- The product of a digit, with the carry.
product_lem :
    (a q c : ℕ)
    → a < base
    → q ≤ max_factor
    → c ≤ q
    → (let s = wrap (wrap (a * q) + c) in
        (digit_of s + carry_of s * base ≡ a * q + c) × (digit_of s < base) × (carry_of s ≤ q))
product_lem a q c h k l =
    let bound : a * q ≤ 9999 * q = grind arith in
    let s : wrap (wrap (a * q) + c) ≡ a * q + c = omega (arith, bound) in
    let (digit, carry) = digit_lem (a * q + c) (omega (arith, bound)) in
    rw s (rw (digit, carry) (omega arith, omega arith, omega (arith, bound)))

Scaled : ℕ → ℕ → ℕ → Digits → Digits → Type 0
Scaled n carry q x z = (c : ℕ) × (value n z + c * power n ≡ value n x * q + carry) × IsReduced n z

Scaled-suc :
    (i carry c1 q : ℕ) (x x1 z : Digits)
    → value i x1 ≡ value i x
    → z i + c1 * base ≡ x i * q + carry
    → z i < base
    → Scaled i c1 q x1 z
    → Scaled (suc i) carry q x z
unfolding Scaled value power
Scaled-suc i carry c1 q x x1 z same at lt (c, sum, r) = (
  c,
  grind (arith, sum, same, at),
  λ j h. elim (Bool-cases (ltb j i)) [
    | inl k ↦ r j (ground arith)
    | inr k ↦ let e : j ≡ i = ground arith in rw e lt
  ],
)

mul_loop-nil : (carry q : ℕ) (x : Digits) → Scaled zero carry q x (mul_loop zero carry x q)
unfolding Scaled value power
mul_loop-nil carry q x = (carry, omega arith, λ i k. absurd (omega (arith, k)))

mul_loop-Scaled :
    (n carry q : ℕ) (x : Digits)
    → IsReduced n x
    → q ≤ max_factor
    → carry ≤ q
    → Scaled n carry q x (mul_loop n carry x q)
mul_loop-Scaled zero carry q x r k h = mul_loop-nil carry q x
mul_loop-Scaled (suc i) carry q x r k h =
    let (sum, lt, le) = product_lem (x i) q carry (r i (omega arith)) k h in
    let s = wrap (wrap (x i * q) + carry) in
    let x1 = update x i (digit_of s) in
    let at = mul_loop-frame i (carry_of s) x1 q i (omega arith) in
    let here : x1 i ≡ digit_of s = ground arith in
    rw (mul_loop_step i carry x q) (
      Scaled-suc i carry (carry_of s) q x x1 (mul_loop i (carry_of s) x1 q)
        (value-update i x (digit_of s)) (omega (arith, sum, at, here)) (omega (arith, lt, at, here))
        (mul_loop-Scaled i (carry_of s) q x1 (λ j l. ground (arith, r j)) k le))

Scaled-exact :
    (n q : ℕ) (x z : Digits)
    → value n x * q < power n
    → Scaled n 0 q x z
    → (value n z ≡ value n x * q) × IsReduced n z
unfolding Scaled
Scaled-exact n q x z fits (zero, sum, r) = (grind (arith, sum), r)
Scaled-exact n q x z fits (suc c, sum, r) = absurd (grind (arith, sum))

-- If the product fits and the factor is at most 200000, Mul leaves the product in `x`, in digits
-- of the base; no machine operation overflows.
pub mul-value :
    (n q : ℕ) (x : Digits)
    → IsReduced n x
    → q ≤ max_factor
    → value n x * q < power n
    → (value n (mul n x q) ≡ value n x * q) × IsReduced n (mul n x q)
unfolding mul
mul-value n q x r k fits =
    Scaled-exact n q x (mul_loop n 0 x q) fits (mul_loop-Scaled n 0 q x r k (omega arith))
