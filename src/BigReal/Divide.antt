-- ===== src/BigReal/Divide.antt =====
-- Div of kernel/main.c computes the quotient by an integer.
use simplix.Base.{
  ℕ, zero, suc, ◌+◌, ◌-◌, ◌*◌, ◌/◌, ◌^◌, ◌≤◌, ◌<◌, ◌≡◌, refl, sym, false, arith, update,
}
use native.Mathlib.Nat.{div-mul-le_self, lt-div-mul-add, div-lt_iff_lt-mul, div-eq_of_lt-le}
use simplix.BigReal.{Digits, base, wrap, minus, is_negative, quotient, max_div, div_loop, div}
use simplix.BigReal.Value.{value, IsReduced, value-update}

-- One round: the digit of the quotient and the remainder.
abbrev dividend : ℕ → ℕ → ℕ
dividend a carry = wrap (a + wrap (carry * base))

round_lem :
    (a carry d : ℕ)
    → a < base
    → d ≤ max_div * max_div
    → carry < d
    → (quotient (dividend a carry) d * d
          + minus (dividend a carry) (wrap (quotient (dividend a carry) d * d))
        ≡ a + carry * base)
      × (quotient (dividend a carry) d < base)
      × (minus (dividend a carry) (wrap (quotient (dividend a carry) d * d)) < d)
round_lem a carry d lt small less =
    let n : ℕ = a + carry * base in
    let fits : n < 2 ^ 31 = omega arith in
    let e : dividend a carry ≡ n = omega arith in
    let pos : is_negative n ≡ false = ground arith in
    let low = div-mul-le_self n d in
    let high = lt-div-mul-add {a = n} {b = d} (omega arith) in
    let q_lt = (div-lt_iff_lt-mul {k = d} {x = n} {y = base} (omega arith)).1 (omega arith) in
    let m : wrap (n / d * d) ≡ n / d * d = omega (arith, low) in
    let r : minus n (wrap (n / d * d)) ≡ n - n / d * d = omega (arith, low, m) in
    rw (e, pos) (rw r (omega (arith, low), q_lt, omega (arith, high, low)))

div_loop_step :
    (left i carry : ℕ) (x : Digits) (d : ℕ) (y : Digits)
    → div_loop (suc left) i carry x d y ≡ (
        let q = quotient (dividend (x i) carry) d in
        div_loop left (i + 1) (minus (dividend (x i) carry) (wrap (q * d))) x d (update y i q))
unfolding div_loop
div_loop_step left i carry x d y = refl

-- The first `n` digits of `z` are the quotient.
Divided : ℕ → Digits → ℕ → Digits → Type 0
Divided n x d z = (r : ℕ) × (r < d) × (value n z * d + r ≡ value n x) × IsReduced n z

abbrev DividedUpTo : ℕ → Digits → ℕ → Digits → ℕ → Type 0
DividedUpTo i x d y carry = (carry < d) × (value i y * d + carry ≡ value i x) × IsReduced i y

div_round :
    (i carry d q r : ℕ) (x y : Digits)
    → q * d + r ≡ x i + carry * base
    → q < base
    → r < d
    → DividedUpTo i x d y carry
    → DividedUpTo (suc i) x d (update y i q) r
unfolding value
div_round i carry d q r x y sum lt less (carry_lt, eq, red) =
    let self : update y i q i ≡ q = ground arith in
    (less, grind (arith, value-update i y q, eq, sum, self), λ j h. ground (arith, red j))

div_loop_nil : (i carry : ℕ) (x : Digits) (d : ℕ) (y : Digits) → div_loop zero i carry x d y ≡ y
unfolding div_loop
div_loop_nil i carry x d y = refl

Divided-intro :
    (i carry : ℕ) (x : Digits) (d : ℕ) (y : Digits)
    → carry < d
    → value i y * d + carry ≡ value i x
    → IsReduced i y
    → Divided i x d y
unfolding Divided
Divided-intro i carry x d y lt eq red = (carry, lt, eq, red)

div_loop-Divided :
    (left i carry : ℕ) (x : Digits) (d : ℕ) (y : Digits)
    → IsReduced (i + left) x
    → d ≤ max_div * max_div
    → DividedUpTo i x d y carry
    → Divided (i + left) x d (div_loop left i carry x d y)
div_loop-Divided zero i carry x d y r small (carry_lt, eq, red) =
    let e : i + 0 ≡ i = omega arith in
    rw (div_loop_nil i carry x d y, e) (Divided-intro i carry x d y carry_lt eq red)
div_loop-Divided (suc left) i carry x d y r small (carry_lt, eq, red) =
    let (sum, lt, less) = round_lem (x i) carry d (r i (omega arith)) small carry_lt in
    let q = quotient (dividend (x i) carry) d in
    let rest = minus (dividend (x i) carry) (wrap (q * d)) in
    let e : i + suc left ≡ suc i + left = omega arith in
    let e' : i + 1 ≡ suc i = omega arith in
    rw (div_loop_step left i carry x d y) (
      rw (e', e)
        (div_loop-Divided left (suc i) rest x d (update y i q) (λ j h. r j (omega (arith, h))) small
          (div_round i carry d q rest x y sum lt less (carry_lt, eq, red))))

Divided-exact :
    (n d : ℕ) (x z : Digits) → Divided n x d z → (value n z ≡ value n x / d) × IsReduced n z
unfolding Divided
Divided-exact n d x z (r, lt, sum, red) =
    (sym (div-eq_of_lt-le {k = value n z} d (omega (arith, sum)) (grind (arith, sum, lt))), red)

value-zero : (x : Digits) → value zero x ≡ 0
unfolding value
value-zero x = refl

-- For a divisor from 1 to MaxDiv * MaxDiv, Div leaves the quotient in `y`, cut to `n` digits of the
-- base; no machine operation overflows.
pub div-value :
    (n d : ℕ) (x y : Digits)
    → IsReduced n x
    → 0 < d
    → d ≤ max_div * max_div
    → (value n (div n x d y) ≡ value n x / d) × IsReduced n (div n x d y)
unfolding div
div-value n d x y r pos small =
    let e : 0 + n ≡ n = omega arith in
    Divided-exact n d x (div_loop n 0 0 x d y) (
      rw e at (
        div_loop-Divided n 0 0 x d y (rw e r) small
          (pos, rw (value-zero x, value-zero y) (omega arith), λ i h. absurd (omega (arith, h)))))
